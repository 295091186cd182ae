-- ===== src/Credit/Run.antt =====
-- Runs of a node: payments, purges of receipts, calls of the ledger, and what else is written to the
-- receipts and to the wallets of the peers.
use knarr.Prelude.{
  ℕ, ◌+◌, ◌≤◌, Bool, false, Option, none, some, List, [], ◌∷◌, ◌++◌, map, Text, leb,
}
use knarr.Prelude.Int.{ℤ}
use knarr.Prelude.Dict.{Dict, lookup}
use knarr.Commerce.Float.{FloatOps}
use knarr.Ledger.Calls.{Call, credit, apply}
use knarr.Credit.Defs.{
  Event, Config, Receipt, Node, Outcome, credited, ignored, wrong_mint, invalid_amount,
  already_credited, conversion_failed, unresolved, no_pubkey, raised, dedup_receipt_id,
  write_receipt, purge_receipt_log_by_age, handle_payment_finalized,
}

-- A receipt that is written elsewhere has an id and any content.
pub data Step (F : Type 0) : Type 0 where
  payment : Event F → Step F
  purge : ℕ → Step F
  ledger_call : Call F → Step F
  other_receipt : Text → Receipt F → Step F
  set_wallets : Dict Text → Step F

-- a credit with the id of its receipt
pub record Paid (F : Type 0) : Type 0 where
  pub receipt_id : Text
  pub now : ℕ
  pub peer_key : Text
  pub amount : F

module _ {F : Type 0} where
  abbrev pub call_of : Paid F → ℕ × Call F
  call_of p = (p.now, credit p.peer_key p.amount)

  -- the credit that the handler reports for an event
  abbrev pub reported : ℕ → Event F → Outcome F → List (Paid F)
  reported now e (credited peer_key amount) =
      record { receipt_id = dedup_receipt_id e; now = now; peer_key = peer_key; amount = amount }
      ∷ []
  reported now e ignored = []
  reported now e wrong_mint = []
  reported now e invalid_amount = []
  reported now e already_credited = []
  reported now e conversion_failed = []
  reported now e unresolved = []
  reported now e no_pubkey = []
  reported now e raised = []

  -- there is a receipt with the id from this time on
  abbrev pub is_since : ℕ → Option (Receipt F) → Bool
  is_since start none = false
  is_since start (some r) = leb start r.created_at

  abbrev pub has_since : ℕ → Text → Node F → Bool
  has_since start receipt_id n = is_since start (lookup receipt_id n.receipts)

  -- A purge keeps what was written since then.
  abbrev pub KeepsSince : ℕ → ℕ × Step F → Type 0
  KeepsSince start (now, purge max_age) = now ≤ start + max_age
  KeepsSince start (now, payment e) = Unit
  KeepsSince start (now, ledger_call c) = Unit
  KeepsSince start (now, other_receipt receipt_id r) = Unit
  KeepsSince start (now, set_wallets wallets) = Unit

  abbrev pub IsFrom : ℕ → ℕ × Step F → Type 0
  IsFrom start s = start ≤ s.0

-- `node_id_of` gives the node's id for a public key, for the ledger.
module _ {F : Type 0} (ops : FloatOps F) (per_unit : F → ℤ → Option F) (config : Config F)
    (node_id_of : Text → Option Text) where
  unfoldable pub step : ℕ → Step F → Node F → Node F
  step now (payment e) n = (handle_payment_finalized ops per_unit config now e n).0
  step now (purge max_age) n = purge_receipt_log_by_age now max_age n
  step now (ledger_call c) n = record n { ledger = apply ops node_id_of now c n.ledger }
  step now (other_receipt receipt_id r) n =
      write_receipt receipt_id (record r { created_at = now }) n
  step now (set_wallets wallets) n = record n { wallets = wallets }

  unfoldable pub run_steps : List (ℕ × Step F) → Node F → Node F
  run_steps [] n = n
  run_steps ((now, s) ∷ steps) n = run_steps steps (step now s n)

  -- the credit that a step reports
  unfoldable pub credit_in : ℕ → Step F → Node F → List (Paid F)
  credit_in now (payment e) n =
      reported now e (handle_payment_finalized ops per_unit config now e n).1
  credit_in now (purge max_age) n = []
  credit_in now (ledger_call c) n = []
  credit_in now (other_receipt receipt_id r) n = []
  credit_in now (set_wallets wallets) n = []

  -- the credits that the handler reports in a run
  unfoldable pub credits_in : List (ℕ × Step F) → Node F → List (Paid F)
  credits_in [] n = []
  credits_in ((now, s) ∷ steps) n = credit_in now s n ++ credits_in steps (step now s n)

  -- the calls of the ledger in a step: its own, or the credit that is reported
  unfoldable pub calls_of : ℕ → Step F → Node F → List (ℕ × Call F)
  calls_of now (ledger_call c) n = (now, c) ∷ []
  calls_of now (payment e) n = map call_of (credit_in now (payment e) n)
  calls_of now (purge max_age) n = []
  calls_of now (other_receipt receipt_id r) n = []
  calls_of now (set_wallets wallets) n = []

  unfoldable pub calls_in : List (ℕ × Step F) → Node F → List (ℕ × Call F)
  calls_in [] n = []
  calls_in ((now, s) ∷ steps) n = calls_of now s n ++ calls_in steps (step now s n)
