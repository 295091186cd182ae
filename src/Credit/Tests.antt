-- ===== src/Credit/Tests.antt =====
-- A payment that is reported twice, with and without a purge of its receipt in between.
use knarr.Prelude.{
  arith, ℕ, ◌≡◌, refl, true, false, Option, none, some, List, [], ◌∷◌, text_eq, codes, All,
  starts_with, Text,
}
use knarr.Prelude.Int.{ℤ, pos}
use knarr.Commerce.Float.{zero_f}
use knarr.Commerce.Tenths.{tenths}
use knarr.Ledger.Defs.{
  credit_ledger, upsert_credit, with_entries, update, new_entry, charged, update_ledger_provider,
  get_ledger_balance,
}
use knarr.Ledger.Calls
use knarr.Ledger.Calls.{run, provider}
use knarr.Credit.Defs
use knarr.Credit.Defs.{
  Event, Config, Node, Decimals, missing, given, numeric, handle_payment_finalized, credited,
}
use knarr.Credit.Cases.{is_credited, Handled, handle-cases}
use knarr.Credit.Run.{Step, payment, purge, ledger_call, step, run_steps, credits_in, calls_in}
use knarr.Credit.Once.{IsNew, HasReceipt, HaveDistinctIds, run_steps-credits, handle-once}

program : Unit {0}
unfolding Defs.non_empty Defs.dedup_receipt_id Defs.get_node_by_wallet Defs.get_pubkey_by_node_id
    Defs.write_receipt Defs.emit_applied Defs.is_wrong_mint Defs.is_positive
    Defs.get_conversion_rate Defs.token_to_credits Defs.credits_of Defs.pay Defs.apply_credit
    Defs.handle_amount Defs.handle_decimals handle_payment_finalized Defs.purge_receipt_log_by_age
    step run_steps Calls.apply starts_with text_eq zero_f credit_ledger upsert_credit with_entries
    update new_entry charged knarr.Ledger.Defs.credited update_ledger_provider get_ledger_balance
program = tt

-- the amount itself
no_units : ℕ → ℤ → Option ℕ
no_units raw d = some raw

abbrev config : Config ℕ
config = record { knarr_mint = codes "mint"; conversion_rate = some 10 }

abbrev paid_event : Event ℕ
paid_event = record {
  event_type = codes "payment.finalized.sol";
  mint = codes "mint";
  from_address = codes "w1";
  amount = numeric 50;
  chain_id = codes "sol";
  tx_hash = codes "t1";
  decimals = missing;
}

-- the same transaction again, with another amount
abbrev again : Event ℕ
again = record paid_event { amount = numeric 70; decimals = given (pos 0) }

abbrev node : Node ℕ
node = record {
  ledger = record { entries = []; peer_keys = (codes "n1", codes "k1") ∷ [] };
  receipts = [];
  wallets = (codes "w1", codes "n1") ∷ [];
  bus = some [];
}

paid : is_credited (handle_payment_finalized tenths no_units config 1 paid_event node).1 ≡ true
unfolding program no_units
paid = refl

no_ids : Text → Option Text
no_ids key = none

-- In between the balance is charged, and a purge that lets receipts reach the age 7 finds none.
abbrev steps : List (ℕ × Step ℕ)
steps =
    (1, payment paid_event)
    ∷ (2, ledger_call (provider (codes "k1") 20))
    ∷ (8, purge 7)
    ∷ (9, payment again)
    ∷ []

balance :
    get_ledger_balance tenths
      (codes "k1")
      (run_steps tenths no_units config no_ids steps node).ledger
    ≡ some 30
unfolding program no_units no_ids
balance = refl

-- One unit of time later the purge deletes the receipt, and the transaction is credited again.
balance_after_purge :
    get_ledger_balance tenths
      (codes "k1")
      (run_steps tenths no_units config no_ids
        ((1, payment paid_event) ∷ (9, purge 7) ∷ (10, payment paid_event) ∷ [])
        node).ledger
    ≡ some 100
unfolding program no_units no_ids
balance_after_purge = refl

handle-cases_example :
    Handled tenths 1 paid_event node
      (handle_payment_finalized tenths no_units config 1 paid_event node)
handle-cases_example = handle-cases tenths no_units config 1 paid_event node

run_steps-credits_example :
    let m = run_steps tenths no_units config no_ids steps node in
    let credits = credits_in tenths no_units config no_ids steps node in
    (m.ledger ≡ run tenths no_ids (calls_in tenths no_units config no_ids steps node) node.ledger)
    × HaveDistinctIds credits
    × All (IsNew 1 node) credits
    × All (HasReceipt 1 m) credits
run_steps-credits_example =
    run_steps-credits tenths no_units config no_ids 1 steps node (tt, (tt, (omega arith, (tt, tt))))
      (omega arith, (omega arith, (omega arith, (omega arith, tt))))

abbrev between : List (ℕ × Step ℕ)
between = (2, ledger_call (provider (codes "k1") 20)) ∷ (8, purge 7) ∷ []

handle-once_example :
    let m = run_steps tenths no_units config no_ids ((1, payment paid_event) ∷ between) node in
    ((handle_payment_finalized tenths no_units config 9 again m).0 ≡ m)
    × (is_credited (handle_payment_finalized tenths no_units config 9 again m).1 ≡ false)
handle-once_example =
    handle-once tenths no_units config no_ids 1 9 paid_event again node between paid
      (tt, (omega arith, tt)) refl refl
