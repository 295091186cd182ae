-- ===== src/Credit/Kept.antt =====
-- What a step of a node makes of the receipts, and what it credits.
use knarr.Prelude.{
  ℕ, ◌+◌, ◌≤◌, ◌≡◌, ◌⊎◌, refl, ap, true, false, not, Option, List, [], ◌∷◌, Text, text_eq,
  text_eq_iff, ltb, leb, keep, arith, All, inl, inr, Bool-cases,
}
use knarr.Prelude.Int.{ℤ}
use knarr.Prelude.Dict.{Dict, lookup, contains, insert, lookup-insert}
use knarr.Commerce.Float.{FloatOps}
use knarr.Ledger.Calls.{apply, run}
use knarr.Credit.Defs.{
  Event, Config, Receipt, Node, Outcome, credited, ignored, wrong_mint, invalid_amount,
  already_credited, conversion_failed, unresolved, no_pubkey, raised, dedup_receipt_id,
  write_receipt, purge_receipt_log_by_age,
}
use knarr.Credit.Cases.{is_credited, handle-cases}
use knarr.Credit.Run.{
  Step, payment, purge, ledger_call, other_receipt, set_wallets, Paid, reported, is_since,
  has_since, KeepsSince, step, run_steps, credit_in, calls_of,
}

module _ {F : Type 0} where
  pub is_since-contains :
      (start : ℕ) (q : Text) (d : Dict (Receipt F))
      → is_since start (lookup q d) ≡ true
      → contains q d ≡ true
  is_since-contains start q [] h = h
  is_since-contains start q ((j, r) ∷ d) h = ground (arith, is_since-contains start q d)

  is_since-insert :
      (start : ℕ) (q id : Text) (r : Receipt F) (d : Dict (Receipt F))
      → contains id d ≡ false
      → is_since start (lookup q d) ≡ true
      → is_since start (lookup q (insert id r d)) ≡ true
  is_since-insert start q id r d new h = elim (Bool-cases (text_eq id q)) [
    | inl same ↦
        let e : id ≡ q = (text_eq_iff id q).0 same in
        absurd (ground (arith, ap (λ t. contains t d) e, is_since-contains start q d h))
    | inr other ↦ rw (lookup-insert id q r d, other) h
  ]

  is_since-keep :
      (start now max_age : ℕ) (q : Text) (d : Dict (Receipt F))
      → now ≤ start + max_age
      → is_since start (lookup q d) ≡ true
      → is_since start (lookup q (keep (λ e. not (ltb (e.1.created_at + max_age) now)) d)) ≡ true
  is_since-keep start now max_age q [] within h = h
  is_since-keep start now max_age q ((j, r) ∷ d) within h =
      elim (Bool-cases (ltb (r.created_at + max_age) now)) [
        | inl old ↦ elim (Bool-cases (text_eq j q)) [
          | inl same ↦
              let young : leb start r.created_at ≡ true = rw same at h in absurd (ground arith)
          | inr other ↦
              let there : is_since start (lookup q d) ≡ true = rw other at h in
              rw old (is_since-keep start now max_age q d within there)
        ]
        | inr young ↦ elim (Bool-cases (text_eq j q)) [
          | inl same ↦
              let recent : leb start r.created_at ≡ true = rw same at h in rw (young, same) recent
          | inr other ↦
              let there : is_since start (lookup q d) ≡ true = rw other at h in
              rw (young, other) (is_since-keep start now max_age q d within there)
        ]
      ]

  is_since-write_receipt :
      (start : ℕ) (q id : Text) (r : Receipt F) (n : Node F)
      → has_since start q n ≡ true
      → has_since start q (write_receipt id r n) ≡ true
  unfolding write_receipt
  is_since-write_receipt start q id r n h = elim (Bool-cases (contains id n.receipts)) [
    | inl old ↦ rw (old, write_receipt) h
    | inr new ↦ rw (new, write_receipt) (is_since-insert start q id r n.receipts new h)
  ]

  reported-none :
      (now : ℕ) (e : Event F) (o : Outcome F) → is_credited o ≡ false → reported now e o ≡ []
  reported-none now e (credited peer amount) h = cc
  reported-none now e ignored h = refl
  reported-none now e wrong_mint h = refl
  reported-none now e invalid_amount h = refl
  reported-none now e already_credited h = refl
  reported-none now e conversion_failed h = refl
  reported-none now e unresolved h = refl
  reported-none now e no_pubkey h = refl
  reported-none now e raised h = refl

  pub insert-is_since :
      (start now : ℕ) (id : Text) (r : Receipt F) (d : Dict (Receipt F))
      → r.created_at ≡ now
      → start ≤ now
      → is_since start (lookup id (insert id r d)) ≡ true
  insert-is_since start now id r d at late =
      rw (lookup-insert id id r d, (text_eq_iff id id).1 refl) (ground arith)

module _ {F : Type 0} (ops : FloatOps F) (per_unit : F → ℤ → Option F) (config : Config F)
    (node_id_of : Text → Option Text) where
  -- the step credits this, under a receipt that is new
  abbrev pub Credits : ℕ → ℕ → Step F → Node F → Paid F → Type 0
  Credits start now s n p =
      (credit_in ops per_unit config node_id_of now s n ≡ p ∷ [])
      × (contains p.receipt_id n.receipts ≡ false)
      × (has_since start p.receipt_id (step ops per_unit config node_id_of now s n) ≡ true)

  -- A step credits nothing, or one payment.
  pub credit_in-cases :
      (start now : ℕ) (s : Step F) (n : Node F)
      → start ≤ now
      → (credit_in ops per_unit config node_id_of now s n ≡ [])
        ⊎ ((p : Paid F) × Credits start now s n p)
  unfolding credit_in step
  credit_in-cases start now (purge max_age) n late = inl refl
  credit_in-cases start now (ledger_call c) n late = inl refl
  credit_in-cases start now (other_receipt id r) n late = inl refl
  credit_in-cases start now (set_wallets wallets) n late = inl refl
  credit_in-cases start now (payment e) n late = elim (handle-cases ops per_unit config now e n) [
    | inl (same, o) ↦ inl (reported-none now e _ o)
    | inr (a, (new, at, added, inr (o, fails, same, bus))) ↦ inl (rw o refl)
    | inr (a, (new, at, added, inl (o, gives))) ↦
        let p : Paid F = record {
          receipt_id = dedup_receipt_id e;
          now = now;
          peer_key = a.peer_key;
          amount = a.amount;
        } in
        inr (
          p,
          (
            rw o refl,
            new,
            rw added (insert-is_since start now (dedup_receipt_id e) a.receipt n.receipts at late),
          ),
        )
  ]

  pub has_since-step :
      (start now : ℕ) (s : Step F) (n : Node F) (q : Text)
      → KeepsSince start (now, s)
      → has_since start q n ≡ true
      → has_since start q (step ops per_unit config node_id_of now s n) ≡ true
  unfolding step purge_receipt_log_by_age
  has_since-step start now (purge max_age) n q within h =
      is_since-keep start now max_age q n.receipts within h
  has_since-step start now (ledger_call c) n q within h = h
  has_since-step start now (other_receipt id r) n q within h =
      is_since-write_receipt start q id (record r { created_at = now }) n h
  has_since-step start now (set_wallets wallets) n q within h = h
  has_since-step start now (payment e) n q within h =
      elim (handle-cases ops per_unit config now e n) [
        | inl (same, o) ↦ rw (ap (λ m. m.receipts) same) h
        | inr (a, (new, at, added, rest)) ↦
            rw added (is_since-insert start q (dedup_receipt_id e) a.receipt n.receipts new h)
      ]

  pub has_since-run_steps :
      (start : ℕ) (steps : List (ℕ × Step F)) (n : Node F) (q : Text)
      → All (KeepsSince start) steps
      → has_since start q n ≡ true
      → has_since start q (run_steps ops per_unit config node_id_of steps n) ≡ true
  unfolding run_steps
  has_since-run_steps start [] n q within h = h
  has_since-run_steps start ((now, s) ∷ steps) n q within h =
      has_since-run_steps start steps (step ops per_unit config node_id_of now s n) q within.1
        (has_since-step start now s n q within.0 h)

  -- the ledger after a step is what the step's calls make of it
  pub calls_of-run :
      (now : ℕ) (s : Step F) (n : Node F)
      → (step ops per_unit config node_id_of now s n).ledger
        ≡ run ops node_id_of (calls_of ops per_unit config node_id_of now s n) n.ledger
  unfolding step calls_of credit_in run apply purge_receipt_log_by_age write_receipt
  calls_of-run now (purge max_age) n = refl
  calls_of-run now (ledger_call c) n = refl
  calls_of-run now (set_wallets wallets) n = refl
  calls_of-run now (other_receipt id r) n = elim (Bool-cases (contains id n.receipts)) [
    | inl old ↦ rw (old, write_receipt) refl
    | inr new ↦ rw (new, write_receipt) refl
  ]
  calls_of-run now (payment e) n = elim (handle-cases ops per_unit config now e n) [
    | inl (same, o) ↦ rw (reported-none now e _ o) (ap (λ m. m.ledger) same)
    | inr (a, (new, at, added, inr (o, fails, ledger_same, bus))) ↦ rw o ledger_same
    | inr (a, (new, at, added, inl (o, gives))) ↦ rw (o, gives) refl
  ]
