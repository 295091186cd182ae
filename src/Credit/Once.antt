-- ===== src/Credit/Once.antt =====
-- How often a payment is credited, in runs with purges of receipts.
use mathlib.Core.Path.{subst}
use knarr.Prelude.{
  ℕ, ◌≡◌, refl, sym, ap, ◌∙◌, true, false, Option, List, [], ◌∷◌, ◌++◌, Text, text_eq, text_eq_iff,
  inl, inr, arith, All, Bool-cases,
}
use knarr.Prelude.Int.{ℤ}
use knarr.Prelude.Dict.{Dict, contains}
use knarr.Commerce.Float.{FloatOps}
use knarr.Ledger.Defs.{Ledger}
use knarr.Ledger.Calls.{Call, run}
use knarr.Credit.Defs.{Event, Config, Receipt, Node, dedup_receipt_id, handle_payment_finalized}
use knarr.Credit.Cases.{is_credited, handle-cases}
use knarr.Credit.Run.{
  Step, payment, Paid, has_since, KeepsSince, IsFrom, step, run_steps, credits_in, calls_in,
  calls_of,
}
use knarr.Credit.Kept.{
  is_since-contains, credit_in-cases, has_since-step, has_since-run_steps, calls_of-run,
  insert-is_since,
}

module _ {F : Type 0} where
  abbrev pub HasOtherId : Text → Paid F → Type 0
  HasOtherId id p = text_eq id p.receipt_id ≡ false

  abbrev pub HaveDistinctIds : List (Paid F) → Type 0
  HaveDistinctIds [] = Unit
  HaveDistinctIds (p ∷ ps) = All (HasOtherId p.receipt_id) ps × HaveDistinctIds ps

  -- no credit of the list has a receipt of the node from this time on
  abbrev pub IsNew : ℕ → Node F → Paid F → Type 0
  IsNew start n p = has_since start p.receipt_id n ≡ false

  abbrev pub HasReceipt : ℕ → Node F → Paid F → Type 0
  HasReceipt start n p = has_since start p.receipt_id n ≡ true

  run-append :
      (ops : FloatOps F) (node_id_of : Text → Option Text) (cs ds : List (ℕ × Call F))
      (l : Ledger F)
      → run ops node_id_of (cs ++ ds) l ≡ run ops node_id_of ds (run ops node_id_of cs l)
  unfolding run
  run-append ops node_id_of [] ds l = refl
  run-append ops node_id_of ((now, c) ∷ cs) ds l = run-append ops node_id_of cs ds _

  other_id :
      (q id : Text) (d : Dict (Receipt F))
      → contains q d ≡ true
      → contains id d ≡ false
      → text_eq q id ≡ false
  other_id q id d old new = elim (Bool-cases (text_eq q id)) [
    | inl same ↦
        let e : q ≡ id = (text_eq_iff q id).0 same in
        absurd (ground (arith, ap (λ t. contains t d) e, old, new))
    | inr other ↦ other
  ]

module _ {F : Type 0} (ops : FloatOps F) (per_unit : F → ℤ → Option F) (config : Config F) where
  -- An event whose receipt is there leaves the node as it is.
  handle-old :
      (now : ℕ) (e : Event F) (n : Node F)
      → contains (dedup_receipt_id e) n.receipts ≡ true
      → ((handle_payment_finalized ops per_unit config now e n).0 ≡ n)
        × (is_credited (handle_payment_finalized ops per_unit config now e n).1 ≡ false)
  handle-old now e n h = elim (handle-cases ops per_unit config now e n) [
    | inl kept ↦ kept
    | inr (a, (new, at, added, rest)) ↦ absurd (ground (arith, new, h))
  ]

  credited-has_since :
      (now : ℕ) (e : Event F) (n : Node F)
      → is_credited (handle_payment_finalized ops per_unit config now e n).1 ≡ true
      → has_since now (dedup_receipt_id e) (handle_payment_finalized ops per_unit config now e n).0
        ≡ true
  credited-has_since now e n paid = elim (handle-cases ops per_unit config now e n) [
    | inl (same, o) ↦ absurd (ground (arith, o, paid))
    | inr (a, (new, at, added, rest)) ↦
        rw added
          (insert-is_since now now (dedup_receipt_id e) a.receipt n.receipts at (ground arith))
  ]

  module _ (node_id_of : Text → Option Text) where
    -- Once the handler has reported a credit for an event, no later event with the same chain and
    -- transaction changes the node, and none is reported as credited: whatever payments, calls of
    -- the ledger, other receipts, changes of wallets and purges of receipts come in between, if each
    -- purge comes no longer after the credit than the age that it lets receipts reach.
    pub handle-once :
        (now later : ℕ) (e f : Event F) (n : Node F) (steps : List (ℕ × Step F))
        → is_credited (handle_payment_finalized ops per_unit config now e n).1 ≡ true
        → All (KeepsSince now) steps
        → f.chain_id ≡ e.chain_id
        → f.tx_hash ≡ e.tx_hash
        → let m = run_steps ops per_unit config node_id_of ((now, payment e) ∷ steps) n in
          ((handle_payment_finalized ops per_unit config later f m).0 ≡ m)
          × (is_credited (handle_payment_finalized ops per_unit config later f m).1 ≡ false)
    unfolding run_steps step
    handle-once now later e f n steps paid kept chain tx =
        let n' = (handle_payment_finalized ops per_unit config now e n).0 in
        let m = run_steps ops per_unit config node_id_of steps n' in
        let same_id : dedup_receipt_id e ≡ dedup_receipt_id f =
          unfold dedup_receipt_id in rw (chain, tx) refl in
        let still =
          has_since-run_steps ops per_unit config node_id_of now steps n' (dedup_receipt_id e) kept
            (credited-has_since now e n paid) in
        let there = is_since-contains now (dedup_receipt_id e) m.receipts still in
        handle-old later f m (subst (λ t. contains t m.receipts ≡ true) same_id there)

    old-HasOtherId :
        (start : ℕ) (steps : List (ℕ × Step F)) (n : Node F) (q : Text)
        → All (KeepsSince start) steps
        → All (IsFrom start) steps
        → has_since start q n ≡ true
        → All (HasOtherId q) (credits_in ops per_unit config node_id_of steps n)
    unfolding credits_in
    old-HasOtherId start [] n q kept late h = tt
    old-HasOtherId start ((now, s) ∷ steps) n q kept late h =
        let n' = step ops per_unit config node_id_of now s n in
        let rest =
          old-HasOtherId start steps n' q kept.1 late.1
            (has_since-step ops per_unit config node_id_of start now s n q kept.0 h) in
        elim (credit_in-cases ops per_unit config node_id_of start now s n late.0) [
          | inl idle ↦ rw idle rest
          | inr (p, (paid, new, noted)) ↦
              let there = is_since-contains start q n.receipts h in
              rw paid (other_id q p.receipt_id n.receipts there new, rest)
        ]

    before-IsNew :
        (start now : ℕ) (s : Step F) (n : Node F) (ps : List (Paid F))
        → KeepsSince start (now, s)
        → All (IsNew start (step ops per_unit config node_id_of now s n)) ps
        → All (IsNew start n) ps
    before-IsNew start now s n [] kept h = tt
    before-IsNew start now s n (p ∷ ps) kept h = (
      elim (Bool-cases (has_since start p.receipt_id n)) [
        | inl old ↦
            let still =
              has_since-step ops per_unit config node_id_of start now s n p.receipt_id kept old in
            absurd (ground (arith, h.0, still))
        | inr new ↦ new
      ],
      before-IsNew start now s n ps kept h.1,
    )

    new-has_since :
        (start : ℕ) (q : Text) (n : Node F)
        → contains q n.receipts ≡ false
        → has_since start q n ≡ false
    new-has_since start q n new = elim (Bool-cases (has_since start q n)) [
      | inl old ↦ absurd (ground (arith, is_since-contains start q n.receipts old, new))
      | inr young ↦ young
    ]

    -- In a run of steps from `start` on, where each purge of receipts comes no longer after `start`
    -- than the age that it lets receipts reach, the ledger becomes what its own calls and the
    -- credits that the handler reports make of it. No two of these credits have the same receipt's
    -- id, which is made of the chain and the transaction; none has a receipt from `start` on before
    -- the run, and each has one after it.
    pub run_steps-credits :
        (start : ℕ) (steps : List (ℕ × Step F)) (n : Node F)
        → All (KeepsSince start) steps
        → All (IsFrom start) steps
        → let m = run_steps ops per_unit config node_id_of steps n in
          let credits = credits_in ops per_unit config node_id_of steps n in
          (m.ledger ≡ run ops node_id_of (calls_in ops per_unit config node_id_of steps n) n.ledger)
          × HaveDistinctIds credits
          × All (IsNew start n) credits
          × All (HasReceipt start m) credits
    unfolding run_steps credits_in calls_in run
    run_steps-credits start [] n kept late = (refl, tt, tt, tt)
    run_steps-credits start ((now, s) ∷ steps) n kept late =
        let n' = step ops per_unit config node_id_of now s n in
        let m = run_steps ops per_unit config node_id_of steps n' in
        let credits = credits_in ops per_unit config node_id_of steps n' in
        let cs = calls_of ops per_unit config node_id_of now s n in
        let ds = calls_in ops per_unit config node_id_of steps n' in
        let (ledger, distinct, new, noted) = run_steps-credits start steps n' kept.1 late.1 in
        let on_ledger : m.ledger ≡ run ops node_id_of (cs ++ ds) n.ledger =
          ledger
          ∙ ap (run ops node_id_of ds) (calls_of-run ops per_unit config node_id_of now s n)
          ∙ sym (run-append ops node_id_of cs ds n.ledger) in
        let new_before = before-IsNew start now s n credits kept.0 new in
        elim (credit_in-cases ops per_unit config node_id_of start now s n late.0) [
          | inl idle ↦ (on_ledger, rw idle distinct, rw idle new_before, rw idle noted)
          | inr (p, (paid, fresh, there)) ↦
              let other = old-HasOtherId start steps n' p.receipt_id kept.1 late.1 there in
              let still =
                has_since-run_steps ops per_unit config node_id_of start steps n' p.receipt_id
                  kept.1 there in
              (
                on_ledger,
                rw paid (other, distinct),
                rw paid (new-has_since start p.receipt_id n fresh, new_before),
                rw paid (still, noted),
              )
        ]
