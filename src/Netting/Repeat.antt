-- ===== src/Netting/Repeat.antt =====
-- A second cycle settles nothing more.
use mathlib.Core.Option.{some-injective}
use knarr.Prelude.{
  ℕ, suc, ◌+◌, ◌≡◌, ◌⊎◌, refl, sym, ap, ◌∙◌, true, false, ◌&&◌, Option, none, some, [], ◌∷◌, ◌++◌,
  Text, text_eq, text_eq_iff, if◌then◌else◌, length, length-append, Option-cases, Bool-cases, inl,
  inr, arith, All,
}
use knarr.Prelude.Dict.{Dict}
use knarr.Prelude.Sorting.{sort_by, All-sort_by}
use knarr.Commerce.Float.{FloatOps}
use knarr.Ledger.Defs.{Entry, Ledger}
use knarr.Netting.Policy.{Policies, resolve_policy}
use knarr.Netting.Defs.{
  Config, Order, Settlement, Queue, is_newer, get_all_ledger_entries, any_pending,
  has_pending_settlement, queue_settlement, order_for, cycle, run_netting_cycle,
}

module _ {F : Type 0} where
  abbrev pub HasKey : Text × Entry F → Type 0
  HasKey r = text_eq r.0 [] ≡ false

  any_pending-append :
      (key : Text) (queue : Queue F) (s : Settlement F)
      → any_pending key (queue ++ s ∷ [])
        ≡ (if any_pending key queue then true else text_eq s.peer_public_key key && s.is_pending)
  unfolding any_pending
  any_pending-append key [] s = ground arith
  any_pending-append key (r ∷ queue) s = ground (arith, any_pending-append key queue s)

  -- what is pending stays so
  has_pending-queue :
      (own key pk : Text) (body : Order F) (queue : Queue F)
      → has_pending_settlement key queue ≡ true
      → has_pending_settlement key (queue_settlement own pk body queue) ≡ true
  unfolding has_pending_settlement queue_settlement
  has_pending-queue own [] pk body queue h = absurd (ground arith)
  has_pending-queue own (c ∷ key) [] body queue h = any_pending-append (c ∷ key) queue _ ∙ rw h refl
  has_pending-queue own (c ∷ key) (d ∷ pk) body queue h =
      any_pending-append (c ∷ key) queue _ ∙ rw h refl

  -- what was put in is pending
  queue_settlement-pending :
      (own pk : Text) (body : Order F) (queue : Queue F)
      → text_eq pk [] ≡ false
      → has_pending_settlement pk (queue_settlement own pk body queue) ≡ true
  unfolding has_pending_settlement queue_settlement text_eq
  queue_settlement-pending own [] body queue h = absurd (ground arith)
  queue_settlement-pending own (c ∷ pk) body queue h =
      let same : text_eq (c ∷ pk) (c ∷ pk) ≡ true = (text_eq_iff (c ∷ pk) (c ∷ pk)).1 refl in
      any_pending-append (c ∷ pk) queue _ ∙ ground (arith, same)

  queue_settlement-length :
      (own pk : Text) (body : Order F) (queue : Queue F)
      → length (queue_settlement own pk body queue) ≡ suc (length queue)
  unfolding queue_settlement
  queue_settlement-length own [] body queue = omega (arith, length-append queue (_ ∷ []))
  queue_settlement-length own (c ∷ pk) body queue = omega (arith, length-append queue (_ ∷ []))

  module _ (ops : FloatOps F) (config : Config F) (own : Text)
      (policy : Text → Option (F × F)) where
    -- The cycle goes on past the row, or the row's peer has a settlement that is pending.
    abbrev IsSettled : Queue F → Text × Entry F → Type 0
    IsSettled queue r =
        (p : F × F) × (policy r.0 ≡ some p)
        × ((order_for ops config r.1.balance p.0 p.1 ≡ none)
            ⊎ (has_pending_settlement r.0 queue ≡ true))

    -- What is true of the queue and stays so as rows are put in is true after the loop.
    cycle-pending :
        (key : Text) (entries : Dict (Entry F)) (queue : Queue F) (queued : ℕ)
        → has_pending_settlement key queue ≡ true
        → has_pending_settlement key (cycle ops config own policy entries queue queued).0 ≡ true
    unfolding cycle
    cycle-pending key [] queue queued h = h
    cycle-pending key ((pk, e) ∷ entries) queue queued h = elim (Option-cases (policy pk)) [
      | inl miss ↦ rw (miss, cycle) h
      | inr ((ic, mb), f) ↦ elim (Option-cases (order_for ops config e.balance ic mb)) [
        | inl idle ↦ rw (f, idle, cycle) (cycle-pending key entries queue queued h)
        | inr (body, g) ↦ elim (Bool-cases (has_pending_settlement pk queue)) [
          | inl old ↦ rw (f, g, old, cycle) (cycle-pending key entries queue queued h)
          | inr new ↦
              rw (f, g, new, cycle)
                (cycle-pending key entries (queue_settlement own pk body queue) (suc queued)
                  (has_pending-queue own key pk body queue h))
        ]
      ]
    ]

    -- A cycle that does not raise settles every row and counts what it puts in.
    cycle-settles :
        (entries : Dict (Entry F)) (queue queue' : Queue F) (queued count : ℕ)
        → All HasKey entries
        → cycle ops config own policy entries queue queued ≡ (queue', some count)
        → All (IsSettled queue') entries × (queued + length queue' ≡ count + length queue)
    unfolding cycle
    cycle-settles [] queue queue' queued count k h =
        let same : queue ≡ queue' = ap (λ r. r.0) h in
        let counted : queued ≡ count = some-injective queued count (ap (λ r. r.1) h) in
        (tt, omega (arith, ap length same, counted))
    cycle-settles ((pk, e) ∷ entries) queue queue' queued count k h =
        elim (Option-cases (policy pk)) [
          | inl miss ↦ absurd (ground arith)
          | inr ((ic, mb), f) ↦ elim (Option-cases (order_for ops config e.balance ic mb)) [
            | inl idle ↦
                let ih =
                  cycle-settles entries queue queue' queued count k.1 (rw (f, idle, cycle) at h) in
                ((((ic, mb), f, inl idle), ih.0), ih.1)
            | inr (body, g) ↦ elim (Bool-cases (has_pending_settlement pk queue)) [
              | inl old ↦
                  let rest = rw (f, g, old, cycle) at h in
                  let ih = cycle-settles entries queue queue' queued count k.1 rest in
                  let stays = cycle-pending pk entries queue queued old in
                  (
                    (
                      (
                        (ic, mb),
                        f,
                        inr (ap (λ r. has_pending_settlement pk r.0) (sym rest) ∙ stays),
                      ),
                      ih.0,
                    ),
                    ih.1,
                  )
              | inr new ↦
                  let rest = rw (f, g, new, cycle) at h in
                  let queue1 = queue_settlement own pk body queue in
                  let ih = cycle-settles entries queue1 queue' (suc queued) count k.1 rest in
                  let stays =
                    cycle-pending pk entries queue1 (suc queued)
                      (queue_settlement-pending own pk body queue k.0) in
                  (
                    (
                      (
                        (ic, mb),
                        f,
                        inr (ap (λ r. has_pending_settlement pk r.0) (sym rest) ∙ stays),
                      ),
                      ih.0,
                    ),
                    omega (arith, ih.1, queue_settlement-length own pk body queue),
                  )
            ]
          ]
        ]

    cycle-idle :
        (entries : Dict (Entry F)) (queue : Queue F) (queued : ℕ)
        → All (IsSettled queue) entries
        → cycle ops config own policy entries queue queued ≡ (queue, some queued)
    unfolding cycle
    cycle-idle [] queue queued h = refl
    cycle-idle ((pk, e) ∷ entries) queue queued (((ic, mb), f, inl idle), h) =
        rw (f, idle, cycle) (cycle-idle entries queue queued h)
    cycle-idle ((pk, e) ∷ entries) queue queued (((ic, mb), f, inr pending), h) =
        elim (Option-cases (order_for ops config e.balance ic mb)) [
          | inl idle ↦ rw (f, idle, cycle) (cycle-idle entries queue queued h)
          | inr (body, g) ↦ rw (f, g, pending, cycle) (cycle-idle entries queue queued h)
        ]

  -- For a ledger whose rows all have a key: a cycle that does not raise counts the orders that it
  -- puts into the queue, and a second one on the same ledger puts in none.
  pub run_netting_cycle-repeat :
      (ops : FloatOps F) (config : Config F) (own : Text) (node_id_of : Text → Option Text)
      (policies : Policies F) (l : Ledger F) (queue queue' : Queue F) (count : ℕ)
      → All HasKey l.entries
      → run_netting_cycle ops config own node_id_of policies l queue ≡ (queue', some count)
      → (length queue' ≡ count + length queue)
        × (run_netting_cycle ops config own node_id_of policies l queue' ≡ (queue', some 0))
  unfolding run_netting_cycle get_all_ledger_entries
  run_netting_cycle-repeat ops config own node_id_of policies l queue queue' count k h =
      let policy : Text → Option (F × F) = λ pk. resolve_policy ops node_id_of policies pk [] in
      let sorted = All-sort_by is_newer HasKey l.entries k in
      let (settled, size) =
        cycle-settles ops config own policy (sort_by is_newer l.entries) queue queue' 0 count sorted
          h in
      (
        omega (arith, size),
        cycle-idle ops config own policy (sort_by is_newer l.entries) queue' 0 settled,
      )
