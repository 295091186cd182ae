-- ===== src/Ledger/Accounts.antt =====
-- The ledger is one account for each peer.
use knarr.Prelude.{
  ℕ, suc, ◌+◌, ◌≤◌, ◌≡◌, ◌⊎◌, refl, ap, ◌∙◌, true, false, not, ◌&&◌, ◌||◌, Option, none, some, List,
  [], ◌∷◌, Text, text_eq, text_eq_iff, if◌then◌else◌, length, arith, Option-cases, Bool-cases, inl,
  inr, ltb,
}
use knarr.Prelude.Dict.{Dict, lookup, insert, contains, lookup-insert}
use knarr.Commerce.Float.{FloatOps, zero_f}
use knarr.Ledger.Defs.{
  Entry, Ledger, update, with_entries, create_entry, get_or_create_ledger_entry,
  update_ledger_provider, update_ledger_consumer, update_ledger_refund, upsert_credit,
  credit_ledger, hold_balance, release_held, return_held, decay_all, decay_stale_balances,
  new_entry, charged, earned, credited, held, held_row, released, returned, decayed,
  max_ledger_entries,
}
use knarr.Ledger.Calls.{
  Call, apply, run, own_step, is_about, account, changed, existing, get_or_create, provider,
  consumer, refund, credit, hold, release, return, decay,
}

module _ {F : Type 0} where
  pub update-lookup :
      (ops : FloatOps F) (peer q : Text) (f : Entry F → Entry F) (entries : Dict (Entry F))
      → lookup q (update peer f entries)
        ≡ (if text_eq peer q then changed ops f (lookup q entries) else lookup q entries)
  unfolding update
  update-lookup ops peer q f [] = ground arith
  update-lookup ops peer q f ((k, e) ∷ entries) = ground (
    arith,
    text_eq_iff k peer,
    text_eq_iff k q,
    text_eq_iff peer q,
    update-lookup ops peer q f entries,
  )

  pub update-length :
      (peer : Text) (f : Entry F → Entry F) (entries : Dict (Entry F))
      → length (update peer f entries) ≡ length entries
  unfolding update
  update-length peer f [] = refl
  update-length peer f ((k, e) ∷ entries) = ground (arith, update-length peer f entries)

  pub insert-length :
      (peer : Text) (e : Entry F) (entries : Dict (Entry F))
      → length (insert peer e entries)
        ≡ (if contains peer entries then length entries else suc (length entries))
  insert-length peer e [] = refl
  insert-length peer e ((k, d) ∷ entries) = ground (arith, insert-length peer e entries)

  pub contains-lookup :
      (q : Text) (entries : Dict (Entry F))
      → ((contains q entries ≡ false) × (lookup q entries ≡ none))
        ⊎ ((contains q entries ≡ true) × ((e : Entry F) × (lookup q entries ≡ some e)))
  contains-lookup q [] = inl (refl, refl)
  contains-lookup q ((k, e) ∷ entries) = elim (Bool-cases (text_eq k q)) [
    | inl here ↦ inr (rw here refl, (e, rw here refl))
    | inr there ↦ rw there (contains-lookup q entries)
  ]

  -- to change a row or to put a new one in
  pub upsert-lookup :
      (ops : FloatOps F) (peer q : Text) (f : Entry F → Entry F) (new : Entry F)
      (entries : Dict (Entry F))
      → lookup q (if contains peer entries then update peer f entries else insert peer new entries)
        ≡ (if text_eq peer q
            then some (existing ops new (changed ops f (lookup q entries)))
            else lookup q entries)
  upsert-lookup ops peer q f new entries = elim (contains-lookup peer entries) [
    | inl (absent, e) ↦
        rw absent (ground (arith, lookup-insert peer q new entries, text_eq_iff peer q))
    | inr (present, (d, e)) ↦
        rw present (ground (arith, update-lookup ops peer q f entries, text_eq_iff peer q))
  ]

  pub upsert-length :
      (peer : Text) (f : Entry F → Entry F) (new : Entry F) (entries : Dict (Entry F))
      → length (if contains peer entries then update peer f entries else insert peer new entries)
        ≤ suc (length entries)
  upsert-length peer f new entries =
      ground (arith, insert-length peer new entries, update-length peer f entries)

  update_present-lookup :
      (ops : FloatOps F) (peer q : Text) (f : Entry F → Entry F) (entries : Dict (Entry F))
      → (lookup q (if contains peer entries then update peer f entries else entries)
          ≡ (if text_eq peer q then changed ops f (lookup q entries) else lookup q entries))
        × (length (if contains peer entries then update peer f entries else entries)
            ≤ suc (length entries))
  update_present-lookup ops peer q f entries = elim (contains-lookup peer entries) [
    | inl (absent, e) ↦ rw absent (ground (arith, text_eq_iff peer q), omega arith)
    | inr (present, (d, e)) ↦
        rw present (update-lookup ops peer q f entries, omega (arith, update-length peer f entries))
  ]

  module _ (ops : FloatOps F) where
    open ops use {decimal, le, is_finite}

    decay_all-lookup :
        (now : ℕ) (rate : F) (stale : ℕ) (q : Text) (entries : Dict (Entry F))
        → lookup q (decay_all ops now rate stale entries).0
          ≡ changed ops (decayed ops now rate stale) (lookup q entries)
    unfolding decay_all
    decay_all-lookup now rate stale q [] = refl
    decay_all-lookup now rate stale q ((k, e) ∷ entries) =
        ground (arith, decay_all-lookup now rate stale q entries)

    decay_all-length :
        (now : ℕ) (rate : F) (stale : ℕ) (entries : Dict (Entry F))
        → length (decay_all ops now rate stale entries).0 ≡ length entries
    unfolding decay_all
    decay_all-length now rate stale [] = refl
    decay_all-length now rate stale ((k, e) ∷ entries) =
        ap suc (decay_all-length now rate stale entries)

    -- below the cap nothing is deleted
    create_entry-lookup :
        (now : ℕ) (peer q : Text) (trust : F) (entries : Dict (Entry F))
        → suc (length entries) ≤ max_ledger_entries
        → (lookup q (create_entry ops now peer trust entries) ≡ (
            if text_eq peer q
            then some (existing ops (new_entry ops now (zero_f ops) trust) (lookup q entries))
            else lookup q entries))
          × (length (create_entry ops now peer trust entries) ≤ suc (length entries))
    unfolding create_entry
    create_entry-lookup now peer q trust entries h =
        let new = new_entry ops now (zero_f ops) trust in
        elim (contains-lookup peer entries) [
          | inr (present, (d, e)) ↦ rw present (ground (arith, text_eq_iff peer q), omega arith)
          | inl (absent, e) ↦
              let longer : length (insert peer new entries) ≡ suc (length entries) =
                ground (arith, insert-length peer new entries) in
              let fits : ltb max_ledger_entries (length (insert peer new entries)) ≡ false =
                ground (arith, longer, h) in
              rw (absent, fits)
                (
                  ground (arith, lookup-insert peer q new entries, text_eq_iff peer q),
                  omega (arith, longer),
                )
        ]

    pub get_or_create-entries :
        (node_id_of : Text → Option Text) (now : ℕ) (peer : Text) (trust : F) (l : Ledger F)
        → (get_or_create_ledger_entry ops node_id_of now peer trust l).0.entries
          ≡ create_entry ops now peer trust l.entries
    unfolding get_or_create_ledger_entry
    get_or_create-entries node_id_of now peer trust l =
        elim (Option-cases (lookup peer (create_entry ops now peer trust l.entries))) [
          | inl absent ↦ rw (absent, get_or_create_ledger_entry) refl
          | inr (e, present) ↦ rw (present, get_or_create_ledger_entry) refl
        ]

    -- one step: what the call says to the accounts that it is about, and at most one row more
    pub apply-lookup :
        (node_id_of : Text → Option Text) (now : ℕ) (c : Call F) (q : Text) (l : Ledger F)
        → suc (length l.entries) ≤ max_ledger_entries
        → (lookup q (apply ops node_id_of now c l).entries ≡ (
            if is_about ops q c
            then own_step ops now c (lookup q l.entries)
            else lookup q l.entries))
          × (length (apply ops node_id_of now c l).entries ≤ suc (length l.entries))
    unfolding apply own_step is_about with_entries update_ledger_provider update_ledger_consumer
        update_ledger_refund credit_ledger upsert_credit hold_balance release_held return_held
        decay_stale_balances
    apply-lookup node_id_of now (get_or_create peer trust) q l h =
        rw (get_or_create-entries node_id_of now peer trust l)
          (create_entry-lookup now peer q trust l.entries h)
    apply-lookup node_id_of now (provider peer price) q l h = elim (Bool-cases (is_finite price)) [
      | inr bad ↦ rw bad (ground arith, omega arith)
      | inl good ↦ rw good (
        update-lookup ops peer q (charged ops now price) l.entries,
        omega (arith, update-length peer (charged ops now price) l.entries),
      )
    ]
    apply-lookup node_id_of now (consumer peer price) q l h = elim (Bool-cases (is_finite price)) [
      | inr bad ↦ rw bad (ground arith, omega arith)
      | inl good ↦ rw good (
        update-lookup ops peer q (earned ops now price) l.entries,
        omega (arith, update-length peer (earned ops now price) l.entries),
      )
    ]
    apply-lookup node_id_of now (refund peer amount) q l h = (
      update-lookup ops peer q (credited ops now amount) l.entries,
      omega (arith, update-length peer (credited ops now amount) l.entries),
    )
    apply-lookup node_id_of now (credit peer amount) q l h =
        elim (Bool-cases (not (is_finite amount) || le amount (zero_f ops))) [
          | inl bad ↦ rw bad (ground arith, omega arith)
          | inr good ↦
              let passes : (is_finite amount && not (le amount (zero_f ops))) ≡ true =
                ground arith in
              rw (good, passes)
                (
                  upsert-lookup ops peer q (credited ops now amount)
                      (new_entry ops now amount (decimal 3 1)) l.entries,
                  upsert-length peer (credited ops now amount)
                      (new_entry ops now amount (decimal 3 1)) l.entries,
                )
        ]
    apply-lookup node_id_of now (hold peer amount) q l h = (
      upsert-lookup ops peer q (held ops amount) (held_row ops now amount) l.entries,
      upsert-length peer (held ops amount) (held_row ops now amount) l.entries,
    )
    apply-lookup node_id_of now (release peer amount) q l h =
        update_present-lookup ops peer q (released ops now amount) l.entries
    apply-lookup node_id_of now (return peer amount) q l h =
        update_present-lookup ops peer q (returned ops now amount) l.entries
    apply-lookup node_id_of now (decay rate stale) q l h = (
      decay_all-lookup now rate stale q l.entries,
      omega (arith, decay_all-length now rate stale l.entries),
    )

    -- The account of a peer after a run of calls is what the calls about this peer make of it, in
    -- their order and whatever is called for other peers in between: as long as the rows and the
    -- calls together are no more than the cap of the ledger.
    pub run-account :
        (node_id_of : Text → Option Text) (cs : List (ℕ × Call F)) (q : Text) (l : Ledger F)
        → length cs + length l.entries ≤ max_ledger_entries
        → lookup q (run ops node_id_of cs l).entries ≡ account ops q cs (lookup q l.entries)
    unfolding run account
    run-account node_id_of [] q l h = refl
    run-account node_id_of ((now, c) ∷ cs) q l h =
        let (one, length_le) = apply-lookup node_id_of now c q l (omega (arith, h)) in
        run-account node_id_of cs q (apply ops node_id_of now c l) (omega (arith, h, length_le))
        ∙ ap (account ops q cs) one
