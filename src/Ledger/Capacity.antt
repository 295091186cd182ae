-- ===== src/Ledger/Capacity.antt =====
-- A new peer in a full ledger.
use knarr.Prelude.{
  ℕ, suc, ◌≤◌, ◌≡◌, ◌≢◌, ◌⊎◌, refl, sym, ◌∙◌, Option, none, some, [], ◌∷◌, Text, text_eq,
  text_eq_iff, if◌then◌else◌, length, arith, Bool-cases, inl, inr, ltb, min, All,
}
use knarr.Prelude.Dict.{
  Dict, lookup, insert, contains, erase, IsDict, lookup-insert, lookup-erase, lookup-erase_ne,
  erase-IsDict, insert-IsDict,
}
use knarr.Commerce.Float.{FloatOps, zero_f}
use knarr.Ledger.Defs.{
  Entry, Ledger, create_entry, note_key, get_or_create_ledger_entry, new_entry, max_ledger_entries,
}
use knarr.Ledger.Accounts.{contains-lookup, insert-length}
use knarr.Ledger.Oldest.{IsNoOlder, delete_oldest-IsOldest, erase-length}

module _ {F : Type 0} where
  -- a row that is as it was, or the one row that was deleted
  abbrev pub IsKeptOrEvicted : Text → Text → Dict (Entry F) → Dict (Entry F) → Type 0
  IsKeptOrEvicted peer q before after =
      (lookup q after ≡ lookup q before)
      ⊎ ((e : Entry F) × (lookup q before ≡ some e)
          × (lookup q after ≡ none)
          × All (IsNoOlder peer e.last_updated) before)

  insert-IsNoOlder :
      (peer : Text) (t : ℕ) (new : Entry F) (entries : Dict (Entry F))
      → All (IsNoOlder peer t) (insert peer new entries)
      → All (IsNoOlder peer t) entries
  insert-IsNoOlder peer t new [] h = tt
  insert-IsNoOlder peer t new ((k, e) ∷ entries) h = elim (Bool-cases (text_eq k peer)) [
    | inl here ↦
        let g : All (IsNoOlder peer t) ((k, new) ∷ entries) = rw here at h in
        (inl ((text_eq_iff k peer).0 here), g.1)
    | inr there ↦
        let g : All (IsNoOlder peer t) ((k, e) ∷ insert peer new entries) = rw there at h in
        (g.0, insert-IsNoOlder peer t new entries g.1)
  ]

  module _ (ops : FloatOps F) where
    create_entry-evicts :
        (now : ℕ) (peer q : Text) (trust : F) (entries : Dict (Entry F))
        → IsDict entries
        → length entries ≤ max_ledger_entries
        → q ≢ peer
        → IsDict (create_entry ops now peer trust entries)
          × (length (create_entry ops now peer trust entries) ≡ (
              if contains peer entries
              then length entries
              else min max_ledger_entries (suc (length entries))))
          × ((e : Entry F) × (lookup peer (create_entry ops now peer trust entries) ≡ some e))
          × IsKeptOrEvicted peer q entries (create_entry ops now peer trust entries)
    unfolding create_entry
    create_entry-evicts now peer q trust entries d h ne =
        let new = new_entry ops now (zero_f ops) trust in
        let entries' = insert peer new entries in
        elim (contains-lookup peer entries) [
          | inr (present, there) ↦ rw present (d, refl, there, inl refl)
          | inl (absent, missing) ↦
              let d' = insert-IsDict peer new entries d in
              let longer : length entries' ≡ suc (length entries) =
                ground (arith, insert-length peer new entries) in
              let at_peer : lookup peer entries' ≡ some new =
                ground (arith, lookup-insert peer peer new entries, text_eq_iff peer peer) in
              let at_q : lookup q entries' ≡ lookup q entries =
                ground (arith, lookup-insert peer q new entries, text_eq_iff peer q) in
              elim (Bool-cases (ltb max_ledger_entries (length entries'))) [
                | inr fits ↦
                    rw (absent, fits) (d', ground (arith, longer), (new, at_peer), inl at_q)
                | inl full ↦
                    let (k, t, e, (other, (e', at_k, age), older)) =
                      delete_oldest-IsOldest peer entries' d' (ground (arith, longer)) in
                    let peer_stays : lookup peer (erase k entries') ≡ some new =
                      lookup-erase_ne k peer entries' (λ f. ground (arith, text_eq_iff k peer, f))
                      ∙ at_peer in
                    let fewer = erase-length k e' entries' at_k in
                    let kept : IsKeptOrEvicted peer q entries (erase k entries') =
                      elim (Bool-cases (text_eq q k)) [
                        | inl is_it ↦
                            let q_k = (text_eq_iff q k).0 is_it in
                            inr (
                              e',
                              sym at_q ∙ rw q_k at_k,
                              rw q_k (lookup-erase k entries' d'),
                              rw age (insert-IsNoOlder peer t new entries older),
                            )
                        | inr is_not ↦ inl (
                            lookup-erase_ne k q entries' (λ f. ground (arith, text_eq_iff q k, f))
                            ∙ at_q)
                      ] in
                    rw (absent, full, e)
                      (
                        erase-IsDict k entries' d',
                        ground (arith, longer, fewer),
                        (new, peer_stays),
                        kept,
                      )
              ]
        ]

    -- In a ledger within its cap where no peer has two rows, get_or_create_ledger_entry gives the
    -- peer's row, which is there afterwards, and keeps these two facts. It adds a row for a new peer
    -- until the cap is reached. The row of another peer stays as it is, or is deleted, and then no
    -- other peer's row is older.
    pub get_or_create-evicts :
        (node_id_of : Text → Option Text) (now : ℕ) (peer q : Text) (trust : F) (l : Ledger F)
        → IsDict l.entries
        → length l.entries ≤ max_ledger_entries
        → q ≢ peer
        → (l' : Ledger F) × (e : Entry F) × (get_or_create_ledger_entry ops node_id_of now peer
              trust l
            ≡ (l', e))
          × (lookup peer l'.entries ≡ some e)
          × IsDict l'.entries
          × (length l'.entries ≡ (
              if contains peer l.entries
              then length l.entries
              else min max_ledger_entries (suc (length l.entries))))
          × IsKeptOrEvicted peer q l.entries l'.entries
    unfolding get_or_create_ledger_entry
    get_or_create-evicts node_id_of now peer q trust l d h ne =
        let (d', size, (e, there), kept) = create_entry-evicts now peer q trust l.entries d h ne in
        let l' : Ledger F = record {
          entries = create_entry ops now peer trust l.entries;
          peer_keys = note_key ops node_id_of peer l.peer_keys;
        } in
        (l', e, rw (there, get_or_create_ledger_entry) refl, there, d', size, kept)
