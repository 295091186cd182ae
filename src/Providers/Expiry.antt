-- ===== src/Providers/Expiry.antt =====
-- What the sweep of expired records and the loading of the rows come to.
use knarr.Prelude.{
  ℕ, suc, ◌+◌, ◌*◌, ◌≤◌, ◌≡◌, refl, max, true, none, some, List, [], ◌∷◌, Text, leb, arith, length,
  Option-cases, Bool-cases, inl, inr, All, All-append,
}
use knarr.Prelude.Dict.{Dict, lookup, insert, IsDict, insert-IsDict}
use knarr.Providers.Defs.{Provider, Row, HeapEntry, Records, Cache, find_record, heappush, with_key}
use knarr.Providers.Count.{size, length-insert, size-insert, contains-lookup-some}
use knarr.Providers.Invariant.{IsValid, with_key-IsValid}
use knarr.Providers.Sweep.{
  is_fresh, values, all_records, keep_fresh, count_expired, sweep, sweep_count, push_all,
  rebuild_heap, evict_expired, load_row, load_from_db, to_monotonic,
}

length-heappush :
    (e : HeapEntry) (heap : List HeapEntry) → length (heappush e heap) ≡ suc (length heap)
unfolding heappush
length-heappush e [] = refl
length-heappush e (f ∷ heap) = ground (arith, length-heappush e heap)

length-push_all :
    (key : Text) (ps : Dict Provider) (heap : List HeapEntry)
    → length (push_all key ps heap) ≡ length ps + length heap
unfolding push_all
length-push_all key [] heap = omega arith
length-push_all key ((n, p) ∷ ps) heap = ground (
  arith,
  length-push_all key ps heap,
  length-heappush (record { stored_at = p.stored_at; key = key; node_id = n })
      (push_all key ps heap),
)

length-rebuild_heap : (c : Records) → length (rebuild_heap c) ≡ size c
unfolding rebuild_heap size
length-rebuild_heap [] = refl
length-rebuild_heap ((key, ps) ∷ c) =
    ground (arith, length-rebuild_heap c, length-push_all key ps (rebuild_heap c))

module _ (now : ℕ) where
  length-keep_fresh :
      (ps : Dict Provider) → length (keep_fresh now ps) + count_expired now ps ≡ length ps
  unfolding keep_fresh count_expired
  length-keep_fresh [] = refl
  length-keep_fresh ((n, p) ∷ ps) = ground (arith, length-keep_fresh ps)

  size-sweep : (c : Records) → size (sweep now c) + sweep_count now c ≡ size c
  unfolding sweep sweep_count size
  size-sweep [] = refl
  size-sweep ((key, ps) ∷ c) = ground (arith, size-sweep c, length-keep_fresh ps)

  lookup-sweep-none : (k : Text) (c : Records) → lookup k c ≡ none → lookup k (sweep now c) ≡ none
  unfolding sweep
  lookup-sweep-none k [] e = refl
  lookup-sweep-none k ((key, ps) ∷ c) e = ground (arith, lookup-sweep-none k c)

  sweep-IsDict : (c : Records) → IsDict c → IsDict (sweep now c)
  unfolding sweep
  sweep-IsDict [] v = v
  sweep-IsDict ((key, ps) ∷ c) v = ground (arith, lookup-sweep-none key c v.0, sweep-IsDict c v.1)

  keep_fresh-All :
      (ps : Dict Provider) → All (λ p. is_fresh now p ≡ true) (values (keep_fresh now ps))
  unfolding keep_fresh values
  keep_fresh-All [] = tt
  keep_fresh-All ((n, p) ∷ ps) = ground (arith, keep_fresh-All ps)

  sweep-All : (c : Records) → All (λ p. is_fresh now p ≡ true) (all_records (sweep now c))
  unfolding sweep all_records
  sweep-All [] = tt
  sweep-All ((key, ps) ∷ c) = joined (keep_fresh now ps) (keep_fresh-All ps) (sweep-All c)
    where
      joined :
          (left : Dict Provider)
          → All (λ p. is_fresh now p ≡ true) (values left)
          → All (λ p. is_fresh now p ≡ true) (all_records (sweep now c))
          → All
              (λ p. is_fresh now p ≡ true)
              (all_records (elim left [ [] ↦ sweep now c | q ∷ qs ↦ (key, q ∷ qs) ∷ sweep now c ]))
      joined [] h rest = rest
      joined (q ∷ qs) h rest = All-append _ (values (q ∷ qs)) (all_records (sweep now c)) h rest

  lookup-keep_fresh :
      (n : Text) (ps : Dict Provider) {p : Provider}
      → lookup n ps ≡ some p
      → is_fresh now p ≡ true
      → lookup n (keep_fresh now ps) ≡ some p
  unfolding keep_fresh
  lookup-keep_fresh n [] e f = ground arith
  lookup-keep_fresh n ((m, q) ∷ ps) {p} e f = ground (arith, lookup-keep_fresh n ps {p = p})

  -- a fresh record that is found is found after the sweep
  find_record-sweep :
      (k n : Text) (c : Records) {p : Provider}
      → find_record k n c ≡ some p
      → is_fresh now p ≡ true
      → find_record k n (sweep now c) ≡ some p
  unfolding find_record sweep
  find_record-sweep k n [] e f = ground arith
  find_record-sweep k n ((j, ps) ∷ c) {p} e f =
      ground (arith, find_record-sweep k n c {p = p}, lookup-keep_fresh n ps {p = p})

-- After the sweep of expired records a valid cache is valid, so that the count is that of the
-- records that are left; all of them are fresh, and the heap has at most three entries for each
-- record, or three if there is none.
pub evict_expired-fresh :
    (now : ℕ) (t : Cache)
    → IsValid t
    → let t' = evict_expired now t in
      IsValid t'
      × All (λ p. is_fresh now p ≡ true) (all_records t'.cache)
      × (length t'.evict_heap ≤ 3 * max t'.total_records 1)
unfolding evict_expired
evict_expired-fresh now t v =
    let swept = size-sweep now t.cache in
    (
      record {
        keys = sweep-IsDict now t.cache v.keys;
        counted = ground (arith, swept, v.counted);
        room = v.room;
        bounded = ground (arith, v.bounded);
      },
      sweep-All now t.cache,
      ground (arith, length-rebuild_heap (sweep now t.cache), swept, v.counted),
    )

-- A fresh record of the cache is found there after the sweep of expired records.
pub evict_expired-keeps :
    (now : ℕ) (t : Cache) (key node_id : Text) (p : Provider)
    → find_record key node_id t.cache ≡ some p
    → is_fresh now p ≡ true
    → find_record key node_id (evict_expired now t).cache ≡ some p
unfolding evict_expired
evict_expired-keeps now t key node_id p e f = find_record-sweep now key node_id t.cache e f

load_row-IsValid :
    (now wall_now : ℕ) (row : Row) (t : Cache)
    → IsValid t
    → (find_record row.skill_key_hash row.provider.node_id t.cache ≡ none
        → suc t.total_records ≤ t.max_records)
    → IsValid (load_row now wall_now row t)
unfolding load_row find_record
load_row-IsValid now wall_now row t v space =
    elim (Option-cases (lookup row.skill_key_hash t.cache)) [
      | inl miss ↦ rw (miss, load_row) v
      | inr (ps, hit) ↦
          let key = row.skill_key_hash in
          let n = row.provider.node_id in
          let p : Provider = record row.provider {
            stored_at = to_monotonic now wall_now row.provider.stored_at;
          } in
          let longer = length-insert n p ps in
          let sized = size-insert key (insert n p ps) t.cache hit in
          rw (hit, load_row)
            (record {
              keys = insert-IsDict key (insert n p ps) t.cache v.keys;
              counted = ground (arith, longer, sized, v.counted);
              room = v.room;
              bounded = elim (Option-cases (lookup n ps)) [
                | inl new ↦ ground (arith, space (rw (hit, find_record) new), v.bounded)
                | inr (r, old) ↦ ground (arith, contains-lookup-some n ps old, v.bounded)
              ];
            })
    ]

-- Loading any rows into a valid cache gives a valid cache: the count is the number of records and
-- stays within the capacity.
pub load_from_db-IsValid :
    (now wall_now : ℕ) (rows : List Row) (t : Cache)
    → IsValid t
    → IsValid (load_from_db now wall_now rows t)
unfolding load_from_db
load_from_db-IsValid now wall_now [] t v = v
load_from_db-IsValid now wall_now (row ∷ rows) t v =
    let key = row.skill_key_hash in
    let n = row.provider.node_id in
    let opened = with_key key t in
    let w = with_key-IsValid key t v in
    let skipped = load_from_db-IsValid now wall_now rows t v in
    elim (Bool-cases (is_fresh wall_now row.provider)) [
      | inr expired ↦ rw expired skipped
      | inl fresh ↦ elim (Option-cases (find_record key n opened.cache)) [
        | inr (r, old) ↦
            rw (fresh, old, load_from_db)
              (load_from_db-IsValid now wall_now rows (load_row now wall_now row opened)
                (load_row-IsValid now wall_now row opened w (λ e. absurd (ground arith))))
        | inl new ↦ elim (Bool-cases (leb opened.max_records opened.total_records)) [
          | inl full ↦ rw (fresh, new, full, load_from_db) w
          | inr free ↦
              rw (fresh, new, free, load_from_db)
                (load_from_db-IsValid now wall_now rows (load_row now wall_now row opened)
                  (load_row-IsValid now wall_now row opened w (λ e. ground arith)))
        ]
      ]
    ]
