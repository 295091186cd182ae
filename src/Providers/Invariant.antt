-- ===== src/Providers/Invariant.antt =====
-- What the cache's store and removal keep: the count of the records, and its bound.
use knarr.Prelude.{
  ℕ, suc, ◌≤◌, ◌≡◌, refl, none, some, [], Text, leb, arith, Option-cases, Bool-cases, inl, inr,
  text_eq_iff,
}
use knarr.Prelude.Dict.{lookup, insert, IsDict, lookup-insert, insert-IsDict}
use knarr.Providers.Defs.{
  Provider, Cache, stored, find_record, evict_oldest, make_room, with_key, put_record,
}
use knarr.Providers.Count.{
  size, length-insert, size-insert, contains-lookup-none, contains-lookup-some,
}
use knarr.Providers.Evict.{
  IsCounted, with_key-size, evict_from-size, evict_from-IsDict, find_record-evict_from,
}

-- no key occurs twice, the count is the number of records, and it is within the capacity
pub record IsValid (t : Cache) : Type 0 where
  pub keys : IsDict t.cache
  pub counted : IsCounted t
  pub room : 1 ≤ t.max_records
  pub bounded : t.total_records ≤ t.max_records

pub with_key-IsValid : (key : Text) (t : Cache) → IsValid t → IsValid (with_key key t)
unfolding with_key
with_key-IsValid key t v = record {
  keys = ground (arith, insert-IsDict key [] t.cache v.keys, v.keys);
  counted = ground (arith, with_key-size key t, v.counted);
  room = ground (arith, v.room);
  bounded = ground (arith, v.bounded);
}

-- the record that is put has been counted, and its place is free
pub make_room-new :
    (key node_id : Text) (t : Cache)
    → IsValid t
    → find_record key node_id t.cache ≡ none
    → let t' = make_room key node_id t in
      IsDict t'.cache
      × (suc (size t'.cache) ≡ t'.total_records)
      × (t'.total_records ≤ t.max_records)
      × (t'.max_records ≡ t.max_records)
      × (find_record key node_id t'.cache ≡ none)
unfolding make_room evict_oldest
make_room-new key node_id t v e = elim (Bool-cases (leb t.max_records t.total_records)) [
  | inl full ↦
      let some_left : 1 ≤ t.total_records = ground (arith, v.room) in
      let s = evict_from-size t.evict_heap t v.counted some_left in
      rw (e, full, make_room)
        (
          evict_from-IsDict t.evict_heap t v.keys,
          ground (arith, s),
          ground (arith, s, v.bounded),
          s.2,
          find_record-evict_from key node_id t.evict_heap t v.keys e,
        )
  | inr free ↦ rw (e, free, make_room) (v.keys, ground (arith, v.counted), ground arith, refl, e)
]

-- a record that is put is found
pub put_record-find :
    (wall_now : ℕ) (key : Text) (p : Provider) (t : Cache) {t' : Cache}
    → put_record wall_now key p t ≡ stored t'
    → find_record key p.node_id t'.cache ≡ some p
unfolding put_record find_record
put_record-find wall_now key p t {t'} f = elim (Option-cases (lookup key t.cache)) [
  | inl miss ↦ absurd (ground arith)
  | inr (ps, hit) ↦ ground (
    arith,
    text_eq_iff key key,
    text_eq_iff p.node_id p.node_id,
    lookup-insert key key (insert p.node_id p ps) t.cache,
    lookup-insert p.node_id p.node_id p ps,
  )
]

pub put_record-IsValid :
    (wall_now : ℕ) (key : Text) (p : Provider) (t : Cache) {t' : Cache}
    → IsDict t.cache
    → 1 ≤ t.max_records
    → t.total_records ≤ t.max_records
    → (find_record key p.node_id t.cache ≡ none → suc (size t.cache) ≡ t.total_records)
    → ((r : Provider) → find_record key p.node_id t.cache ≡ some r → IsCounted t)
    → put_record wall_now key p t ≡ stored t'
    → IsValid t' × (t'.max_records ≡ t.max_records)
unfolding put_record find_record
put_record-IsValid wall_now key p t {t'} v room bound absent present f =
    elim (Option-cases (lookup key t.cache)) [
      | inl miss ↦ absurd (ground arith)
      | inr (ps, hit) ↦
          let longer = length-insert p.node_id p ps in
          let sized = size-insert key (insert p.node_id p ps) t.cache hit in
          elim (Option-cases (lookup p.node_id ps)) [
            | inl new ↦
                let counted = absent (rw (hit, find_record) new) in
                (
                  record {
                    keys = ground (arith, insert-IsDict key (insert p.node_id p ps) t.cache v);
                    counted =
                        ground
                          (arith, longer, sized, counted, contains-lookup-none p.node_id ps new);
                    room = ground arith;
                    bounded = ground arith;
                  },
                  ground arith,
                )
            | inr (r, old) ↦
                let counted = present r (rw (hit, find_record) old) in
                (
                  record {
                    keys = ground (arith, insert-IsDict key (insert p.node_id p ps) t.cache v);
                    counted =
                        ground
                          (arith, longer, sized, counted, contains-lookup-some p.node_id ps old);
                    room = ground arith;
                    bounded = ground arith;
                  },
                  ground arith,
                )
          ]
    ]
