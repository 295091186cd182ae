-- ===== src/Providers/Evict.antt =====
-- The count of the records that the cache keeps, and what it is worth.
use knarr.Prelude.{
  suc, ◌≤◌, ◌≡◌, none, some, List, [], ◌∷◌, Text, arith, Option-cases, inl, inr, text_eq_iff,
}
use knarr.Prelude.Dict.{
  lookup, erase, IsDict, lookup-insert, lookup-erase, lookup-erase_ne, lookup-erase-none,
  erase-IsDict, insert-IsDict,
}
use mathlib.Core.Path.{subst}
use mathlib.Core.Option.{some-injective}
use knarr.Providers.Defs.{
  HeapEntry, Records, Cache, find_record, delete_record, delete_any, evict_from, with_key,
}
use knarr.Providers.Count.{
  size, size-insert_new, size-delete_record, size-delete_any-none, size-delete_any,
  contains-lookup-none, contains-lookup-some,
}

-- the count is the number of records
abbrev pub IsCounted : Cache → Type 0
IsCounted t = size t.cache ≡ t.total_records

pub with_key-size : (key : Text) (t : Cache) → size (with_key key t).cache ≡ size t.cache
unfolding with_key size
with_key-size key t = elim (Option-cases (lookup key t.cache)) [
  | inl miss ↦
      ground (arith, contains-lookup-none key t.cache miss, size-insert_new key [] t.cache miss)
  | inr (ps, hit) ↦ ground (arith, contains-lookup-some key t.cache hit)
]

-- one record goes, of a cache that has records
pub evict_from-size :
    (heap : List HeapEntry) (t : Cache)
    → IsCounted t
    → 1 ≤ t.total_records
    → let t' = evict_from heap t in
      IsCounted t' × (suc t'.total_records ≡ t.total_records) × (t'.max_records ≡ t.max_records)
unfolding evict_from
evict_from-size [] t v some_left = elim (Option-cases (delete_any t.cache)) [
  | inl miss ↦ absurd (ground (arith, size-delete_any-none t.cache miss))
  | inr (c, hit) ↦ ground (arith, size-delete_any t.cache hit)
]
evict_from-size (e ∷ heap) t v some_left =
    let ih = evict_from-size heap t v some_left in
    elim (Option-cases (find_record e.key e.node_id t.cache)) [
      | inl miss ↦ rw (miss, evict_from) ih
      | inr (r, hit) ↦ ground (arith, ih, size-delete_record e.key e.node_id t.cache hit)
    ]

-- a record that is missing stays missing when another one goes
module _ (key node_id : Text) where
  find_record-delete_record :
      (k n : Text) (c : Records)
      → IsDict c
      → find_record key node_id c ≡ none
      → find_record key node_id (delete_record k n c) ≡ none
  unfolding find_record delete_record
  find_record-delete_record k n c v e = elim (Option-cases (lookup k c)) [
    | inl miss ↦ ground arith
    | inr (ps, hit) ↦
        let less = lookup-erase-none n node_id ps in
        ground (
          arith,
          text_eq_iff k key,
          lookup-erase k c v,
          lookup-erase_ne k key c,
          lookup-insert k key (erase n ps) c,
          less,
        )
  ]

  find_record-delete_any :
      (c : Records) {c' : Records}
      → IsDict c
      → find_record key node_id c ≡ none
      → delete_any c ≡ some c'
      → find_record key node_id c' ≡ none
  unfolding find_record delete_any
  find_record-delete_any [] v e f = ground arith
  find_record-delete_any ((k, []) ∷ c) {c'} v e f = elim (Option-cases (delete_any c)) [
    | inl miss ↦ absurd (ground arith)
    | inr (d, hit) ↦ ground (arith, find_record-delete_any c {c' = d})
  ]
  find_record-delete_any ((k, p ∷ []) ∷ c) v e f = ground (arith, text_eq_iff k key)
  find_record-delete_any ((k, p ∷ q ∷ ps) ∷ c) v e f = ground arith

pub delete_record-IsDict : (k n : Text) (c : Records) → IsDict c → IsDict (delete_record k n c)
unfolding delete_record
delete_record-IsDict k n c v = elim (Option-cases (lookup k c)) [
  | inl miss ↦ rw (miss, delete_record) v
  | inr (ps, hit) ↦ ground (arith, erase-IsDict k c v, insert-IsDict k (erase n ps) c v)
]

lookup-delete_any :
    (k : Text) (c : Records) {c' : Records}
    → delete_any c ≡ some c'
    → lookup k c ≡ none
    → lookup k c' ≡ none
unfolding delete_any
lookup-delete_any k [] f e = ground arith
lookup-delete_any k ((j, []) ∷ c) {c'} f e = elim (Option-cases (delete_any c)) [
  | inl miss ↦ absurd (ground arith)
  | inr (d, hit) ↦ ground (arith, lookup-delete_any k c {c' = d})
]
lookup-delete_any k ((j, p ∷ []) ∷ c) f e = ground arith
lookup-delete_any k ((j, p ∷ q ∷ ps) ∷ c) f e = ground arith

delete_any-IsDict : (c : Records) {c' : Records} → IsDict c → delete_any c ≡ some c' → IsDict c'
unfolding delete_any
delete_any-IsDict [] v f = ground arith
delete_any-IsDict ((k, []) ∷ c) {c'} v f = elim (Option-cases (delete_any c)) [
  | inl miss ↦ absurd (ground arith)
  | inr (d, hit) ↦
      let g : some ((k, []) ∷ d) ≡ some c' = rw hit at f in
      subst (λ c''. IsDict c'') (some-injective _ _ g)
        (lookup-delete_any k c hit v.0, delete_any-IsDict c v.1 hit)
]
delete_any-IsDict ((k, p ∷ []) ∷ c) v f = subst (λ c''. IsDict c'') (some-injective _ _ f) v.1
delete_any-IsDict ((k, p ∷ q ∷ ps) ∷ c) v f = subst (λ c''. IsDict c'') (some-injective _ _ f) v

-- the keys stay distinct, and a record that is missing stays missing
pub evict_from-IsDict :
    (heap : List HeapEntry) (t : Cache) → IsDict t.cache → IsDict (evict_from heap t).cache
unfolding evict_from
evict_from-IsDict [] t v = elim (Option-cases (delete_any t.cache)) [
  | inl miss ↦ rw (miss, evict_from) v
  | inr (c, hit) ↦ rw (hit, evict_from) (delete_any-IsDict t.cache v hit)
]
evict_from-IsDict (e ∷ heap) t v =
    let ih = evict_from-IsDict heap t v in
    elim (Option-cases (find_record e.key e.node_id t.cache)) [
      | inl miss ↦ rw (miss, evict_from) ih
      | inr (r, hit) ↦ ground (arith, ih, delete_record-IsDict e.key e.node_id t.cache v)
    ]

pub find_record-evict_from :
    (key node_id : Text) (heap : List HeapEntry) (t : Cache)
    → IsDict t.cache
    → find_record key node_id t.cache ≡ none
    → find_record key node_id (evict_from heap t).cache ≡ none
unfolding evict_from
find_record-evict_from key node_id [] t v e = elim (Option-cases (delete_any t.cache)) [
  | inl miss ↦ rw (miss, evict_from) e
  | inr (c, hit) ↦ rw (hit, evict_from) (find_record-delete_any key node_id t.cache v e hit)
]
find_record-evict_from key node_id (f ∷ heap) t v e =
    let ih = find_record-evict_from key node_id heap t v e in
    elim (Option-cases (find_record f.key f.node_id t.cache)) [
      | inl miss ↦ rw (miss, evict_from) ih
      | inr (r, hit) ↦
          ground (arith, ih, find_record-delete_record key node_id f.key f.node_id t.cache v e)
    ]
