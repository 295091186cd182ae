-- ===== src/KBuckets/Invariant.antt =====
-- The invariant of the table, kept by every method.
use knarr.Prelude.{
  ℕ, ◌+◌, ◌≤◌, ◌≡◌, ◌≢◌, refl, sym, ◌∙◌, inl, inr, some, [], ◌∷◌, ◌++◌, arith, Text, text_eq, ltb,
  leb, length, length-append, length-set, get_elem?, set, get_elem?-set_inv, get_elem?-set_ne, ◌==◌,
  All, All-append, Bool-cases, Option-cases,
}
use Prim.Native.Nat.{bit_xor}
use mathlib.Core.Path.{subst₂}
use knarr.Prelude.Hex.{from_hex}
use knarr.Prelude.Dict.{Dict, lookup, insert, erase}
use knarr.KBuckets.Defs.{
  Peer, index_error, Bucket, Table, Candidate, Result, ok, raise, table_of, ◌>>=◌, pop_peer,
  get_distance, get_bucket_index, set_bucket, add_to_bucket, at_bucket, add_peer,
  delete_peer_from_db, remove_from_bucket, remove_peer, resolve_evict_oldest, touch_in_bucket,
  resolve_keep_oldest, bucket_count, count_ip_in_bucket, max_same_ip_per_bucket,
}
use knarr.KBuckets.Bucket.{
  index_of, HasOtherId, IsPlaced, IsUnique, IsValidBucket, pop_peer-none, pop_peer-same,
  pop_peer-length, pop_peer-All, pop_peer-IsUnique, append-IsUnique,
}

pub record IsValid (t : Table) : Type 0 where
  pub count : length t.buckets ≡ bucket_count
  pub valid :
      (i : ℕ) (b : Bucket) → get_elem? t.buckets i ≡ some b → IsValidBucket t.local_id_int t.k i b

-- An operation on the bucket of an id keeps the invariant if it does so at that bucket.
at_bucket-IsValid :
    (id : Text) (f : ℕ → Bucket → Table → Result) (t : Table)
    → IsValid t
    → ((i : ℕ) (b : Bucket)
        → index_of t.local_id_int id ≡ some i
        → get_elem? t.buckets i ≡ some b
        → IsValid (table_of (f i b t)))
    → IsValid (table_of (at_bucket id f t))
unfolding at_bucket get_distance
at_bucket-IsValid id f t v keeps = elim (Option-cases (from_hex id)) [
  | inl bad ↦ rw (bad, at_bucket) v
  | inr (n, e) ↦ elim (Option-cases (get_bucket_index (bit_xor t.local_id_int n))) [
    | inl own ↦ rw (e, own, at_bucket) v
    | inr (i, e') ↦ elim (Option-cases (get_elem? t.buckets i)) [
      | inl outside ↦ rw (e, e', outside, at_bucket) v
      | inr (b, e'') ↦ rw (e, e', e'', at_bucket) (keeps i b (rw (e, index_of) e') e'')
    ]
  ]
]

set_bucket-IsValid :
    (i : ℕ) (b : Bucket) (t : Table)
    → IsValid t
    → IsValidBucket t.local_id_int t.k i b
    → IsValid (set_bucket i b t)
unfolding set_bucket
set_bucket-IsValid i b t v vb = record {
  count = length-set t.buckets i b ∙ v.count;
  valid = λ j c e. elim (Bool-cases (i == j)) [
    | inl same ↦
        let i_eq : i ≡ j = ground arith in
        let at_i : get_elem? (set t.buckets i b) i ≡ some c = rw (← i_eq) at e in
        let b_eq : b ≡ c = get_elem?-set_inv t.buckets i b c at_i in
        subst₂ (λ j c. IsValidBucket t.local_id_int t.k j c) i_eq b_eq vb
    | inr other ↦
        let ne : i ≢ j = ground arith in v.valid j c (sym (get_elem?-set_ne t.buckets i j b ne) ∙ e)
  ];
}

-- The bucket after the new peer has taken the tail.
fresh-IsValidBucket :
    (local k i : ℕ) (b : Bucket) (p : Peer)
    → All (IsPlaced local i) b
    → IsUnique b
    → length b + 1 ≤ k
    → IsPlaced local i p
    → All (HasOtherId p.node_id) b
    → IsValidBucket local k i (b ++ p ∷ [])
fresh-IsValidBucket local k i b p placed unique room here other = record {
  placed = All-append (IsPlaced local i) b (p ∷ []) placed (here, tt);
  unique = append-IsUnique b p other unique;
  within = rw (length-append b (p ∷ [])) room;
}

-- A peer that was popped may come back at the tail, renewed.
popped-IsValidBucket :
    (local k i : ℕ) (id : Text) (b : Bucket) (r : Peer × Bucket)
    → pop_peer id b ≡ some r
    → IsValidBucket local k i b
    → IsValidBucket local k i r.1
      × ((p : Peer) → p.node_id ≡ id → IsValidBucket local k i (r.1 ++ p ∷ []))
popped-IsValidBucket local k i id b r e v =
    let placed = pop_peer-All (IsPlaced local i) id b e v.placed in
    let unique = pop_peer-IsUnique id b e v.unique in
    let shorter = pop_peer-length id b e in
    let same = pop_peer-same id b e in
    (
      record { placed = placed.1; unique = unique.1; within = omega (arith, shorter, v.within) },
      λ p p_id.
          fresh-IsValidBucket local k i r.1 p placed.1 unique.1 (omega (arith, shorter, v.within))
            (rw (p_id ∙ sym same) placed.0) (rw p_id unique.0),
    )

add_to_bucket-IsValid :
    (now : ℕ) (id host : Text) (port : ℕ) (t : Table)
    → IsValid t
    → (i : ℕ) (b : Bucket) → index_of t.local_id_int id ≡ some i
    → get_elem? t.buckets i ≡ some b
    → IsValid (table_of (add_to_bucket now id host port i b t))
unfolding add_to_bucket
add_to_bucket-IsValid now id host port t v i b here e = elim (Option-cases (pop_peer id b)) [
  | inr (r, hit) ↦
      rw (hit, add_to_bucket)
        (set_bucket-IsValid i _ t v
          ((popped-IsValidBucket t.local_id_int t.k i id b r hit (v.valid i b e)).1 _ refl))
  | inl miss ↦ elim (Bool-cases (leb max_same_ip_per_bucket (count_ip_in_bucket b host))) [
    | inl crowded ↦ rw (miss, crowded, add_to_bucket) v
    | inr free ↦ elim (Bool-cases (ltb (length b) t.k)) [
      | inl room ↦
          let vb = v.valid i b e in
          rw (miss, free, room, add_to_bucket)
            (set_bucket-IsValid i _ t v (
              fresh-IsValidBucket t.local_id_int t.k i b _ vb.placed vb.unique (ground arith) here
                (pop_peer-none id b miss)))
      | inr full ↦ rw (miss, free, full, add_to_bucket) (full_case b)
    ]
  ]
]
  where
    full_case :
        (c : Bucket)
        → IsValid (
            table_of (elim c [
              | [] ↦ raise index_error t
              | oldest ∷ _ ↦ ok (record t {
                pending_evictions =
                    insert oldest.node_id
                      (record { candidate_id = id; host = host; port = port; added_at = now })
                      t.pending_evictions;
              })
            ]))
    full_case [] = v
    full_case (p ∷ c) = record { count = v.count; valid = v.valid }

-- Adding a peer keeps the invariant, also where it raises.
pub add_peer-IsValid :
    (now : ℕ) (id host : Text) (port : ℕ) (t : Table)
    → IsValid t
    → IsValid (table_of (add_peer now id host port t))
unfolding add_peer
add_peer-IsValid now id host port t v = elim (Bool-cases (text_eq id t.local_id)) [
  | inl own ↦ rw (own, add_peer) v
  | inr other ↦
      rw (other, add_peer)
        (at_bucket-IsValid id (add_to_bucket now id host port) t v
          (add_to_bucket-IsValid now id host port t v))
]

set_pending-IsValid :
    (d : Dict Candidate) (t : Table) → IsValid t → IsValid (record t { pending_evictions = d })
set_pending-IsValid d t v = record { count = v.count; valid = v.valid }

delete_peer_from_db-IsValid :
    (id : Text) (t : Table) → IsValid t → IsValid (delete_peer_from_db id t)
unfolding delete_peer_from_db
delete_peer_from_db-IsValid id t v = record { count = v.count; valid = v.valid }

pub remove_peer-IsValid :
    (id : Text) (t : Table) → IsValid t → IsValid (table_of (remove_peer id t))
unfolding remove_peer
remove_peer-IsValid id t v = at_bucket-IsValid id (remove_from_bucket id) t v at
  where
    at :
        (i : ℕ) (b : Bucket)
        → index_of t.local_id_int id ≡ some i
        → get_elem? t.buckets i ≡ some b
        → IsValid (table_of (remove_from_bucket id i b t))
    at i b here e =
        unfold remove_from_bucket in
        elim (Option-cases (pop_peer id b)) [
          | inl miss ↦ rw (miss, remove_from_bucket) v
          | inr (r, hit) ↦
              rw (hit, remove_from_bucket)
                (set_pending-IsValid _ _ (
                  delete_peer_from_db-IsValid id _ (
                    set_bucket-IsValid i r.1 t v
                      (popped-IsValidBucket t.local_id_int t.k i id b r hit (v.valid i b e)).0)))
        ]

>>=-IsValid :
    (m : Result) (f : Table → Result)
    → IsValid (table_of m)
    → ((t : Table) → IsValid t → IsValid (table_of (f t)))
    → IsValid (table_of (m >>= f))
>>=-IsValid (ok t) f v keeps = keeps t v
>>=-IsValid (raise e t) f v keeps = v

-- Evicting the oldest peer for its candidate keeps the invariant.
pub resolve_evict_oldest-IsValid :
    (now : ℕ) (oldest : Text) (t : Table)
    → IsValid t
    → IsValid (table_of (resolve_evict_oldest now oldest t))
unfolding resolve_evict_oldest
resolve_evict_oldest-IsValid now oldest t v =
    elim (Option-cases (lookup oldest t.pending_evictions)) [
      | inl idle ↦ rw (idle, resolve_evict_oldest) v
      | inr (c, e) ↦
          rw (e, resolve_evict_oldest)
            (>>=-IsValid
              (remove_peer oldest
                (record t { pending_evictions = erase oldest t.pending_evictions }))
              (add_peer now c.candidate_id c.host c.port)
              (remove_peer-IsValid oldest _ (set_pending-IsValid _ t v))
              (λ t' v'. add_peer-IsValid now c.candidate_id c.host c.port t' v'))
    ]

-- Keeping the oldest peer keeps the invariant.
pub resolve_keep_oldest-IsValid :
    (now : ℕ) (oldest : Text) (t : Table)
    → IsValid t
    → IsValid (table_of (resolve_keep_oldest now oldest t))
unfolding resolve_keep_oldest
resolve_keep_oldest-IsValid now oldest t v =
    elim (Option-cases (lookup oldest t.pending_evictions)) [
      | inl idle ↦ rw (idle, resolve_keep_oldest) v
      | inr (c, e) ↦
          let t' : Table = record t { pending_evictions = erase oldest t.pending_evictions } in
          let v' : IsValid t' = set_pending-IsValid _ t v in
          rw (e, resolve_keep_oldest)
            (at_bucket-IsValid oldest (touch_in_bucket now oldest) t' v' (touched t' v'))
    ]
  where
    touched :
        (t : Table)
        → IsValid t
        → (i : ℕ) (b : Bucket) → index_of t.local_id_int oldest ≡ some i
        → get_elem? t.buckets i ≡ some b
        → IsValid (table_of (touch_in_bucket now oldest i b t))
    touched t v i b here e =
        unfold touch_in_bucket in
        elim (Option-cases (pop_peer oldest b)) [
          | inl miss ↦ rw (miss, touch_in_bucket) v
          | inr (r, hit) ↦
              rw (hit, touch_in_bucket)
                (set_bucket-IsValid i _ t v (
                  (popped-IsValidBucket t.local_id_int t.k i oldest b r hit (v.valid i b e)).1 _
                    refl))
        ]
