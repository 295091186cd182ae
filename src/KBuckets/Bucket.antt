-- ===== src/KBuckets/Bucket.antt =====
-- One bucket: popping the peer with an id, and what a valid bucket is.
use knarr.Prelude.{
  ℕ, ◌+◌, ◌≤◌, ◌≡◌, ◌≢◌, sym, inl, inr, Option, none, some, [], ◌∷◌, ◌++◌, arith, Text, text_eq,
  text_eq_iff, length, All, All-append, Bool-cases, Option-cases,
}
use Prim.Native.Nat.{bit_xor}
use mathlib.Core.Path.{subst}
use mathlib.Core.Option.{some-injective}
use knarr.Prelude.Hex.{from_hex}
use knarr.KBuckets.Defs.{Peer, Bucket, pop_peer, get_bucket_index}

-- The index of the bucket that an id belongs to in the table of the node `local`; none for an id
-- that is not hexadecimal, and for the node's own.
abbrev pub index_of : ℕ → Text → Option ℕ
index_of local node_id = elim (from_hex node_id) [
  | none ↦ none
  | some n ↦ get_bucket_index (bit_xor local n)
]

abbrev pub HasOtherId : Text → Peer → Type 0
HasOtherId node_id p = p.node_id ≢ node_id

abbrev pub IsUnique : Bucket → Type 0
IsUnique [] = Unit
IsUnique (p ∷ b) = All (HasOtherId p.node_id) b × IsUnique b

abbrev pub IsPlaced : ℕ → ℕ → Peer → Type 0
IsPlaced local i p = index_of local p.node_id ≡ some i

-- Bucket `i` of the node `local`: each peer belongs there, none is listed twice, at most `k`.
pub record IsValidBucket (local k i : ℕ) (b : Bucket) : Type 0 where
  pub placed : All (IsPlaced local i) b
  pub unique : IsUnique b
  pub within : length b ≤ k

pub pop_peer-none : (id : Text) (b : Bucket) → pop_peer id b ≡ none → All (HasOtherId id) b
unfolding pop_peer
pop_peer-none id [] e = tt
pop_peer-none id (p ∷ b) e = ground (arith, text_eq_iff p.node_id id, pop_peer-none id b)

-- What a pop leaves, by recursion on the bucket.
pub pop_peer-same :
    (id : Text) (b : Bucket) {r : Peer × Bucket} → pop_peer id b ≡ some r → r.0.node_id ≡ id
unfolding pop_peer
pop_peer-same id [] e = cc
pop_peer-same id (p ∷ b) e = elim (Option-cases (pop_peer id b)) [
  | inl miss ↦ ground (arith, text_eq_iff p.node_id id)
  | inr (r', hit) ↦ ground (arith, text_eq_iff p.node_id id, pop_peer-same id b {r = r'} hit)
]

pub pop_peer-length :
    (id : Text) (b : Bucket) {r : Peer × Bucket}
    → pop_peer id b ≡ some r
    → length r.1 + 1 ≡ length b
unfolding pop_peer
pop_peer-length id [] e = cc
pop_peer-length id (p ∷ b) e = elim (Option-cases (pop_peer id b)) [
  | inl miss ↦ ground arith
  | inr (r', hit) ↦ ground (arith, pop_peer-length id b {r = r'} hit)
]

pub pop_peer-All :
    (P : Peer → Type 0) (id : Text) (b : Bucket) {r : Peer × Bucket}
    → pop_peer id b ≡ some r
    → All P b
    → P r.0 × All P r.1
unfolding pop_peer
pop_peer-All P id [] e h = cc
pop_peer-All P id (p ∷ b) {r} e h = elim (Bool-cases (text_eq p.node_id id)) [
  | inl here ↦
      let f : some (p, b) ≡ some r = rw here at e in
      subst (λ r'. P r'.0 × All P r'.1) (some-injective _ _ f) h
  | inr there ↦ elim (Option-cases (pop_peer id b)) [
    | inl miss ↦ absurd (ground arith)
    | inr (r', hit) ↦
        let f : some (r'.0, p ∷ r'.1) ≡ some r = ground arith in
        let ih = pop_peer-All P id b {r = r'} hit h.1 in
        subst (λ x. P x.0 × All P x.1) (some-injective _ _ f) (ih.0, (h.0, ih.1))
  ]
]

pub pop_peer-IsUnique :
    (id : Text) (b : Bucket) {r : Peer × Bucket}
    → pop_peer id b ≡ some r
    → IsUnique b
    → All (HasOtherId id) r.1 × IsUnique r.1
unfolding pop_peer
pop_peer-IsUnique id [] e u = cc
pop_peer-IsUnique id (p ∷ b) {r} e u = elim (Bool-cases (text_eq p.node_id id)) [
  | inl here ↦
      let f : some (p, b) ≡ some r = rw here at e in
      let same : p.node_id ≡ id = (text_eq_iff p.node_id id).0 here in
      subst (λ x. All (HasOtherId id) x.1 × IsUnique x.1) (some-injective _ _ f)
        (rw same at u.0, u.1)
  | inr there ↦ elim (Option-cases (pop_peer id b)) [
    | inl miss ↦ absurd (ground arith)
    | inr (r', hit) ↦
        let f : some (r'.0, p ∷ r'.1) ≡ some r = ground arith in
        let ih = pop_peer-IsUnique id b {r = r'} hit u.1 in
        let other : p.node_id ≢ id = ground (arith, text_eq_iff p.node_id id) in
        subst (λ x. All (HasOtherId id) x.1 × IsUnique x.1) (some-injective _ _ f)
          ((other, ih.0), ((pop_peer-All (HasOtherId p.node_id) id b {r = r'} hit u.0).1, ih.1))
  ]
]

-- An id that no peer of a unique bucket has may be appended.
pub append-IsUnique :
    (b : Bucket) (p : Peer) → All (HasOtherId p.node_id) b → IsUnique b → IsUnique (b ++ p ∷ [])
append-IsUnique [] p h u = (tt, tt)
append-IsUnique (q ∷ b) p h u = (
  All-append (HasOtherId q.node_id) b (p ∷ []) u.0 (λ e. h.0 (sym e), tt),
  append-IsUnique b p h.1 u.1,
)
