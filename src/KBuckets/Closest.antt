-- ===== src/KBuckets/Closest.antt =====
-- `get_closest`: the answer is sorted and nearest, and on a valid table it is always given.
use knarr.Prelude.{
  ℕ, zero, suc, ◌≤◌, ◌≡◌, refl, inl, inr, Option, none, some, List, [], ◌∷◌, ◌++◌, map, arith, Text,
  leb, length, get_elem?, take, drop, All, All-append, Bool-cases, Option-cases, length-take, min,
}
use Prim.Native.Nat.{bit_xor}
use mathlib.Core.List.{Perm}
use mathlib.Core.List.Perm
use knarr.Prelude.Hex.{from_hex}
use knarr.KBuckets.Defs.{
  Peer, Bucket, Table, Found, measure, all_peers, insert_sorted, sort, get_closest,
}
use knarr.KBuckets.Bucket.{index_of, IsPlaced}
use knarr.KBuckets.Invariant.{IsValid}

abbrev pub NotFarther : Found → Found → Type 0
NotFarther x y = x.distance ≤ y.distance

abbrev pub IsSorted : List Found → Type 0
IsSorted [] = Unit
IsSorted (x ∷ xs) = All (NotFarther x) xs × IsSorted xs

-- The answer's entry for a peer.
abbrev pub value_of : Option ℕ → ℕ
value_of none = 0
value_of (some n) = n

pub found_of : ℕ → Peer → Found
found_of target p = record {
  node_id = p.node_id;
  host = p.host;
  port = p.port;
  distance = bit_xor target (value_of (from_hex p.node_id));
}

All-NotFarther_trans :
    (x y : Found) (zs : List Found)
    → x.distance ≤ y.distance
    → All (NotFarther y) zs
    → All (NotFarther x) zs
All-NotFarther_trans x y [] le h = tt
All-NotFarther_trans x y (z ∷ zs) le h = (omega (arith, h.0), All-NotFarther_trans x y zs le h.1)

All-insert_sorted :
    (P : Found → Type 0) (x : Found) (ys : List Found) → P x → All P ys → All P (insert_sorted x ys)
unfolding insert_sorted
All-insert_sorted P x [] p h = (p, tt)
All-insert_sorted P x (y ∷ ys) p h = ground (arith, All-insert_sorted P x ys p h.1)

insert_sorted-IsSorted : (x : Found) (ys : List Found) → IsSorted ys → IsSorted (insert_sorted x ys)
unfolding insert_sorted
insert_sorted-IsSorted x [] h = (tt, tt)
insert_sorted-IsSorted x (y ∷ ys) h = elim (Bool-cases (leb x.distance y.distance)) [
  | inl before ↦ rw before ((ground arith, All-NotFarther_trans x y ys (ground arith) h.0), h)
  | inr after ↦
      rw after
        (All-insert_sorted (NotFarther y) x ys (ground arith) h.0, insert_sorted-IsSorted x ys h.1)
]

pub sort-IsSorted : (xs : List Found) → IsSorted (sort xs)
unfolding sort
sort-IsSorted [] = tt
sort-IsSorted (x ∷ xs) = insert_sorted-IsSorted x (sort xs) (sort-IsSorted xs)

insert_sorted-perm : (x : Found) (ys : List Found) → Perm (insert_sorted x ys) (x ∷ ys)
unfolding insert_sorted
insert_sorted-perm x [] = Perm.refl _
insert_sorted-perm x (y ∷ ys) = elim (Bool-cases (leb x.distance y.distance)) [
  | inl before ↦ rw before (Perm.refl _)
  | inr after ↦ rw after (Perm.trans (Perm.cons y (insert_sorted-perm x ys)) (Perm.swap x y ys))
]

pub sort-perm : (xs : List Found) → Perm (sort xs) xs
unfolding sort
sort-perm [] = Perm.refl _
sort-perm (x ∷ xs) = Perm.trans (insert_sorted-perm x (sort xs)) (Perm.cons x (sort-perm xs))

take-drop : (n : ℕ) (xs : List Found) → take n xs ++ drop n xs ≡ xs
take-drop zero xs = refl
take-drop (suc n) [] = refl
take-drop (suc n) (x ∷ xs) = rw (take-drop n xs)

All-take-drop :
    (P : Found → Type 0) (n : ℕ) (xs : List Found)
    → All P xs
    → All P (take n xs) × All P (drop n xs)
All-take-drop P zero xs h = (tt, h)
All-take-drop P (suc n) [] h = (tt, tt)
All-take-drop P (suc n) (x ∷ xs) h = let ih = All-take-drop P n xs h.1 in ((h.0, ih.0), ih.1)

take-IsSorted : (n : ℕ) (xs : List Found) → IsSorted xs → IsSorted (take n xs)
take-IsSorted zero xs h = tt
take-IsSorted (suc n) [] h = tt
take-IsSorted (suc n) (x ∷ xs) h =
    ((All-take-drop (NotFarther x) n xs h.0).0, take-IsSorted n xs h.1)

-- Whatever is cut off is no nearer than anything that stays.
abbrev pub NoNearer : List Found → Found → Type 0
NoNearer kept r = All (λ f. f.distance ≤ r.distance) kept

All-NoNearer_cons :
    (x : Found) (kept rest : List Found)
    → All (NotFarther x) rest
    → All (NoNearer kept) rest
    → All (NoNearer (x ∷ kept)) rest
All-NoNearer_cons x kept [] h k = tt
All-NoNearer_cons x kept (r ∷ rest) h k = ((h.0, k.0), All-NoNearer_cons x kept rest h.1 k.1)

All-NoNearer_nil : (rest : List Found) → All (NoNearer []) rest
All-NoNearer_nil [] = tt
All-NoNearer_nil (r ∷ rest) = (tt, All-NoNearer_nil rest)

take-NoNearer : (n : ℕ) (xs : List Found) → IsSorted xs → All (NoNearer (take n xs)) (drop n xs)
take-NoNearer zero xs h = All-NoNearer_nil xs
take-NoNearer (suc n) [] h = tt
take-NoNearer (suc n) (x ∷ xs) h =
    All-NoNearer_cons x (take n xs) (drop n xs) (All-take-drop (NotFarther x) n xs h.0).1
      (take-NoNearer n xs h.1)

abbrev HasValue : Peer → Type 0
HasValue p = (n : ℕ) × (from_hex p.node_id ≡ some n)

measure_lem :
    (target : ℕ) (ps : Bucket)
    → All HasValue ps
    → measure target ps ≡ some (map (found_of target) ps)
unfolding measure found_of
measure_lem target [] h = refl
measure_lem target (p ∷ ps) h = rw (h.0.1, measure, measure_lem target ps h.1)

All-all_peers :
    (P : Peer → Type 0) (bs : List Bucket)
    → ((i : ℕ) (b : Bucket) → get_elem? bs i ≡ some b → All P b)
    → All P (all_peers bs)
unfolding all_peers
All-all_peers P [] h = tt
All-all_peers P (b ∷ bs) h =
    All-append P b (all_peers bs) (h zero b refl) (All-all_peers P bs (λ i c e. h (suc i) c e))

HasValue-IsPlaced : (local i : ℕ) (ps : Bucket) → All (IsPlaced local i) ps → All HasValue ps
HasValue-IsPlaced local i [] h = tt
HasValue-IsPlaced local i (p ∷ ps) h = elim (Option-cases (from_hex p.node_id)) [
  | inl bad ↦ absurd (none_placed bad h.0)
  | inr value ↦ (value, HasValue-IsPlaced local i ps h.1)
]
  where
    none_placed : from_hex p.node_id ≡ none → index_of local p.node_id ≡ some i → ⊥
    none_placed bad e = ground arith

-- For a valid table and a target of 64 hexadecimal digits `get_closest` raises nothing. Together
-- with some rest, its answer is a rearrangement of the entries of all the peers in the table; it
-- is sorted by the distance, no peer of the rest is nearer than one in the answer, and it has
-- `count` entries, or all of them if there are fewer.
pub get_closest-nearest :
    (target_id : Text) (count target : ℕ) (t : Table)
    → IsValid t
    → length target_id ≡ 64
    → from_hex target_id ≡ some target
    → (answer rest : List Found) × (get_closest target_id count t ≡ some answer)
      × Perm (answer ++ rest) (map (found_of target) (all_peers t.buckets))
      × IsSorted answer
      × All (NoNearer answer) rest
      × (length answer ≡ min count (length (answer ++ rest)))
unfolding get_closest
get_closest-nearest target_id count target t v len e =
    let values =
      All-all_peers HasValue t.buckets
        (λ i b at_i. HasValue-IsPlaced t.local_id_int i b (v.valid i b at_i).placed) in
    let found = map (found_of target) (all_peers t.buckets) in
    let sorted = sort-IsSorted found in
    (
      take count (sort found),
      drop count (sort found),
      rw (len, e, measure_lem target (all_peers t.buckets) values),
      rw (take-drop count (sort found)) (sort-perm found),
      take-IsSorted count (sort found) sorted,
      take-NoNearer count (sort found) sorted,
      rw (take-drop count (sort found)) (length-take count (sort found)),
    )
