-- ===== src/Lookup/Distinct.antt =====
-- The peers of a search differ from each other.
use knarr.Prelude.{
  ℕ, zero, suc, ◌≡◌, Bool, false, Option, none, List, [], ◌∷◌, text_eq, text_eq_iff, arith, All,
  All-keep, All-take, take, keep, Bool-cases, inl, inr,
}
use knarr.Prelude.Int.{ℤ}
use knarr.Prelude.Dict.{Dict, lookup, IsDict}
use knarr.Prelude.Sorting
use knarr.Prelude.Sorting.{sort_by, insert_by, All-insert_by}
use knarr.Lookup.Growth.{IsMeasured}
use knarr.Lookup.Defs.{Node, nodes, before}

abbrev pub IsOther : Node → Node → Type 0
IsOther m n = text_eq m.node_id n.node_id ≡ false

abbrev pub AreDistinct : List Node → Type 0
AreDistinct [] = Unit
AreDistinct (n ∷ ns) = All (IsOther n) ns × AreDistinct ns

pub IsOther-sym : (m n : Node) → IsOther m n → IsOther n m
IsOther-sym m n h = ground (arith, text_eq_iff m.node_id n.node_id, text_eq_iff n.node_id m.node_id)

insert_by-AreDistinct :
    (x : Node) (ys : List Node)
    → All (IsOther x) ys
    → AreDistinct ys
    → AreDistinct (insert_by before x ys)
unfolding insert_by
insert_by-AreDistinct x [] h d = (tt, tt)
insert_by-AreDistinct x (y ∷ ys) h d = elim (Bool-cases (before x y)) [
  | inl first ↦ rw first (h, d)
  | inr later ↦ rw later (
    All-insert_by before (IsOther y) x ys (IsOther-sym x y h.0) d.0,
    insert_by-AreDistinct x ys h.1 d.1,
  )
]

All-sort_by : (P : Node → Type 0) (xs : List Node) → All P xs → All P (sort_by before xs)
All-sort_by P xs h = Sorting.All-sort_by before P xs h

pub sort_by-AreDistinct : (xs : List Node) → AreDistinct xs → AreDistinct (sort_by before xs)
unfolding sort_by
sort_by-AreDistinct [] d = tt
sort_by-AreDistinct (x ∷ xs) d =
    insert_by-AreDistinct x (sort_by before xs) (unfold sort_by in All-sort_by (IsOther x) xs d.0)
      (sort_by-AreDistinct xs d.1)

pub keep-AreDistinct : (p : Node → Bool) (xs : List Node) → AreDistinct xs → AreDistinct (keep p xs)
keep-AreDistinct p [] d = tt
keep-AreDistinct p (x ∷ xs) d = elim (Bool-cases (p x)) [
  | inl stays ↦ rw stays (All-keep (IsOther x) p xs d.0, keep-AreDistinct p xs d.1)
  | inr goes ↦ rw goes (keep-AreDistinct p xs d.1)
]

pub take-AreDistinct : (n : ℕ) (xs : List Node) → AreDistinct xs → AreDistinct (take n xs)
take-AreDistinct zero xs d = tt
take-AreDistinct (suc n) [] d = tt
take-AreDistinct (suc n) (x ∷ xs) d = (All-take (IsOther x) n xs d.0, take-AreDistinct n xs d.1)

nodes-IsOther :
    (decimal : ℕ → Option ℕ) (target : ℤ) (m : Node) (found : Dict Node)
    → lookup m.node_id found ≡ none
    → All (IsMeasured decimal target) found
    → All (IsOther m) (nodes found)
unfolding nodes
nodes-IsOther decimal target m [] e h = tt
nodes-IsOther decimal target m ((j, n) ∷ found) e (h, hs) = (
  ground (arith, text_eq_iff m.node_id n.node_id, text_eq_iff j m.node_id, h),
  nodes-IsOther decimal target m found (ground arith) hs,
)

pub nodes-AreDistinct :
    (decimal : ℕ → Option ℕ) (target : ℤ) (found : Dict Node)
    → IsDict found
    → All (IsMeasured decimal target) found
    → AreDistinct (nodes found)
unfolding nodes
nodes-AreDistinct decimal target [] d h = tt
nodes-AreDistinct decimal target ((j, n) ∷ found) d (h, hs) = (
  nodes-IsOther decimal target n found (rw h.0 d.0) hs,
  nodes-AreDistinct decimal target found d.1 hs,
)
