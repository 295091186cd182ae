-- ===== src/Lookup/Asked.antt =====
-- Which peers a search asks: none twice, never the node itself, and a bounded number.
use knarr.Prelude.{
  ℕ, zero, suc, ◌*◌, ◌≤◌, ◌≡◌, refl, sym, ap, ◌∙◌, Bool, true, false, not, ◌&&◌, Option, some, List,
  [], ◌∷◌, ◌++◌, map, Text, text_eq, text_eq_iff, arith, length, length-append, All, All-take,
  if◌then◌else◌, keep, List-cases, Bool-cases, inl, inr, length-take-le, append_assoc, append-nil,
}
use knarr.Prelude.Int.{ℤ}
use knarr.Prelude.Dict.{Dict}
use knarr.KBuckets.{Found}
use knarr.Lookup.Growth.{HasAddress, HasId, HasValue, IsGood, seed-IsGood, collect-IsGood}
use knarr.Lookup.Defs.{
  Node, Answer, Search, member, targets, nodes, nearest, id_of, rounds, start, after_round,
  texts_eq, search_from, max_rounds,
}
use knarr.Lookup.Distinct.{
  IsOther, AreDistinct, IsOther-sym, sort_by-AreDistinct, keep-AreDistinct, take-AreDistinct,
  nodes-AreDistinct,
}

abbrev pub NoRepeats : List Text → Type 0
NoRepeats [] = Unit
NoRepeats (t ∷ ts) = (member t ts ≡ false) × NoRepeats ts

keep-All : (p : Node → Bool) (xs : List Node) → All (λ n. p n ≡ true) (keep p xs)
keep-All p [] = tt
keep-All p (x ∷ xs) = elim (Bool-cases (p x)) [
  | inl stays ↦ rw stays (stays, keep-All p xs)
  | inr goes ↦ rw goes (keep-All p xs)
]

-- the targets of a round differ from each other and from the peers that were asked
targets-AreDistinct :
    (decimal : ℕ → Option ℕ) (target : ℤ) (alpha : ℕ) (found : Dict Node) (queried : List Text)
    → IsGood decimal target found
    → AreDistinct (targets alpha found queried)
unfolding targets nearest
targets-AreDistinct decimal target alpha found queried g = take-AreDistinct alpha _ (
    keep-AreDistinct (λ n. not (member n.node_id queried)) _
      (sort_by-AreDistinct (nodes found)
        (nodes-AreDistinct decimal target found g.keys g.measured)))

targets-All :
    (alpha : ℕ) (found : Dict Node) (queried : List Text)
    → All (λ n. not (member n.node_id queried) ≡ true) (targets alpha found queried)
unfolding targets
targets-All alpha found queried =
    All-take (λ n. not (member n.node_id queried) ≡ true) alpha _
      (keep-All (λ n. not (member n.node_id queried)) (nearest found))

member-append :
    (t : Text) (xs ys : List Text)
    → member t (xs ++ ys) ≡ (if member t xs then true else member t ys)
unfolding member
member-append t [] ys = refl
member-append t (x ∷ xs) ys = ground (arith, member-append t xs ys)

member-map :
    (t : Text) (ns : List Node)
    → All (λ n. text_eq n.node_id t ≡ false) ns
    → member t (map id_of ns) ≡ false
unfolding member id_of
member-map t [] h = refl
member-map t (n ∷ ns) h = rw h.0 (member-map t ns h.1)

-- peers that are not among the first texts, and so not the first of them
first_not_asked :
    (q : Text) (qs : List Text) (ns : List Node)
    → All (λ n. not (member n.node_id (q ∷ qs)) ≡ true) ns
    → All (λ n. text_eq n.node_id q ≡ false) ns × All (λ n. not (member n.node_id qs) ≡ true) ns
unfolding member
first_not_asked q qs [] h = (tt, tt)
first_not_asked q qs (n ∷ ns) h =
    let ih = first_not_asked q qs ns h.1 in
    (
      (ground (arith, h.0, text_eq_iff n.node_id q, text_eq_iff q n.node_id), ih.0),
      (ground (arith, h.0), ih.1),
    )

ids-NoRepeats : (ns : List Node) → AreDistinct ns → NoRepeats (map id_of ns)
unfolding id_of
ids-NoRepeats [] d = tt
ids-NoRepeats (n ∷ ns) d = (member-map n.node_id ns (swapped n ns d.0), ids-NoRepeats ns d.1)
  where
    swapped :
        (m : Node) (ks : List Node)
        → All (IsOther m) ks
        → All (λ k. text_eq k.node_id m.node_id ≡ false) ks
    swapped m [] h = tt
    swapped m (k ∷ ks) h = (IsOther-sym m k h.0, swapped m ks h.1)

append-NoRepeats :
    (qs : List Text) (ns : List Node)
    → NoRepeats qs
    → AreDistinct ns
    → All (λ n. not (member n.node_id qs) ≡ true) ns
    → NoRepeats (qs ++ map id_of ns)
append-NoRepeats [] ns r d h = ids-NoRepeats ns d
append-NoRepeats (q ∷ qs) ns r d h =
    let (other, later) = first_not_asked q qs ns h in
    (
      ground (arith, member-append q qs (map id_of ns), member-map q ns other, r),
      append-NoRepeats qs ns r.1 d later,
    )

length-map-ids : (ns : List Node) → length (map id_of ns) ≡ length ns
length-map-ids [] = refl
length-map-ids (n ∷ ns) = ap suc (length-map-ids ns)

targets-le :
    (alpha : ℕ) (found : Dict Node) (queried : List Text)
    → length (targets alpha found queried) ≤ alpha
unfolding targets
targets-le alpha found queried =
    length-take-le alpha (keep (λ n. not (member n.node_id queried)) (nearest found))

module _ {A : Type 0} (decimal : ℕ → Option ℕ) (target : ℤ) (local_id : Text) (alpha k : ℕ)
    (ask : Text → Answer A) (addressed : (id : Text) → All HasAddress (ask id).peers)
    (named : (id : Text) → All HasId (ask id).providers) where
  rounds-asked :
      (check : Bool) (left : ℕ) (s : Search A)
      → IsGood decimal target s.found
      → NoRepeats s.queried
      → (s' : Search A) × (asked : List Text) × (rounds decimal local_id alpha k ask check target
            left s
          ≡ some s')
        × (s'.queried ≡ s.queried ++ asked)
        × NoRepeats s'.queried
        × (length asked ≤ left * alpha)
  unfolding rounds
  rounds-asked check zero s g r = (s, [], refl, sym (append-nil s.queried), r, omega arith)
  rounds-asked check (suc left) s g r = elim (List-cases (targets alpha s.found s.queried)) [
    | inl done ↦ (s, [], rw (done, rounds) refl, sym (append-nil s.queried), r, omega arith)
    | inr (n, ns, some_left) ↦
        let (found, (providers, e), g', keeps) =
          collect-IsGood decimal target local_id alpha k ask addressed named (n ∷ ns) s.found
            s.providers g in
        let s' = after_round k (n ∷ ns) found providers s in
        let ids = map id_of (n ∷ ns) in
        let fresh : AreDistinct (n ∷ ns) =
          rw some_left at (targets-AreDistinct decimal target alpha s.found s.queried g) in
        let unasked : All (λ m. not (member m.node_id s.queried) ≡ true) (n ∷ ns) =
          rw some_left at (targets-All alpha s.found s.queried) in
        let few : length (n ∷ ns) ≤ alpha = rw some_left at (targets-le alpha s.found s.queried) in
        let r' = append-NoRepeats s.queried (n ∷ ns) r fresh unasked in
        let stays = check && texts_eq s'.last_closest_ids s.last_closest_ids in
        elim (Bool-cases stays) [
          | inl same ↦ (
            s',
            ids,
            rw (some_left, e, same, rounds) refl,
            refl,
            r',
            grind (arith, length-map-ids (n ∷ ns)),
          )
          | inr other ↦
              let (s2, asked, e2, q2, r2, b2) = rounds-asked check left s' g' r' in
              (
                s2,
                ids ++ asked,
                rw (some_left, e, other, rounds) e2,
                q2 ∙ append_assoc s.queried ids asked,
                r2,
                grind (arith, length-append ids asked, length-map-ids (n ∷ ns)),
              )
        ]
  ]

  -- When every peer that is asked names peers with their addresses and providers with their ids, a
  -- search from seeds whose ids are integers ends and raises nothing. It has asked no peer twice and
  -- never the node itself, and no more than twenty times alpha peers.
  pub search_from-asked :
      (check : Bool) (seeds : List Found)
      → All (HasValue decimal target) seeds
      → (s : Search A) × (asked : List Text) × (search_from decimal local_id alpha k ask check
            target seeds
          ≡ some s)
        × (s.queried ≡ local_id ∷ asked)
        × NoRepeats s.queried
        × (length asked ≤ 20 * alpha)
  unfolding search_from start
  search_from-asked check seeds values =
      let empty : IsGood decimal target [] = record { keys = tt; measured = tt } in
      let (found, e, g, keeps, seeded) = seed-IsGood decimal target seeds [] values empty in
      let (s, asked, f, q, r, b) =
        rounds-asked check max_rounds (start local_id found) g (unfold member in (refl, tt)) in
      (s, asked, rw (e, search_from) f, q, r, b)
