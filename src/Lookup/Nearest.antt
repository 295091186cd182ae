-- ===== src/Lookup/Nearest.antt =====
-- What `find_nodes` answers.
use mathlib.Core.Option.{some-injective}
use knarr.Prelude.{
  map, ◌++◌, ℕ, ◌≡◌, refl, sym, ◌∙◌, true, false, Option, some, List, [], ◌∷◌, Text, arith, All,
  take, drop,
}
use knarr.Prelude.Int.{ℤ, pos, negsuc}
use knarr.Prelude.Sorting.{FirstOf, take-sort_by-FirstOf}
use knarr.Prelude.Dict.{Dict}
use knarr.KBuckets.{Found, Table, get_closest}
use knarr.Lookup.Integers.{int_16, xor_ℤ}
use knarr.Lookup.Defs.{
  Node, Offer, seed, id_of, targets, valid_hex_id, search_from, start, max_rounds, answer,
  find_nodes, nearest, nodes, before, Search,
}
use knarr.Lookup.Order.{before_total, before_trans}
use knarr.Lookup.Rounds.{IsFoundBy, rounds-first, rounds-IsFoundBy}
use knarr.Lookup.Growth.{HasAddress, HasValue, IsGood, IsMeasured, seed-IsGood, rounds-IsGood}

module _ (decimal : ℕ → Option ℕ) (local_id : Text) (alpha k : ℕ) (ask : Text → List Offer) where
  -- When every peer that is asked names peers with their addresses, `find_nodes` raises nothing for
  -- a target that is an id and seeds from the routing table whose ids are integers. Its answer is the
  -- k peers nearest to the target, in order, among all that its search has found: these are the
  -- seeds, and the peers that those it asked have named with a hexadecimal id other than the node's
  -- own, none twice, each with the distance of its id. The first that it asked are the alpha seeds
  -- nearest to the target, the node itself left out.
  pub find_nodes-nearest :
      ((id : Text) → All HasAddress (ask id))
      → (target_id : Text) (target : ℤ) (table : Table) (seeds : List Found)
      → valid_hex_id decimal target_id ≡ some target
      → get_closest target_id k table ≡ some seeds
      → All (HasValue decimal target) seeds
      → let said = answer decimal local_id alpha k ask in
        (closest rest : List Node) × (s : Search (Unit {0})) × (asked more : List Text)
        × (search_from decimal local_id alpha k said true target seeds ≡ some s)
        × (find_nodes decimal local_id alpha k ask target_id table ≡ some closest)
        × FirstOf before k (nodes s.found) closest rest
        × IsGood decimal target s.found
        × (s.queried ≡ local_id ∷ asked)
        × IsFoundBy decimal local_id target alpha k said seeds asked s.found
        × ((seeded : Dict Node) × (seed decimal target seeds [] ≡ some seeded)
            × (asked ≡ map id_of (targets alpha seeded (local_id ∷ [])) ++ more))
  unfolding find_nodes search_from start nearest
  find_nodes-nearest addressed target_id target table seeds valid local values =
      let empty : IsGood decimal target [] = record { keys = tt; measured = tt } in
      let said = answer decimal local_id alpha k ask in
      let (found, e, g, from_none, seeded) = seed-IsGood decimal target seeds [] values empty in
      let (s, f, g', keeps) =
        rounds-IsGood decimal target local_id alpha k said addressed (λ id. tt) true max_rounds
          (start local_id found) g in
      let (asked, queried, exact) =
        rounds-IsFoundBy decimal local_id target alpha k said true max_rounds seeds found
          (start local_id found) s e refl f in
      let (more, first) =
        rounds-first decimal local_id target alpha k said true 19 (start local_id found) s f in
      let begins : local_id ∷ asked
          ≡ local_id ∷ (map id_of (targets alpha found (local_id ∷ [])) ++ more) =
        sym queried ∙ first in
      (
        take k (nearest s.found),
        drop k (nearest s.found),
        s,
        asked,
        more,
        rw (e, search_from) f,
        rw (valid, local, e, f, find_nodes, search_from) refl,
        take-sort_by-FirstOf before before_total before_trans k (nodes s.found),
        g',
        queried,
        exact,
        (found, e, cc),
      )

measured-distance :
    (decimal : ℕ → Option ℕ) (target : ℤ) (n : Node) (value : ℤ)
    → IsMeasured decimal target (n.node_id, n)
    → int_16 decimal n.node_id ≡ some value
    → n.distance ≡ xor_ℤ target value
measured-distance decimal target n value (e, (v, f, d)) g = rw (some-injective _ _ (sym f ∙ g)) at d

-- For a target without a sign, an entry of the search whose id has a value below zero comes before
-- every entry whose id has a value of zero or more.
pub negative_id-nearest :
    (decimal : ℕ → Option ℕ) (target : ℕ) (m n : Node) (a b : ℕ)
    → IsMeasured decimal (pos target) (m.node_id, m)
    → IsMeasured decimal (pos target) (n.node_id, n)
    → int_16 decimal m.node_id ≡ some (negsuc a)
    → int_16 decimal n.node_id ≡ some (pos b)
    → (before m n ≡ true) × (before n m ≡ false)
unfolding before xor_ℤ
negative_id-nearest decimal target m n a b h k e f =
    let d = measured-distance decimal (pos target) m (negsuc a) h e in
    let c = measured-distance decimal (pos target) n (pos b) k f in
    (rw (d, c) (ground arith), rw (d, c) (ground arith))
