-- ===== src/Lookup/Union.antt =====
-- Which peers a search has found: the seeds, and what the peers that were asked have named.
use mathlib.Core.Option.{some-injective}
use knarr.Prelude.{
  ℕ, ◌≡◌, refl, ap, Bool, true, false, not, ◌&&◌, ◌||◌, Option, none, some, List, [], ◌∷◌, map,
  Text, text_eq, text_eq_iff, arith, Option-cases, Bool-cases, inl, inr,
}
use knarr.Prelude.Int.{ℤ}
use knarr.Prelude.Dict.{Dict, contains, insert, contains-insert}
use knarr.KBuckets.{Found}
use knarr.Lookup.Integers.{int_16}
use knarr.Lookup.Defs.{
  Node, Offer, Answer, valid_hex_id, seed, add_offer, add_offers, add_adverts, collect, node_at,
  id_of,
}

abbrev pub is_some {ℓ} : {A : Type ℓ} → Option A → Bool
is_some none = false
is_some (some a) = true

-- the id is that of a seed
abbrev pub is_seed : Text → List Found → Bool
is_seed q [] = false
is_seed q (p ∷ seeds) = text_eq p.node_id q || is_seed q seeds

-- a peer of the list has the id
abbrev pub is_offered : Text → List Offer → Bool
is_offered q [] = false
is_offered q (p ∷ peers) = text_eq p.node_id q || is_offered q peers

-- the answer of one of these peers names the id
abbrev pub is_named : {A : Type 0} → (Text → Answer A) → Text → List Text → Bool
is_named ask q [] = false
is_named ask q (t ∷ asked) = is_offered q (ask t).peers || is_named ask q asked

module _ (decimal : ℕ → Option ℕ) (local_id : Text) where
  -- the lookup admits the id: it is a hexadecimal id other than the node's own
  abbrev pub admits : Text → Bool
  admits q = not (text_eq q []) && (not (text_eq q local_id) && is_some (valid_hex_id decimal q))

  -- the second dict has the peers of the first, and the ids of the list that the lookup admits
  abbrev pub IsUnion : (Text → Bool) → Dict Node → Dict Node → Type 0
  IsUnion named found found' =
      (q : Text) → contains q found' ≡ (contains q found || (admits q && named q))

  admits-text_eq : (p q : Text) → (admits q && text_eq p q) ≡ (admits p && text_eq p q)
  admits-text_eq p q = elim (Bool-cases (text_eq p q)) [
    | inl same ↦ let e : p ≡ q = (text_eq_iff p q).0 same in rw e refl
    | inr other ↦ ground (arith, other)
  ]

  module _ (target : ℤ) where
    add_offer-IsUnion :
        (p : Offer) (found found' : Dict Node)
        → add_offer decimal local_id target p found ≡ some found'
        → IsUnion (text_eq p.node_id) found found'
    unfolding add_offer
    add_offer-IsUnion p found found' e q = elim (Bool-cases (text_eq p.node_id [])) [
      | inl nameless ↦
          let f : some found ≡ some found' = rw (nameless, add_offer) at e in
          let same = some-injective _ _ f in
          ground (arith, admits-text_eq p.node_id q, ap (contains q) same)
      | inr named ↦ elim (Bool-cases (text_eq p.node_id local_id)) [
        | inl own ↦
            let f : some found ≡ some found' = rw (named, own, add_offer) at e in
            let same = some-injective _ _ f in
            ground (arith, admits-text_eq p.node_id q, ap (contains q) same)
        | inr foreign ↦ elim (Option-cases (valid_hex_id decimal p.node_id)) [
          | inl bad ↦
              let f : some found ≡ some found' = rw (named, foreign, bad, add_offer) at e in
              let same = some-injective _ _ f in
              ground (arith, admits-text_eq p.node_id q, ap (contains q) same)
          | inr (value, fine) ↦
              let allowed : admits p.node_id ≡ true = rw (named, foreign, fine) refl in
              elim (Bool-cases (contains p.node_id found)) [
                | inl old ↦
                    let f : some found ≡ some found' =
                      rw (named, foreign, fine, old, add_offer) at e in
                    let same = some-injective _ _ f in
                    ground (
                      arith,
                      admits-text_eq p.node_id q,
                      ap (contains q) same,
                      text_eq_iff p.node_id q,
                    )
                | inr new ↦ elim (Option-cases p.address) [
                  | inl homeless ↦ absurd (ground arith)
                  | inr ((host, port), there) ↦
                      let n = node_at decimal target p.node_id host port value in
                      let f : some (insert p.node_id n found) ≡ some found' =
                        rw (named, foreign, fine, new, there, add_offer) at e in
                      let same = some-injective _ _ f in
                      ground (
                        arith,
                        admits-text_eq p.node_id q,
                        ap (contains q) same,
                        contains-insert p.node_id q n found,
                      )
                ]
              ]
        ]
      ]
    ]

    add_offers-IsUnion :
        (peers : List Offer) (found found' : Dict Node)
        → add_offers decimal local_id target peers found ≡ some found'
        → IsUnion (λ q. is_offered q peers) found found'
    unfolding add_offers
    add_offers-IsUnion [] found found' e q = ground (arith, ap (contains q) (some-injective _ _ e))
    add_offers-IsUnion (p ∷ peers) found found' e q =
        elim (Option-cases (add_offer decimal local_id target p found)) [
          | inl bad ↦ absurd (ground arith)
          | inr (found1, f) ↦
              let rest : add_offers decimal local_id target peers found1 ≡ some found' =
                rw (f, add_offers) at e in
              ground (
                arith,
                add_offer-IsUnion p found found1 f q,
                add_offers-IsUnion peers found1 found' rest q,
              )
        ]

    pub seed-contains :
        (seeds : List Found) (found found' : Dict Node)
        → seed decimal target seeds found ≡ some found'
        → (q : Text) → contains q found' ≡ (contains q found || is_seed q seeds)
    unfolding seed
    seed-contains [] found found' e q = ground (arith, ap (contains q) (some-injective _ _ e))
    seed-contains (p ∷ seeds) found found' e q = elim (Option-cases (int_16 decimal p.node_id)) [
      | inl bad ↦ absurd (ground arith)
      | inr (value, f) ↦
          let n = node_at decimal target p.node_id p.host p.port value in
          let rest : seed decimal target seeds (insert p.node_id n found) ≡ some found' =
            rw (f, seed) at e in
          ground (
            arith,
            seed-contains seeds (insert p.node_id n found) found' rest q,
            contains-insert p.node_id q n found,
          )
    ]

    module _ {A : Type 0} (alpha k : ℕ) (ask : Text → Answer A) where
      pub collect-IsUnion :
          (asked : List Node) (found found' : Dict Node) (providers providers' : Dict A)
          → collect decimal local_id alpha k ask target asked found providers
            ≡ some (found', providers')
          → IsUnion (λ q. is_named ask q (map id_of asked)) found found'
      unfolding collect id_of
      collect-IsUnion [] found found' providers providers' e q =
          ground (arith, ap (λ r. contains q r.0) (some-injective _ _ e))
      collect-IsUnion (n ∷ asked) found found' providers providers' e q =
          elim (Option-cases (add_adverts (ask n.node_id).providers providers)) [
            | inl bad ↦ absurd (ground arith)
            | inr (providers1, f) ↦
                elim (Option-cases
                  (add_offers decimal local_id target (ask n.node_id).peers found)) [
                    | inl bad ↦ absurd (ground arith)
                    | inr (found1, g) ↦
                        let rest : collect decimal local_id alpha k ask target asked found1
                              providers1
                            ≡ some (found', providers') =
                          rw (f, g, collect) at e in
                        ground (
                          arith,
                          add_offers-IsUnion (ask n.node_id).peers found found1 g q,
                          collect-IsUnion asked found1 found' providers1 providers' rest q,
                        )
                  ]
          ]
