-- ===== src/Lookup/Growth.antt =====
-- What a search adds to the peers it has found: it loses none, and each has its true distance.
use knarr.Prelude.{
  ℕ, zero, suc, ◌≡◌, refl, Bool, true, ◌&&◌, Option, some, List, [], ◌∷◌, Text, text_eq,
  text_eq_iff, arith, All, Option-cases, List-cases, Bool-cases, inl, inr,
}
use knarr.Prelude.Int.{ℤ}
use knarr.Prelude.Dict.{Dict, contains, insert, IsDict, insert-IsDict, contains-insert, All-insert}
use knarr.KBuckets.{Found}
use knarr.Lookup.Integers.{int_16, xor_ℤ}
use knarr.Lookup.Defs.{
  Node, Offer, Answer, Advert, Search, valid_hex_id, seed, add_offer, add_offers, add_adverts,
  collect, rounds, targets, node_at, texts_eq, after_round,
}

-- a peer of an answer has a host and a port
abbrev pub HasAddress : Offer → Type 0
HasAddress p = (a : Text × ℕ) × (p.address ≡ some a)

abbrev pub HasId : {A : Type 0} → Advert A → Type 0
HasId p = (t : Text) × (p.node_id ≡ some t)

-- the peers of the first dict are in the second one
abbrev pub Keeps : Dict Node → Dict Node → Type 0
Keeps found found' = (q : Text) → contains q found ≡ true → contains q found' ≡ true

module _ (decimal : ℕ → Option ℕ) (target : ℤ) where
  -- a seed's id is an integer in base 16
  abbrev pub HasValue : Found → Type 0
  HasValue p = (value : ℤ) × (int_16 decimal p.node_id ≡ some value)

  -- an entry stands under its peer's id, with the distance of that id from the target
  abbrev pub IsMeasured : Text × Node → Type 0
  IsMeasured e =
      (e.1.node_id ≡ e.0)
      × ((value : ℤ) × (int_16 decimal e.0 ≡ some value) × (e.1.distance ≡ xor_ℤ target value))

  pub record IsGood (found : Dict Node) : Type 0 where
    pub keys : IsDict found
    pub measured : All IsMeasured found

  insert-IsGood :
      (node_id host : Text) (port : ℕ) (value : ℤ) (found : Dict Node)
      → int_16 decimal node_id ≡ some value
      → IsGood found
      → IsGood (insert node_id (node_at decimal target node_id host port value) found)
  insert-IsGood node_id host port value found e g = record {
    keys = insert-IsDict node_id (node_at decimal target node_id host port value) found g.keys;
    measured =
        All-insert IsMeasured node_id (node_at decimal target node_id host port value) found
          (refl, (value, e, refl)) g.measured;
  }

  insert-Keeps :
      (node_id : Text) (n : Node) (found : Dict Node) → Keeps found (insert node_id n found)
  insert-Keeps node_id n found q h = ground (arith, contains-insert node_id q n found)

  contains-insert_self :
      (node_id : Text) (n : Node) (found : Dict Node)
      → contains node_id (insert node_id n found) ≡ true
  contains-insert_self node_id n found =
      ground (arith, contains-insert node_id node_id n found, text_eq_iff node_id node_id)

  pub seed-IsGood :
      (seeds : List Found) (found : Dict Node)
      → All HasValue seeds
      → IsGood found
      → (found' : Dict Node) × (seed decimal target seeds found ≡ some found')
        × IsGood found'
        × Keeps found found'
        × All (λ p. contains p.node_id found' ≡ true) seeds
  unfolding seed
  seed-IsGood [] found h g = (found, refl, g, (λ q e. e), tt)
  seed-IsGood (p ∷ seeds) found (v, h) g =
      let n = node_at decimal target p.node_id p.host p.port v.0 in
      let (found', e, g', keeps, all) =
        seed-IsGood seeds (insert p.node_id n found) h
          (insert-IsGood p.node_id p.host p.port v.0 found v.1 g) in
      (
        found',
        rw (v.1, seed) e,
        g',
        (λ q i. keeps q (insert-Keeps p.node_id n found q i)),
        (keeps p.node_id (contains-insert_self p.node_id n found), all),
      )

  valid_hex_id-int_16 :
      (node_id : Text) (value : ℤ)
      → valid_hex_id decimal node_id ≡ some value
      → int_16 decimal node_id ≡ some value
  unfolding valid_hex_id
  valid_hex_id-int_16 node_id value e = ground arith

  module _ (local_id : Text) where
    add_offer-IsGood :
        (p : Offer) (found : Dict Node)
        → HasAddress p
        → IsGood found
        → (found' : Dict Node) × (add_offer decimal local_id target p found ≡ some found')
          × IsGood found'
          × Keeps found found'
    unfolding add_offer
    add_offer-IsGood p found a g = elim (Bool-cases (text_eq p.node_id [])) [
      | inl nameless ↦ (found, rw (nameless, add_offer) refl, g, λ q e. e)
      | inr named ↦ elim (Bool-cases (text_eq p.node_id local_id)) [
        | inl own ↦ (found, rw (named, own, add_offer) refl, g, λ q e. e)
        | inr foreign ↦ elim (Option-cases (valid_hex_id decimal p.node_id)) [
          | inl bad ↦ (found, rw (named, foreign, bad, add_offer) refl, g, λ q e. e)
          | inr (value, fine) ↦ elim (Bool-cases (contains p.node_id found)) [
            | inl old ↦ (found, rw (named, foreign, fine, old, add_offer) refl, g, λ q e. e)
            | inr new ↦
                let (host, port) = a.0 in
                let n = node_at decimal target p.node_id host port value in
                (
                  insert p.node_id n found,
                  rw (named, foreign, fine, new, a.1, add_offer) refl,
                  insert-IsGood p.node_id host port value found
                      (valid_hex_id-int_16 p.node_id value fine) g,
                  insert-Keeps p.node_id n found,
                )
          ]
        ]
      ]
    ]

    add_offers-IsGood :
        (peers : List Offer) (found : Dict Node)
        → All HasAddress peers
        → IsGood found
        → (found' : Dict Node) × (add_offers decimal local_id target peers found ≡ some found')
          × IsGood found'
          × Keeps found found'
    unfolding add_offers
    add_offers-IsGood [] found h g = (found, refl, g, λ q e. e)
    add_offers-IsGood (p ∷ peers) found h g =
        let (f1, e1, g1, k1) = add_offer-IsGood p found h.0 g in
        let (f2, e2, g2, k2) = add_offers-IsGood peers f1 h.1 g1 in
        (f2, rw (e1, add_offers) e2, g2, λ q i. k2 q (k1 q i))

  module _ {A : Type 0} (local_id : Text) (alpha k : ℕ) (ask : Text → Answer A) where
    add_adverts_total :
        (ps : List (Advert A)) (providers : Dict A)
        → All HasId ps
        → (providers' : Dict A) × (add_adverts ps providers ≡ some providers')
    unfolding add_adverts
    add_adverts_total [] providers h = (providers, refl)
    add_adverts_total (p ∷ ps) providers ((t, e), h) =
        let (providers', f) = add_adverts_total ps (insert t p.record_of providers) h in
        (providers', rw (e, add_adverts) f)

    module _ (addressed : (id : Text) → All HasAddress (ask id).peers)
        (named : (id : Text) → All HasId (ask id).providers) where
      pub collect-IsGood :
          (asked : List Node) (found : Dict Node) (providers : Dict A)
          → IsGood found
          → (found' : Dict Node) × ((providers' : Dict A) × (collect decimal local_id alpha k ask
                  target asked found providers
                ≡ some (found', providers')))
            × IsGood found'
            × Keeps found found'
      unfolding collect
      collect-IsGood [] found providers g = (found, (providers, refl), g, λ q e. e)
      collect-IsGood (n ∷ asked) found providers g =
          let (p1, f1) = add_adverts_total (ask n.node_id).providers providers (named n.node_id) in
          let (found1, e1, g1, k1) =
            add_offers-IsGood local_id (ask n.node_id).peers found (addressed n.node_id) g in
          let (found2, (p2, e2), g2, k2) = collect-IsGood asked found1 p1 g1 in
          (found2, (p2, rw (f1, e1, collect) e2), g2, λ q i. k2 q (k1 q i))

      pub rounds-IsGood :
          (check : Bool) (left : ℕ) (s : Search A)
          → IsGood s.found
          → (s' : Search A) × (rounds decimal local_id alpha k ask check target left s ≡ some s')
            × IsGood s'.found
            × Keeps s.found s'.found
      unfolding rounds
      rounds-IsGood check zero s g = (s, refl, g, λ q e. e)
      rounds-IsGood check (suc left) s g = elim (List-cases (targets alpha s.found s.queried)) [
        | inl done ↦ (s, rw (done, rounds) refl, g, λ q e. e)
        | inr (n, ns, some_left) ↦
            let (found, (providers, e), g', keeps) =
              collect-IsGood (n ∷ ns) s.found s.providers g in
            let s' = after_round k (n ∷ ns) found providers s in
            let stays = check && texts_eq s'.last_closest_ids s.last_closest_ids in
            elim (Bool-cases stays) [
              | inl same ↦ (s', rw (some_left, e, same, rounds) refl, g', keeps)
              | inr other ↦
                  let (s2, e2, g2, keeps2) = rounds-IsGood check left s' g' in
                  (s2, rw (some_left, e, other, rounds) e2, g2, λ q i. keeps2 q (keeps q i))
            ]
      ]
