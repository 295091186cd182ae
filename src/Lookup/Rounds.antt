-- ===== src/Lookup/Rounds.antt =====
-- What a whole search has found, and which peers it asked first.
use mathlib.Core.Path.{subst}
use mathlib.Core.Option.{some-injective}
use knarr.Prelude.{
  ℕ, zero, suc, ◌≡◌, refl, sym, ◌∙◌, ap, Bool, ◌&&◌, ◌||◌, Option, none, some, List, [], ◌∷◌, ◌++◌,
  map, Text, arith, Option-cases, List-cases, Bool-cases, inl, inr, append-nil, append_assoc,
}
use knarr.Prelude.Int.{ℤ}
use knarr.Prelude.Dict.{Dict, contains}
use knarr.KBuckets.{Found}
use knarr.Lookup.Defs.{
  Node, Answer, Search, seed, collect, rounds, targets, texts_eq, after_round, id_of,
}
use knarr.Lookup.Union.{is_seed, is_named, admits, IsUnion, seed-contains, collect-IsUnion}

module _ (decimal : ℕ → Option ℕ) (local_id : Text) (target : ℤ) {A : Type 0} (alpha k : ℕ)
    (ask : Text → Answer A) where
  is_named-append :
      (q : Text) (xs ys : List Text)
      → is_named ask q (xs ++ ys) ≡ (is_named ask q xs || is_named ask q ys)
  is_named-append q [] ys = refl
  is_named-append q (x ∷ xs) ys = ground (arith, is_named-append q xs ys)

  -- A search that ends has asked these peers, and found what they have named.
  abbrev pub IsSearched : Search A → Search A → List Text → Type 0
  IsSearched s s' asked =
      (s'.queried ≡ s.queried ++ asked)
      × IsUnion decimal local_id (λ q. is_named ask q asked) s.found s'.found

  same-IsSearched : (s s' : Search A) → s ≡ s' → IsSearched s s' []
  same-IsSearched s s' e = (
    sym (ap (λ r. r.queried) e) ∙ sym (append-nil s.queried),
    λ q. ground (arith, ap (λ r. contains q r.found) e),
  )

  rounds-IsUnion :
      (check : Bool) (left : ℕ) (s s' : Search A)
      → rounds decimal local_id alpha k ask check target left s ≡ some s'
      → (asked : List Text) × IsSearched s s' asked
  unfolding rounds
  rounds-IsUnion check zero s s' e = ([], same-IsSearched s s' (some-injective _ _ e))
  rounds-IsUnion check (suc left) s s' e = elim (List-cases (targets alpha s.found s.queried)) [
    | inl done ↦
        let f : some s ≡ some s' = rw (done, rounds) at e in
        ([], same-IsSearched s s' (some-injective _ _ f))
    | inr (n, ns, some_left) ↦
        let collected = collect decimal local_id alpha k ask target (n ∷ ns) s.found s.providers in
        elim (Option-cases collected) [
          | inl bad ↦
              let f : none ≡ some s' = rw (some_left, bad, rounds) at e in
              absurd (ground (arith, f))
          | inr ((found, providers), g) ↦
              let s1 = after_round k (n ∷ ns) found providers s in
              let ids = map id_of (n ∷ ns) in
              let u =
                collect-IsUnion decimal local_id target alpha k ask (n ∷ ns) s.found found
                  s.providers providers g in
              let stays = check && texts_eq s1.last_closest_ids s.last_closest_ids in
              elim (Bool-cases stays) [
                | inl same ↦
                    let f : some s1 ≡ some s' = rw (some_left, g, same, rounds) at e in
                    (ids, subst (λ r. IsSearched s r ids) (some-injective _ _ f) (refl, u))
                | inr other ↦
                    let rest : rounds decimal local_id alpha k ask check target left s1 ≡ some s' =
                      rw (some_left, g, other, rounds) at e in
                    let (asked, (queried, v)) = rounds-IsUnion check left s1 s' rest in
                    (
                      ids ++ asked,
                      (
                        queried ∙ append_assoc s.queried ids asked,
                        λ q. ground (arith, u q, v q, is_named-append q ids asked),
                      ),
                    )
              ]
        ]
  ]

  -- The first round asks the targets of the state that the rounds start from.
  pub rounds-first :
      (check : Bool) (left : ℕ) (s s' : Search A)
      → rounds decimal local_id alpha k ask check target (suc left) s ≡ some s'
      → (more : List Text) × (s'.queried
          ≡ s.queried ++ (map id_of (targets alpha s.found s.queried) ++ more))
  unfolding rounds
  rounds-first check left s s' e = elim (List-cases (targets alpha s.found s.queried)) [
    | inl done ↦
        let f : some s ≡ some s' = rw (done, rounds) at e in
        let (queried, u) = same-IsSearched s s' (some-injective _ _ f) in ([], rw done queried)
    | inr (n, ns, some_left) ↦
        let collected = collect decimal local_id alpha k ask target (n ∷ ns) s.found s.providers in
        elim (Option-cases collected) [
          | inl bad ↦
              let f : none ≡ some s' = rw (some_left, bad, rounds) at e in
              absurd (ground (arith, f))
          | inr ((found, providers), g) ↦
              let s1 = after_round k (n ∷ ns) found providers s in
              let ids = map id_of (n ∷ ns) in
              let stays = check && texts_eq s1.last_closest_ids s.last_closest_ids in
              elim (Bool-cases stays) [
                | inl same ↦
                    let f : some s1 ≡ some s' = rw (some_left, g, same, rounds) at e in
                    let h : s1.queried ≡ s'.queried = ap (λ r. r.queried) (some-injective _ _ f) in
                    ([], rw (some_left, append-nil ids) (sym h))
                | inr other ↦
                    let rest : rounds decimal local_id alpha k ask check target left s1 ≡ some s' =
                      rw (some_left, g, other, rounds) at e in
                    let (asked, (queried, v)) = rounds-IsUnion check left s1 s' rest in
                    (asked, rw some_left (queried ∙ append_assoc s.queried ids asked))
              ]
        ]
  ]

  -- The entries are the seeds, and the peers that the asked ones named and the lookup admits.
  abbrev pub IsFoundBy : List Found → List Text → Dict Node → Type 0
  IsFoundBy seeds asked found =
      (q : Text)
      → contains q found ≡ (is_seed q seeds || (admits decimal local_id q && is_named ask q asked))

  pub rounds-IsFoundBy :
      (check : Bool) (left : ℕ) (seeds : List Found) (found : Dict Node) (s s' : Search A)
      → seed decimal target seeds [] ≡ some found
      → s.found ≡ found
      → rounds decimal local_id alpha k ask check target left s ≡ some s'
      → (asked : List Text) × (s'.queried ≡ s.queried ++ asked) × IsFoundBy seeds asked s'.found
  rounds-IsFoundBy check left seeds found s s' e f g =
      let (asked, (queried, u)) = rounds-IsUnion check left s s' g in
      (
        asked,
        queried,
        λ q. ground (
          arith,
          u q,
          seed-contains decimal local_id target seeds [] found e q,
          ap (contains q) f,
        ),
      )
