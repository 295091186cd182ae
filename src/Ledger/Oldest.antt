-- ===== src/Ledger/Oldest.antt =====
-- Which row is deleted.
use mathlib.Core.Path.{subst}
use mathlib.Core.Option.{some-injective}
use knarr.Prelude.{
  ℕ, suc, ◌≤◌, ◌≡◌, ◌⊎◌, refl, false, Option, none, some, [], ◌∷◌, Text, text_eq, text_eq_iff,
  length, arith, Option-cases, Bool-cases, inl, inr, leb, All,
}
use knarr.Prelude.Dict.{Dict, lookup, erase, IsDict}
use knarr.Ledger.Defs.{Entry, delete_oldest, oldest_other}

module _ {F : Type 0} where
  -- the row is the peer's own, or no older than the time
  abbrev pub IsNoOlder : Text → ℕ → Text × Entry F → Type 0
  IsNoOlder peer t r = (r.0 ≡ peer) ⊎ (t ≤ r.1.last_updated)

  IsNoOlder-All :
      (peer : Text) (s t : ℕ) (entries : Dict (Entry F))
      → s ≤ t
      → All (IsNoOlder peer t) entries
      → All (IsNoOlder peer s) entries
  IsNoOlder-All peer s t [] h k = tt
  IsNoOlder-All peer s t (r ∷ entries) h (inl own, k) =
      (inl own, IsNoOlder-All peer s t entries h k)
  IsNoOlder-All peer s t (r ∷ entries) h (inr older, k) =
      (inr (omega arith), IsNoOlder-All peer s t entries h k)

  pub oldest_other-none :
      (peer : Text) (entries : Dict (Entry F))
      → oldest_other peer entries ≡ none
      → All (λ r. r.0 ≡ peer) entries
  unfolding oldest_other
  oldest_other-none peer [] h = tt
  oldest_other-none peer ((k, e) ∷ entries) h =
      ground (arith, text_eq_iff k peer, oldest_other-none peer entries)

  owned-IsNoOlder :
      (peer : Text) (t : ℕ) (rows : Dict (Entry F))
      → All (λ r. r.0 ≡ peer) rows
      → All (IsNoOlder peer t) rows
  owned-IsNoOlder peer t [] a = tt
  owned-IsNoOlder peer t (r ∷ rows) a = (inl a.0, owned-IsNoOlder peer t rows a.1)

  -- The oldest row is the one at the head, or a later one.
  abbrev pub IsOldest : Text → Dict (Entry F) → Text → ℕ → Type 0
  IsOldest peer entries k t =
      (text_eq k peer ≡ false)
      × ((e : Entry F) × (lookup k entries ≡ some e) × (e.last_updated ≡ t))
      × All (IsNoOlder peer t) entries

  head-IsOldest :
      (peer : Text) (j : Text) (e : Entry F) (entries : Dict (Entry F))
      → text_eq j peer ≡ false
      → All (IsNoOlder peer e.last_updated) entries
      → IsOldest peer ((j, e) ∷ entries) j e.last_updated
  head-IsOldest peer j e entries other older =
      (other, (e, ground (arith, text_eq_iff j j), refl), (inr (omega arith), older))

  tail-IsOldest :
      (peer : Text) (j : Text) (e : Entry F) (entries : Dict (Entry F)) (k : Text) (t : ℕ)
      → lookup j entries ≡ none
      → IsOldest peer entries k t
      → IsNoOlder peer t (j, e)
      → IsOldest peer ((j, e) ∷ entries) k t
  tail-IsOldest peer j e entries k t absent (other, (e', at_k, age), older) first =
      (other, (e', ground (arith, text_eq_iff j k), age), (first, older))

  picked :
      (peer : Text) (entries : Dict (Entry F)) (i k : Text) (s t : ℕ)
      → ◌≡◌ {A = Option (Text × ℕ)} (some (i, s)) (some (k, t))
      → IsOldest peer entries i s
      → IsOldest peer entries k t
  picked peer entries i k s t f h =
      let same = some-injective (i, s) (k, t) f in subst (λ p. IsOldest peer entries p.0 p.1) same h

  -- what is found is one of the oldest rows of other peers
  oldest_other-some :
      (peer : Text) (entries : Dict (Entry F)) (k : Text) (t : ℕ)
      → IsDict entries
      → oldest_other peer entries ≡ some (k, t)
      → IsOldest peer entries k t
  unfolding oldest_other
  oldest_other-some peer [] k t d h = absurd (ground arith)
  oldest_other-some peer ((j, e) ∷ entries) k t d h = elim (Bool-cases (text_eq j peer)) [
    | inl own ↦
        tail-IsOldest peer j e entries k t d.0
          (oldest_other-some peer entries k t d.1 (rw (own, oldest_other) at h))
          (inl ((text_eq_iff j peer).0 own))
    | inr other ↦ elim (Option-cases (oldest_other peer entries)) [
      | inl alone ↦
          picked peer ((j, e) ∷ entries) j k e.last_updated t (rw (other, alone, oldest_other) at h)
            (head-IsOldest peer j e entries other
              (owned-IsNoOlder peer e.last_updated entries (oldest_other-none peer entries alone)))
      | inr ((i, s), found) ↦
          let below = oldest_other-some peer entries i s d.1 found in
          elim (Bool-cases (leb e.last_updated s)) [
            | inl first ↦
                picked peer ((j, e) ∷ entries) j k e.last_updated t
                  (rw (other, found, first, oldest_other) at h)
                  (head-IsOldest peer j e entries other
                    (IsNoOlder-All peer e.last_updated s entries (ground arith) below.2))
            | inr later ↦
                picked peer ((j, e) ∷ entries) i k s t (rw (other, found, later, oldest_other) at h)
                  (tail-IsOldest peer j e entries i s d.0 below (inr (ground arith)))
          ]
    ]
  ]

  pub erase-length :
      (k : Text) (e : Entry F) (entries : Dict (Entry F))
      → lookup k entries ≡ some e
      → suc (length (erase k entries)) ≡ length entries
  erase-length k e [] h = absurd (ground arith)
  erase-length k e ((j, d) ∷ entries) h = ground (arith, erase-length k e entries)

  -- A ledger whose rows are all of one peer has one row at most.
  owned-length :
      (peer : Text) (rows : Dict (Entry F))
      → IsDict rows
      → All (λ r. r.0 ≡ peer) rows
      → length rows ≤ 1
  owned-length peer [] d a = omega arith
  owned-length peer (r ∷ []) d a = omega arith
  owned-length peer ((j, e) ∷ (k, f) ∷ rows) d a =
      absurd (ground (arith, text_eq_iff k j, d.0, a.0, a.1.0))

  -- With two rows or more, a row of another peer is deleted, and it is one of the oldest.
  pub delete_oldest-IsOldest :
      (peer : Text) (entries : Dict (Entry F))
      → IsDict entries
      → 2 ≤ length entries
      → (k : Text) × (t : ℕ) × (delete_oldest peer entries ≡ erase k entries)
        × IsOldest peer entries k t
  unfolding delete_oldest
  delete_oldest-IsOldest peer entries d h = elim (Option-cases (oldest_other peer entries)) [
    | inl alone ↦
        absurd
          (omega (arith, h, owned-length peer entries d (oldest_other-none peer entries alone)))
    | inr ((k, t), found) ↦
        (k, t, rw (found, delete_oldest) refl, oldest_other-some peer entries k t d found)
  ]
