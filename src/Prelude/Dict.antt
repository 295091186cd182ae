-- ===== src/Prelude/Dict.antt =====
-- A Python `dict` keyed by texts, in insertion order.
use mathlib.Core.Path.{◌≡◌, refl}
use mathlib.Core.Logic.{◌≢◌}
use mathlib.Core.Bool.{Bool, true, false}
use mathlib.Core.Option.{Option, none, some}
use mathlib.Core.List.{List, [], ◌∷◌}
use native.Mathlib.Omega.{arith}
use mathlib.Core.Logic.{inl, inr}
use knarr.Prelude.Lists.{All}
use knarr.Prelude.Tests.{Bool-cases, if◌then◌else◌, Text, text_eq, text_eq_iff}

abbrev pub Dict {ℓ} : Type ℓ → Type ℓ
Dict V = List (Text × V)

module _ {ℓ} {V : Type ℓ} where
  -- `d.get(k)`
  abbrev pub lookup : Text → Dict V → Option V
  lookup k [] = none
  lookup k ((j, v) ∷ d) = if text_eq j k then some v else lookup k d

  -- `k in d`
  abbrev pub contains : Text → Dict V → Bool
  contains k [] = false
  contains k ((j, v) ∷ d) = if text_eq j k then true else contains k d

  -- `d[k] = v`
  abbrev pub insert : Text → V → Dict V → Dict V
  insert k v [] = (k, v) ∷ []
  insert k v ((j, w) ∷ d) = if text_eq j k then (j, v) ∷ d else (j, w) ∷ insert k v d

  -- `d.pop(k, None)`
  abbrev pub erase : Text → Dict V → Dict V
  erase k [] = []
  erase k ((j, w) ∷ d) = if text_eq j k then d else (j, w) ∷ erase k d

  pub lookup-insert :
      (k q : Text) (v : V) (d : Dict V)
      → lookup q (insert k v d) ≡ (if text_eq k q then some v else lookup q d)
  lookup-insert k q v [] = refl
  lookup-insert k q v ((j, w) ∷ d) =
      ground (arith, text_eq_iff j k, text_eq_iff j q, text_eq_iff k q, lookup-insert k q v d)

  pub lookup-erase_ne : (k q : Text) (d : Dict V) → q ≢ k → lookup q (erase k d) ≡ lookup q d
  lookup-erase_ne k q [] h = refl
  lookup-erase_ne k q ((j, w) ∷ d) h =
      ground (arith, text_eq_iff j k, text_eq_iff j q, lookup-erase_ne k q d h)

  -- no key occurs twice
  abbrev pub IsDict : Dict V → Type ℓ
  IsDict [] = Unit {ℓ}
  IsDict ((k, v) ∷ d) = (lookup k d ≡ none) × IsDict d

  pub lookup-erase-none :
      (k q : Text) (d : Dict V) → lookup q d ≡ none → lookup q (erase k d) ≡ none
  lookup-erase-none k q [] h = refl
  lookup-erase-none k q ((j, w) ∷ d) h = ground (arith, lookup-erase-none k q d)

  pub lookup-erase : (k : Text) (d : Dict V) → IsDict d → lookup k (erase k d) ≡ none
  lookup-erase k [] h = refl
  lookup-erase k ((j, w) ∷ d) h = ground (arith, text_eq_iff j k, lookup-erase k d h.1)

  pub erase-IsDict : (k : Text) (d : Dict V) → IsDict d → IsDict (erase k d)
  erase-IsDict k [] h = h
  erase-IsDict k ((j, w) ∷ d) h = elim (Bool-cases (text_eq j k)) [
    | inl here ↦ rw here h.1
    | inr there ↦ rw there (lookup-erase-none k j d h.0, erase-IsDict k d h.1)
  ]

  pub insert-IsDict : (k : Text) (v : V) (d : Dict V) → IsDict d → IsDict (insert k v d)
  insert-IsDict k v [] h = (refl, tt)
  insert-IsDict k v ((j, w) ∷ d) h = elim (Bool-cases (text_eq j k)) [
    | inl here ↦ rw here h
    | inr there ↦ rw there (
      ground (arith, text_eq_iff j k, text_eq_iff k j, lookup-insert k j v d, h.0),
      insert-IsDict k v d h.1,
    )
  ]

  pub contains-insert :
      (k q : Text) (v : V) (d : Dict V)
      → contains q (insert k v d) ≡ (if text_eq k q then true else contains q d)
  contains-insert k q v [] = refl
  contains-insert k q v ((j, w) ∷ d) =
      ground (arith, text_eq_iff j k, text_eq_iff j q, text_eq_iff k q, contains-insert k q v d)

  pub All-insert :
      (P : Text × V → Type 0) (k : Text) (v : V) (d : Dict V)
      → P (k, v)
      → All P d
      → All P (insert k v d)
  All-insert P k v [] p h = (p, tt)
  All-insert P k v ((j, w) ∷ d) p h = elim (Bool-cases (text_eq j k)) [
    | inl here ↦ let e : j ≡ k = (text_eq_iff j k).0 here in rw (here, e) (p, h.1)
    | inr there ↦ rw there (h.0, All-insert P k v d p h.1)
  ]
