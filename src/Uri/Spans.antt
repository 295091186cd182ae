-- ===== src/Uri/Spans.antt =====
-- What the parts of the regular expressions match.
use knarr.Prelude.{
  ℕ, ◌≡◌, ◌⊎◌, refl, ap, Bool, true, false, some, [], ◌∷◌, ◌++◌, Text, ◌==◌, All, arith, Bool-cases,
  inl, inr,
}
use knarr.Uri.Defs.{span, newline, match_end, strip_prefix}

abbrev pub Holds : (ℕ → Bool) → Text → Type 0
Holds p t = All (λ c. p c ≡ true) t

-- a text that does not start with a character of the test
abbrev pub Stops : (ℕ → Bool) → Text → Type 0
Stops p [] = Unit
Stops p (c ∷ t) = p c ≡ false

pub span-split : (p : ℕ → Bool) (t : Text) → (span p t).0 ++ (span p t).1 ≡ t
unfolding span
span-split p [] = refl
span-split p (c ∷ t) = elim (Bool-cases (p c)) [
  | inl in_it ↦ rw (in_it, span) (ap (λ r. c ∷ r) (span-split p t))
  | inr out ↦ rw (out, span) refl
]

pub span-Holds : (p : ℕ → Bool) (t : Text) → Holds p (span p t).0
unfolding span
span-Holds p [] = tt
span-Holds p (c ∷ t) = elim (Bool-cases (p c)) [
  | inl in_it ↦ rw (in_it, span) (in_it, span-Holds p t)
  | inr out ↦ rw (out, span) tt
]

pub span-append :
    (p : ℕ → Bool) (xs ys : Text) → Holds p xs → Stops p ys → span p (xs ++ ys) ≡ (xs, ys)
unfolding span
span-append p [] [] h s = refl
span-append p [] (y ∷ ys) h s = rw s refl
span-append p (x ∷ xs) ys h s = rw h.0 (ap (λ r. (x ∷ r.0, r.1)) (span-append p xs ys h.1 s))

-- the end of a text, or a newline at its end
pub match_end_iff : (t : Text) → match_end t ≡ true → (t ≡ []) ⊎ (t ≡ newline ∷ [])
unfolding match_end
match_end_iff [] h = inl refl
match_end_iff (c ∷ []) h = ground arith
match_end_iff (c ∷ d ∷ t) h = absurd (ground arith)

pub strip_prefix-append : (p t : Text) → strip_prefix p (p ++ t) ≡ some t
unfolding strip_prefix
strip_prefix-append [] t = refl
strip_prefix-append (c ∷ p) t =
    let same : (c == c) ≡ true = ground arith in rw (same, strip_prefix) (strip_prefix-append p t)

pub strip_prefix-some : (p t rest : Text) → strip_prefix p t ≡ some rest → t ≡ p ++ rest
unfolding strip_prefix
strip_prefix-some [] t rest e = ground arith
strip_prefix-some (c ∷ p) [] rest e = absurd (ground arith)
strip_prefix-some (c ∷ p) (d ∷ t) rest e = ground (arith, strip_prefix-some p t rest)
