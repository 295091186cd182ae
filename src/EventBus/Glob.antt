-- ===== src/EventBus/Glob.antt =====
-- `fnmatch.fnmatch` of the Python standard library, as `Subscriber._matches` calls it.
use knarr.Prelude.{
  ℕ, zero, suc, Bool, true, false, not, ◌&&◌, ◌||◌, Option, none, some, List, [], ◌∷◌, Text, leb,
  ◌==◌, if◌then◌else◌, length,
}

-- A compiled pattern: `set inverted ranges` is a bracket expression.
pub data Token : Type 0 where
  star any : Token
  lit : ℕ → Token
  set : Bool → List (ℕ × ℕ) → Token

-- The text up to the closing `]`, and what follows it.
split_close : Text → Option (Text × Text)
split_close [] = none
split_close (c ∷ p) =
    let rest = split_close p in
    if c == b']'
    then some ([], p)
    else elim rest [ none ↦ none | some (body, after) ↦ some (c ∷ body, after) ]

-- A `]` that stands first in the brackets is an ordinary member.
bracket_body : Text → Option (Text × Text)
unfolding split_close
bracket_body [] = none
bracket_body (c ∷ p) = elim (split_close p) [
  | none ↦ none
  | some (body, after) ↦ some (c ∷ body, after)
]

bracket : Text → Option (Bool × Text × Text)
unfolding bracket_body
bracket [] = none
bracket (c ∷ p) =
    if c == b'!'
    then (elim (bracket_body p) [ none ↦ none | some (body, after) ↦ some (true, body, after) ])
    else (elim (bracket_body (c ∷ p)) [
      | none ↦ none
      | some (body, after) ↦ some (false, body, after)
    ])

ranges : ℕ → Text → List (ℕ × ℕ)
ranges (suc n) (a ∷ d ∷ b ∷ s) =
    let range = (a, b) ∷ ranges n s in
    let single = (a, a) ∷ ranges n (d ∷ b ∷ s) in if d == b'-' then range else single
ranges (suc n) (a ∷ s) = (a, a) ∷ ranges n s
ranges _ _ = []

compile_within : ℕ → Text → List Token
unfolding bracket ranges
compile_within zero p = []
compile_within (suc n) [] = []
compile_within (suc n) (c ∷ p) =
    let rest = compile_within n p in
    let brackets : List Token = elim (bracket p) [
      | none ↦ lit c ∷ compile_within n p
      | some (inverted, body, after) ↦
          set inverted (ranges (length body) body) ∷ compile_within n after
    ] in
    if c == b'*'
    then star ∷ rest
    else if c == b'?'
    then any ∷ rest
    else if c == b'['
    then brackets
    else lit c ∷ rest

compile : Text → List Token
unfolding compile_within
compile p = compile_within (length p) p

in_ranges : ℕ → List (ℕ × ℕ) → Bool
in_ranges c [] = false
in_ranges c ((lo, hi) ∷ rs) = (leb lo c && leb c hi) || in_ranges c rs

-- The suffixes of a text, the text itself first.
suffixes : Text → List Text
suffixes [] = [] ∷ []
suffixes (c ∷ s) = (c ∷ s) ∷ suffixes s

some_of : (Text → Bool) → List Text → Bool
some_of p [] = false
some_of p (s ∷ ss) = p s || some_of p ss

match_tokens : List Token → Text → Bool
unfolding in_ranges suffixes some_of
match_tokens [] [] = true
match_tokens [] (c ∷ s) = false
match_tokens (star ∷ ts) s = some_of (match_tokens ts) (suffixes s)
match_tokens (any ∷ ts) [] = false
match_tokens (any ∷ ts) (c ∷ s) = match_tokens ts s
match_tokens (lit a ∷ ts) [] = false
match_tokens (lit a ∷ ts) (c ∷ s) = (c == a) && match_tokens ts s
match_tokens (set inverted rs ∷ ts) [] = false
match_tokens (set inverted rs ∷ ts) (c ∷ s) =
    (if inverted then not (in_ranges c rs) else in_ranges c rs) && match_tokens ts s

unfoldable pub fnmatch : Text → Text → Bool
unfolding compile match_tokens
fnmatch name pattern = match_tokens (compile pattern) name
