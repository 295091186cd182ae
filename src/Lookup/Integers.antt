-- ===== src/Lookup/Integers.antt =====
-- `int(text, 16)` and `^` on Python integers, which the lookup applies to node ids.
use Prim.Native.Nat.{bit_xor}
use knarr.Prelude.{
  ℕ, ◌+◌, ◌-◌, ◌*◌, Bool, true, false, ◌&&◌, ◌||◌, Option, none, some, [], ◌∷◌, Text, ◌==◌,
  if◌then◌else◌,
}
use knarr.Prelude.Hex.{hex_digit, strip}
use knarr.Prelude.Int.{ℤ, pos, negsuc}

-- Two's complement, as for Python's `^`: the complement of n is -(n + 1).
unfoldable pub xor_ℤ : ℤ → ℤ → ℤ
xor_ℤ (pos a) (pos b) = pos (bit_xor a b)
xor_ℤ (pos a) (negsuc b) = negsuc (bit_xor a b)
xor_ℤ (negsuc a) (pos b) = negsuc (bit_xor a b)
xor_ℤ (negsuc a) (negsuc b) = pos (bit_xor a b)

-- The value of a character that is a decimal digit in Unicode, other than the ASCII ones.
module _ (decimal : ℕ → Option ℕ) where
  unfoldable pub int_digit : ℕ → Option ℕ
  int_digit c = elim (hex_digit c) [ some d ↦ some d | none ↦ decimal c ]

  -- digits with single underscores between; the flag says whether a digit stands before
  unfoldable pub int_digits : ℕ → Bool → Text → Option ℕ
  int_digits acc after_digit [] = if after_digit then some acc else none
  int_digits acc after_digit (c ∷ t) =
      let skipped = int_digits acc false t in
      let digit : Option ℕ = elim (int_digit c) [
        | none ↦ none
        | some d ↦ int_digits (acc * 16 + d) true t
      ] in
      if c == b'_' then (if after_digit then skipped else none) else digit

  -- an optional "0x", which one underscore may follow
  unfoldable pub int_unsigned : Text → Option ℕ
  int_unsigned (z ∷ x ∷ u ∷ t) =
      if (z == b'0') && ((x == b'x') || (x == b'X'))
      then (if u == b'_' then int_digits 0 false t else int_digits 0 false (u ∷ t))
      else int_digits 0 false (z ∷ x ∷ u ∷ t)
  int_unsigned t = int_digits 0 false t

  unfoldable pub negate : ℕ → ℤ
  negate n = if n == 0 then pos 0 else negsuc (n - 1)

  unfoldable pub int_signed : Text → Option ℤ
  int_signed [] = none
  int_signed (c ∷ t) =
      if c == b'-'
      then (elim (int_unsigned t) [ none ↦ none | some n ↦ some (negate n) ])
      else if c == b'+'
      then (elim (int_unsigned t) [ none ↦ none | some n ↦ some (pos n) ])
      else (elim (int_unsigned (c ∷ t)) [ none ↦ none | some n ↦ some (pos n) ])

  -- `int(text, 16)`; `none` is a ValueError
  unfoldable pub int_16 : Text → Option ℤ
  int_16 text = int_signed (strip text)
