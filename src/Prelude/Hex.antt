-- ===== src/Prelude/Hex.antt =====
-- `bytes.fromhex`, `str.strip` and `int.bit_length` of the Python standard library.
use Prim.Native.Nat.{ℕ, zero, suc, ◌+◌, ◌-◌, ◌*◌, ◌/◌, ◌^◌, ◌≤◌, ◌<◌}
use mathlib.Core.Path.{◌≡◌, refl}
use mathlib.Core.Logic.{inl, inr}
use mathlib.Core.Bool.{Bool, true, false, ◌&&◌, ◌||◌}
use mathlib.Core.Option.{Option, none, some}
use mathlib.Core.List.{[], ◌∷◌, reverse}
use native.Mathlib.Omega.{arith}
use native.Mathlib.Nat.{pow-suc}
use knarr.Prelude.Tests.{if◌then◌else◌, Text, leb, ◌==◌, Bool-cases}

unfoldable pub hex_digit : ℕ → Option ℕ
hex_digit c =
    if leb b'0' c && leb c b'9'
    then some (c - b'0')
    else if leb b'a' c && leb c b'f'
    then some (c - b'a' + 10)
    else if leb b'A' c && leb c b'F'
    then some (c - b'A' + 10)
    else none

unfoldable pub is_ascii_space : ℕ → Bool
is_ascii_space c = (leb 9 c && leb c 13) || (c == 32)

-- `int.from_bytes(bytes.fromhex(text), "big")`; `none` is a ValueError. Spaces may stand between
-- the bytes.
unfoldable pub from_hex_acc : ℕ → Text → Option ℕ
from_hex_acc acc [] = some acc
from_hex_acc acc (c ∷ []) = if is_ascii_space c then some acc else none
from_hex_acc acc (c ∷ d ∷ t) =
    let skipped = from_hex_acc acc (d ∷ t) in
    let byte : Option ℕ = elim (hex_digit c) [
      | none ↦ none
      | some x ↦ elim (hex_digit d) [
        | none ↦ none
        | some y ↦ from_hex_acc (acc * 256 + (16 * x + y)) t
      ]
    ] in
    if is_ascii_space c then skipped else byte

unfoldable pub from_hex : Text → Option ℕ
from_hex = from_hex_acc 0

unfoldable pub is_space : ℕ → Bool
is_space c =
    (leb 9 c && leb c 13)
    || (leb 28 c && leb c 32)
    || (c == 133)
    || (c == 160)
    || (c == 5760)
    || (leb 8192 c && leb c 8202)
    || (c == 8232)
    || (c == 8233)
    || (c == 8239)
    || (c == 8287)
    || (c == 12288)

unfoldable pub strip_left : Text → Text
strip_left [] = []
strip_left (c ∷ t) = if is_space c then strip_left t else c ∷ t

unfoldable pub strip : Text → Text
strip t = reverse (strip_left (reverse (strip_left t)))

-- The fuel is the number itself: each round halves it.
unfoldable pub bit_length_within : ℕ → ℕ → ℕ
bit_length_within zero n = 0
bit_length_within (suc f) n = elim (n == 0) [ true ↦ 0 | false ↦ suc (bit_length_within f (n / 2)) ]

unfoldable pub bit_length : ℕ → ℕ
bit_length n = bit_length_within n n

bit_length_within-zero : (f : ℕ) → bit_length_within f 0 ≡ 0
unfolding bit_length_within
bit_length_within-zero zero = refl
bit_length_within-zero (suc f) = refl

bit_length_within_bounds :
    (f n : ℕ)
    → n ≤ f
    → 0 < n
    → (l : ℕ) × (bit_length_within f n ≡ suc l) × (2 ^ l ≤ n) × (n < 2 * 2 ^ l)
unfolding bit_length_within
bit_length_within_bounds zero n h p = absurd (omega arith)
bit_length_within_bounds (suc f) n h p = elim (Bool-cases (n == 1)) [
  | inl one ↦
      let e : n ≡ 1 = ground arith in
      rw (e, bit_length_within-zero f) (0, refl, omega arith, omega arith)
  | inr more ↦
      let (l, e, lo, hi) = bit_length_within_bounds f (n / 2) (ground arith) (ground arith) in
      let step : 2 ^ suc l ≡ 2 ^ l * 2 = pow-suc 2 l in
      (suc l, ground arith, omega (arith, step, lo), omega (arith, step, hi))
]

-- The bit length is one more than the exponent of the largest power of two below the number.
pub bit_length_bounds :
    (n : ℕ) → 0 < n → (l : ℕ) × (bit_length n ≡ suc l) × (2 ^ l ≤ n) × (n < 2 * 2 ^ l)
unfolding bit_length
bit_length_bounds n p = bit_length_within_bounds n n (omega arith) p
