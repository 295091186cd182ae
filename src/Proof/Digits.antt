-- ===== src/Proof/Digits.antt =====
-- Numbers and their digits.
use mathlib.Core.List.{reverse, reverse-cons}
use knarr.Prelude.{
  ℕ, zero, suc, ◌+◌, ◌*◌, ◌/◌, ◌%◌, ◌≤◌, ◌<◌, ◌≡◌, refl, ap, ◌∙◌, List, [], ◌∷◌, ◌++◌, replicate,
  length, All, arith,
}
use knarr.Prelude.Hex.{bit_length, bit_length_within}
use knarr.Proof.Base58.{from_digits, low_bytes}

-- the number that digits stand for, the lowest first
abbrev pub value : ℕ → List ℕ → ℕ
value base [] = 0
value base (d ∷ ds) = d + base * value base ds

from_digits-append :
    (base acc : ℕ) (xs : List ℕ) (d : ℕ)
    → from_digits base acc (xs ++ d ∷ []) ≡ from_digits base acc xs * base + d
unfolding from_digits
from_digits-append base acc [] d = refl
from_digits-append base acc (x ∷ xs) d = from_digits-append base (acc * base + x) xs d

pub from_digits-reverse : (base : ℕ) (ds : List ℕ) → from_digits base 0 (reverse ds) ≡ value base ds
from_digits-reverse base [] = unfold from_digits in refl
from_digits-reverse base (d ∷ ds) =
    rw (reverse-cons d ds) (
      rw (from_digits-append base 0 (reverse ds) d)
        (rw (from_digits-reverse base ds) (grind arith)))

pub from_digits-replicate :
    (base z : ℕ) (ds : List ℕ) → from_digits base 0 (replicate z 0 ++ ds) ≡ from_digits base 0 ds
unfolding from_digits
from_digits-replicate base zero ds = refl
from_digits-replicate base (suc z) ds =
    let e : 0 * base + 0 ≡ 0 = omega arith in
    ap (λ n. from_digits base n (replicate z 0 ++ ds)) e ∙ from_digits-replicate base z ds

-- the highest digit is not zero
abbrev pub IsTrimmed : List ℕ → Type 0
IsTrimmed [] = ⊥
IsTrimmed (d ∷ []) = 1 ≤ d
IsTrimmed (d ∷ e ∷ ds) = IsTrimmed (e ∷ ds)

abbrev pub HasHead : List ℕ → Type 0
HasHead [] = ⊥
HasHead (d ∷ ds) = 1 ≤ d

pub HasHead-append : (xs ys : List ℕ) → HasHead xs → HasHead (xs ++ ys)
HasHead-append [] ys h = elim h [ ]
HasHead-append (x ∷ xs) ys h = h

pub IsTrimmed-append : (xs : List ℕ) (d : ℕ) → 1 ≤ d → IsTrimmed (xs ++ d ∷ [])
IsTrimmed-append [] d h = h
IsTrimmed-append (x ∷ []) d h = h
IsTrimmed-append (x ∷ y ∷ xs) d h = IsTrimmed-append (y ∷ xs) d h

pub low_bytes-value :
    (ds : List ℕ) → All (λ d. d < 256) ds → low_bytes (length ds) (value 256 ds) ≡ ds
unfolding low_bytes
low_bytes-value [] h = refl
low_bytes-value (d ∷ ds) h =
    let low : (d + 256 * value 256 ds) % 256 ≡ d = omega (arith, h.0) in
    let rest : (d + 256 * value 256 ds) / 256 ≡ value 256 ds = omega (arith, h.0) in
    rw (low, rest) (ap (λ r. d ∷ r) (low_bytes-value ds h.1))

bit_length_within-more : (f g n : ℕ) → n ≤ f → n ≤ g → bit_length_within f n ≡ bit_length_within g n
unfolding bit_length_within
bit_length_within-more zero zero n h k = refl
bit_length_within-more zero (suc g) n h k = ground arith
bit_length_within-more (suc f) zero n h k = ground arith
bit_length_within-more (suc f) (suc g) n h k = ground (arith, bit_length_within-more f g (n / 2))

bit_length_half : (n : ℕ) → 1 ≤ n → bit_length n ≡ suc (bit_length (n / 2))
unfolding bit_length bit_length_within
bit_length_half zero h = absurd (omega arith)
bit_length_half (suc n) h = ground (arith, bit_length_within-more n (suc n / 2) (suc n / 2))

bit_length_zero : bit_length 0 ≡ 0
unfolding bit_length bit_length_within
bit_length_zero = refl

-- 256 or more takes eight bits more than the same without its lowest byte
pub bit_length_byte : (n : ℕ) → 256 ≤ n → bit_length n ≡ 8 + bit_length (n / 256)
bit_length_byte n h =
    let e : n / 2 / 2 / 2 / 2 / 2 / 2 / 2 / 2 ≡ n / 256 = omega arith in
    omega (
      arith,
      ap bit_length e,
      bit_length_half n (omega arith),
      bit_length_half (n / 2) (omega arith),
      bit_length_half (n / 2 / 2) (omega arith),
      bit_length_half (n / 2 / 2 / 2) (omega arith),
      bit_length_half (n / 2 / 2 / 2 / 2) (omega arith),
      bit_length_half (n / 2 / 2 / 2 / 2 / 2) (omega arith),
      bit_length_half (n / 2 / 2 / 2 / 2 / 2 / 2) (omega arith),
      bit_length_half (n / 2 / 2 / 2 / 2 / 2 / 2 / 2) (omega arith),
    )

-- one bit more for twice the bound
bit_length_twice :
    (m b : ℕ) → ((k : ℕ) → k < m → bit_length k ≤ b) → (n : ℕ) → n < 2 * m → bit_length n ≤ suc b
bit_length_twice m b below zero h = ground (arith, bit_length_zero)
bit_length_twice m b below (suc n) h =
    omega (arith, bit_length_half (suc n) (omega arith), below (suc n / 2) (omega arith))

bit_length_small : (n : ℕ) → 1 ≤ n → n < 256 → (1 ≤ bit_length n) × (bit_length n ≤ 8)
bit_length_small n h k =
    let at_0 : (m : ℕ) → m < 1 → bit_length m ≤ 0 =
      λ m below. ground (arith, bit_length_zero, ap bit_length (zero_of m below)) in
    let at_1 = bit_length_twice 1 0 at_0 in
    let at_2 = bit_length_twice 2 1 at_1 in
    let at_3 = bit_length_twice 4 2 at_2 in
    let at_4 = bit_length_twice 8 3 at_3 in
    let at_5 = bit_length_twice 16 4 at_4 in
    let at_6 = bit_length_twice 32 5 at_5 in
    let at_7 = bit_length_twice 64 6 at_6 in
    (omega (arith, bit_length_half n h), bit_length_twice 128 7 at_7 n k)
  where
    zero_of : (m : ℕ) → m < 1 → m ≡ 0
    zero_of m below = omega arith

pub value_pos : (base : ℕ) (ds : List ℕ) → 1 ≤ base → IsTrimmed ds → 1 ≤ value base ds
value_pos base [] b h = elim h [ ]
value_pos base (d ∷ []) b h = omega arith
value_pos base (d ∷ e ∷ ds) b h = grind (arith, value_pos base (e ∷ ds) b h)

-- as many bytes as `to_bytes` is given
pub byte_length :
    (ds : List ℕ)
    → All (λ d. d < 256) ds
    → IsTrimmed ds
    → (bit_length (value 256 ds) + 7) / 8 ≡ length ds
byte_length [] h t = elim t [ ]
byte_length (d ∷ []) h t =
    let e : d + 256 * 0 ≡ d = omega arith in
    let b = bit_length_small d t h.0 in rw e (omega (arith, b))
byte_length (d ∷ e ∷ ds) h t =
    let n = value 256 (e ∷ ds) in
    let pos : 1 ≤ n = value_pos 256 (e ∷ ds) (omega arith) t in
    let rest : (d + 256 * n) / 256 ≡ n = omega (arith, h.0) in
    let more = bit_length_byte (d + 256 * n) (omega arith) in
    omega (arith, more, ap bit_length rest, byte_length (e ∷ ds) h.1 t)
