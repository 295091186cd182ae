-- ===== src/KBuckets/Distance.antt =====
-- What the bucket index says about the XOR distance.
use knarr.Prelude.{
  ℕ, zero, suc, ◌-◌, ◌*◌, ◌^◌, ◌≤◌, ◌<◌, ◌≡◌, refl, sym, ap, inl, inr, ◌↔◌, Option, none, some,
  arith, Text, Bool-cases, ltb, ltb→lt,
}
use Prim.Native.Nat.{bit_xor}
use native.Mathlib.Nat.{pow-suc, pow-le-pow_right}
use mathlib.Core.Option.{some-injective}
use knarr.Prelude.Hex.{from_hex, bit_length, bit_length_bounds}
use knarr.Prelude.Xor.{xor_self, xor-eq-zero, xor-lt}
use knarr.KBuckets.Defs.{get_bucket_index}
use knarr.KBuckets.Bucket.{index_of}

pow_pos : (i : ℕ) → 0 < 2 ^ i
pow_pos zero = omega arith
pow_pos (suc i) = omega (arith, pow-suc 2 i, pow_pos i)

pow_mono : (a b : ℕ) → a < b → 2 * 2 ^ a ≤ 2 ^ b
pow_mono a b h =
    let step : 2 ^ suc a ≡ 2 ^ a * 2 = pow-suc 2 a in
    let le : 2 ^ suc a ≤ 2 ^ b = pow-le-pow_right (omega arith) h in omega (arith, step, le)

-- A number lies between two successive powers of two for one exponent only.
pow_window : (a b n : ℕ) → 2 ^ a ≤ n → n < 2 * 2 ^ a → 2 ^ b ≤ n → n < 2 * 2 ^ b → a ≡ b
pow_window a b n p q r s = elim (Bool-cases (ltb a b)) [
  | inl below ↦ absurd (omega (arith, pow_mono a b (ground arith), p, q, r, s))
  | inr above ↦ elim (Bool-cases (ltb b a)) [
    | inl below ↦ absurd (omega (arith, pow_mono b a (ground arith), p, q, r, s))
    | inr same ↦ ground arith
  ]
]

bucket_index_of_bounds : (d i : ℕ) → 2 ^ i ≤ d → d < 2 * 2 ^ i → get_bucket_index d ≡ some i
unfolding get_bucket_index
bucket_index_of_bounds zero i lo hi = absurd (omega (arith, lo, pow_pos i))
bucket_index_of_bounds (suc d) i lo hi =
    let (l, e, lo', hi') = bit_length_bounds (suc d) (omega arith) in
    let same : l ≡ i = pow_window l i (suc d) lo' hi' lo hi in
    ap {B = Option ℕ} some (omega (arith, e, same))

bounds_of_bucket_index : (d i : ℕ) → get_bucket_index d ≡ some i → (2 ^ i ≤ d) × (d < 2 * 2 ^ i)
unfolding get_bucket_index
bounds_of_bucket_index zero i e = cc
bounds_of_bucket_index (suc d) i e =
    let (l, f, lo, hi) = bit_length_bounds (suc d) (omega arith) in
    let at_i : bit_length (suc d) - 1 ≡ i = some-injective _ _ e in
    let same : l ≡ i = omega (arith, f, at_i) in rw (← same) (lo, hi)

-- Bucket `i` is for the distances from 2^i up to, and not including, 2^(i+1).
pub get_bucket_index_iff :
    (d i : ℕ) → (get_bucket_index d ≡ some i) ↔ ((2 ^ i ≤ d) × (d < 2 * 2 ^ i))
get_bucket_index_iff d i = (bounds_of_bucket_index d i, λ h. bucket_index_of_bounds d i h.0 h.1)

distance_bounds :
    (local i n : ℕ) (id : Text)
    → index_of local id ≡ some i
    → from_hex id ≡ some n
    → (2 ^ i ≤ bit_xor local n) × (bit_xor local n < 2 * 2 ^ i)
distance_bounds local i n id placed value =
    bounds_of_bucket_index (bit_xor local n) i (rw (value, index_of) at placed)

-- Of two ids that belong to different buckets, the one in the lower bucket is nearer.
pub buckets-ordered :
    (local i j m n : ℕ) (p q : Text)
    → index_of local p ≡ some i
    → index_of local q ≡ some j
    → from_hex p ≡ some m
    → from_hex q ≡ some n
    → i < j
    → bit_xor local m < bit_xor local n
buckets-ordered local i j m n p q placed_p placed_q value_p value_q below = omega (
  arith,
  (distance_bounds local i m p placed_p value_p).1,
  (distance_bounds local j n q placed_q value_q).0,
  pow_mono i j below,
)

zero_of_no_bucket : (d : ℕ) → get_bucket_index d ≡ none → d ≡ 0
unfolding get_bucket_index
zero_of_no_bucket zero e = refl
zero_of_no_bucket (suc d) e = cc

-- A hexadecimal id has no bucket exactly if it is the node's own.
pub index_of-own :
    (local n : ℕ) (id : Text) → from_hex id ≡ some n → (index_of local id ≡ none) ↔ (n ≡ local)
unfolding get_bucket_index
index_of-own local n id value =
    rw (value, index_of)
      (λ e. sym (xor-eq-zero local n (zero_of_no_bucket _ e)), λ e. rw (e, xor_self local))

-- Ids of 256 bits have one of the 256 buckets.
pub index_of-lt :
    (local n i : ℕ) (id : Text)
    → from_hex id ≡ some n
    → local < 2 ^ 256
    → n < 2 ^ 256
    → index_of local id ≡ some i
    → i < 256
index_of-lt local n i id value local_small small placed = elim (Bool-cases (ltb i 256)) [
  | inl below ↦ ltb→lt i 256 below
  | inr above ↦ absurd (too_large local n i id value local_small small placed (ground arith))
]
  where
    too_large :
        (local n i : ℕ) (id : Text)
        → from_hex id ≡ some n
        → local < 2 ^ 256
        → n < 2 ^ 256
        → index_of local id ≡ some i
        → 256 ≤ i
        → ⊥
    too_large local n i id value local_small small placed above =
        let lo = (distance_bounds local i n id placed value).0 in
        let hi = xor-lt 256 local n local_small small in
        let m : 2 ^ 256 ≤ 2 ^ i = pow-le-pow_right (omega arith) above in omega (arith, lo, hi, m)
