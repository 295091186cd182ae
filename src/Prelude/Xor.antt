-- ===== src/Prelude/Xor.antt =====
-- Exclusive or on numbers of any width, digit by digit.
use Prim.Native.Nat.{
  ℕ, zero, suc, ◌+◌, ◌-◌, ◌*◌, ◌/◌, ◌%◌, ◌^◌, ◌≤◌, ◌<◌, min, bit_xor, digits, differ,
  bit_xor-bitwise,
}
use mathlib.Core.Path.{◌≡◌, refl, sym, ◌∙◌}
use native.Mathlib.Nat.{pow-suc}
use native.Mathlib.Omega.{arith}

abbrev keep_digits : ℕ → ℕ
keep_digits b = b

fuel_irrelevant :
    (n m a b : ℕ)
    → a ≤ n
    → a ≤ m
    → digits keep_digits differ n a b ≡ digits keep_digits differ m a b
fuel_irrelevant zero zero a b p q = refl
fuel_irrelevant zero (suc m) zero b p q = refl
fuel_irrelevant zero (suc m) (suc a) b p q = absurd (omega arith)
fuel_irrelevant (suc n) zero zero b p q = refl
fuel_irrelevant (suc n) zero (suc a) b p q = absurd (omega arith)
fuel_irrelevant (suc n) (suc m) zero b p q = refl
fuel_irrelevant (suc n) (suc m) (suc a) b p q =
    rw (fuel_irrelevant n m (suc a / 2) (b / 2) (omega arith) (omega arith))

differ_digit : (x y : ℕ) → x < 2 → y < 2 → differ x y ≡ x + y - 2 * min x y
differ_digit zero y p q = omega arith
differ_digit (suc zero) zero p q = refl
differ_digit (suc zero) (suc zero) p q = refl
differ_digit (suc zero) (suc (suc y)) p q = absurd (omega arith)
differ_digit (suc (suc x)) y p q = absurd (omega arith)

xor_step_differ : (a b : ℕ) → bit_xor a b ≡ bit_xor (a / 2) (b / 2) * 2 + differ (a % 2) (b % 2)
xor_step_differ zero b = simp bit_xor-bitwise (omega arith)
xor_step_differ (suc a) b =
    simp bit_xor-bitwise
      (omega (arith, fuel_irrelevant a (suc a / 2) (suc a / 2) (b / 2) (omega arith) (omega arith)))

pub xor_step :
    (a b : ℕ)
    → bit_xor a b ≡ bit_xor (a / 2) (b / 2) * 2 + (a % 2 + b % 2 - 2 * min (a % 2) (b % 2))
xor_step a b =
    omega (arith, xor_step_differ a b, differ_digit (a % 2) (b % 2) (omega arith) (omega arith))

xor_zeros : bit_xor 0 0 ≡ 0
xor_zeros = refl

xor_self_within : (n a : ℕ) → a ≤ n → bit_xor a a ≡ 0
xor_self_within zero zero p = refl
xor_self_within zero (suc a) p = absurd (omega arith)
xor_self_within (suc n) a p = omega (arith, xor_step a a, xor_self_within n (a / 2) (omega arith))

-- The distance of an id from itself is zero.
pub xor_self : (a : ℕ) → bit_xor a a ≡ 0
xor_self a = xor_self_within a a (omega arith)

xor_cancel_within : (n a b c : ℕ) → a ≤ n → b ≤ n → c ≤ n → bit_xor a b ≡ bit_xor a c → b ≡ c
xor_cancel_within zero a b c p q r e = omega arith
xor_cancel_within (suc n) a b c p q r e =
    let half : bit_xor (a / 2) (b / 2) ≡ bit_xor (a / 2) (c / 2) =
      omega (arith, e, xor_step a b, xor_step a c) in
    omega (
      arith,
      e,
      xor_step a b,
      xor_step a c,
      xor_cancel_within n (a / 2) (b / 2) (c / 2) (omega arith) (omega arith) (omega arith) half,
    )

-- Two ids at the same distance from a third are the same.
pub xor_cancel : (a b c : ℕ) → bit_xor a b ≡ bit_xor a c → b ≡ c
xor_cancel a b c e = xor_cancel_within (a + b + c) a b c (omega arith) (omega arith) (omega arith) e

-- A distance of zero means the same id.
pub xor-eq-zero : (a b : ℕ) → bit_xor a b ≡ 0 → a ≡ b
xor-eq-zero a b e = sym (xor_cancel a b a (e ∙ sym (xor_self a)))

xor_comm_within : (n a b : ℕ) → a ≤ n → b ≤ n → bit_xor a b ≡ bit_xor b a
xor_comm_within zero a b p q =
    let e : a ≡ 0 = omega arith in let f : b ≡ 0 = omega arith in rw (e, f)
xor_comm_within (suc n) a b p q = omega (
  arith,
  xor_step a b,
  xor_step b a,
  xor_comm_within n (a / 2) (b / 2) (omega arith) (omega arith),
)

pub xor_comm : (a b : ℕ) → bit_xor a b ≡ bit_xor b a
xor_comm a b = xor_comm_within (a + b) a b (omega arith) (omega arith)

-- The distance of two ids of `n` bits has `n` bits.
pub xor-lt : (n a b : ℕ) → a < 2 ^ n → b < 2 ^ n → bit_xor a b < 2 ^ n
xor-lt zero a b p q =
    let e : a ≡ 0 = omega arith in
    let f : b ≡ 0 = omega arith in rw (e, f) (omega (arith, xor_zeros))
xor-lt (suc n) a b p q =
    let s = pow-suc 2 n in
    omega
      (arith, s, xor_step a b, xor-lt n (a / 2) (b / 2) (omega (arith, s, p)) (omega (arith, s, q)))
