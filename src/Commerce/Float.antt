-- ===== src/Commerce/Float.antt =====
-- Python's floats as an interface: the operations that the code applies to amounts, and the
-- documented facts about them that theorems use. Comparisons with NaN are false, arithmetic is
-- rounded, `**` raises OverflowError (`none`), and `sum` is the built-in one.
use knarr.Prelude.{ℕ, ◌≡◌, Bool, true, Option, List, if◌then◌else◌}

pub record FloatOps (F : Type 0) : Type 0 where
  -- `decimal n d` is the literal n / 10^d
  pub decimal : ℕ → ℕ → F
  pub add : F → F → F
  pub sub : F → F → F
  pub mul : F → F → F
  pub div : F → F → F
  pub abs : F → F
  pub pow : F → ℕ → Option F
  pub sum : List F → F
  pub lt : F → F → Bool
  pub le : F → F → Bool
  pub eq : F → F → Bool
  pub is_finite : F → Bool
  pub round : ℕ → F → F

module _ {F : Type 0} (ops : FloatOps F) where
  open ops use {decimal, lt}

  unfoldable pub zero_f : F
  zero_f = decimal 0 0

  -- the built-in `min(a, b)` and `max(a, b)`, which keep `a` unless `b` is beyond it
  unfoldable pub min_f : F → F → F
  min_f a b = if lt b a then b else a

  unfoldable pub max_f : F → F → F
  max_f a b = if lt a b then b else a

-- What IEEE 754 says of subtraction.
pub record FloatLaws {F : Type 0} (ops : FloatOps F) : Type 0 where
  -- to subtract the same amount keeps the order of what it is subtracted from
  pub sub_mono :
      (a b p l : F)
      → ops.le a b ≡ true
      → ops.lt (ops.sub b p) l ≡ true
      → ops.lt (ops.sub a p) l ≡ true
