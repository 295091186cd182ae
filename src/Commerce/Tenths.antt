-- ===== src/Commerce/Tenths.antt =====
-- Amounts in tenths as the floats of examples.
use knarr.Prelude.{ℕ, ◌+◌, ◌-◌, ◌*◌, ◌/◌, ◌^◌, true, some, List, [], ◌∷◌, ltb, leb, ◌==◌}
use knarr.Commerce.Float.{FloatOps}

-- Amounts in tenths, rounded down; what a subtraction leaves below zero is zero.
abbrev pub tenths : FloatOps ℕ
tenths = record {
  decimal = λ n d. (n * 10) / (10 ^ d);
  add = λ a b. a + b;
  sub = λ a b. a - b;
  mul = λ a b. (a * b) / 10;
  div = λ a b. (a * 10) / b;
  abs = λ a. a;
  pow = λ a n. some ((10 * a ^ n) / 10 ^ n);
  sum = total;
  lt = ltb;
  le = leb;
  eq = λ a b. a == b;
  is_finite = λ a. true;
  round = λ n a. a;
}
  where
    total : List ℕ → ℕ
    total [] = 0
    total (a ∷ rest) = a + total rest
