-- ===== src/Commerce/Prepaid.antt =====
-- src/knarr/commerce/prepaid_engine.py
use knarr.Prelude.{Bool, not, Text, if◌then◌else◌}
use knarr.Commerce.Float.{FloatOps, zero_f}

pub record PrepaidRequest (F : Type 0) : Type 0 where
  pub peer_key : Text
  pub skill_name : Text
  pub price : F
  pub prepaid_balance : F
  pub deduction_timing : Text

pub data Action : Type 0 where
  deduct reject skip : Action

-- the message, with the numbers that it names
pub data PrepaidReason (F : Type 0) : Type 0 where
  invalid_price invalid_balance : F → PrepaidReason F
  not_prepaid free_skill : PrepaidReason F
  partial insufficient : F → F → PrepaidReason F
  full : F → PrepaidReason F

pub record PrepaidResult (F : Type 0) : Type 0 where
  pub action : Action
  pub amount : F
  pub remaining : F
  pub reason : PrepaidReason F

module _ {F : Type 0} (ops : FloatOps F) where
  open ops use {sub, lt, le, eq, is_finite, round}

  -- `allow_partial` is the only key of the configuration that is read.
  unfoldable pub evaluate_prepaid : PrepaidRequest F → Bool → PrepaidResult F
  evaluate_prepaid req allow_partial =
      let zero = zero_f ops in
      let balance = req.prepaid_balance in
      if not (is_finite req.price)
      then record {
        action = reject;
        amount = zero;
        remaining = balance;
        reason = invalid_price req.price;
      }
      else if not (is_finite balance)
      then record {
        action = reject;
        amount = zero;
        remaining = zero;
        reason = invalid_balance balance;
      }
      else if eq balance zero
      then record { action = skip; amount = zero; remaining = zero; reason = not_prepaid }
      else if le req.price zero
      then record { action = skip; amount = zero; remaining = balance; reason = free_skill }
      else if lt balance req.price
      then (if allow_partial
          then record {
            action = deduct;
            amount = round 6 balance;
            remaining = round 6 zero;
            reason = partial balance req.price;
          }
          else record {
            action = reject;
            amount = zero;
            remaining = balance;
            reason = insufficient balance req.price;
          })
      else record {
        action = deduct;
        amount = round 6 req.price;
        remaining = round 6 (sub balance req.price);
        reason = full req.price;
      }
