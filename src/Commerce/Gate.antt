-- ===== src/Commerce/Gate.antt =====
-- src/knarr/commerce/admission_gate.py
use knarr.Prelude.{ℕ, Bool, not, ◌&&◌, ◌||◌, Option, none, some, Text, ltb, leb, if◌then◌else◌}
use knarr.Commerce.Float.{FloatOps, zero_f}
use knarr.Commerce.Prepaid.{PrepaidReason}

-- A count or a limit below zero acts as zero does.
pub record AdmissionRequest (F : Type 0) : Type 0 where
  pub caller_key : Text
  pub skill_name : Text
  pub base_price : F
  pub balance : F
  pub soft_limit : F
  pub hard_limit : F
  pub tit_for_tat : Bool
  pub meter_count : ℕ
  pub meter_max_count : ℕ

pub data Outcome : Type 0 where
  accepted soft_warning hard_block free_pass : Outcome

-- the message, with the numbers that it names
pub data Reason (F : Type 0) : Type 0 where
  rate_limit : ℕ → ℕ → Reason F
  invalid_price : F → Reason F
  insufficient_credit : F → F → F → F → Reason F
  credit_warning : F → F → Reason F
  prepaid_rejection prepaid_deduction : PrepaidReason F → Reason F

pub record AdmissionDecision (F : Type 0) : Type 0 where
  pub outcome : Outcome
  pub effective_price : F
  pub reason : Option (Reason F)
  pub balance_after : Option F

module _ {F : Type 0} (ops : FloatOps F) where
  open ops use {sub, lt, le, is_finite}

  unfoldable pub check_admission : AdmissionRequest F → AdmissionDecision F
  check_admission req =
      let price = req.base_price in
      let balance_after = sub req.balance price in
      if ltb 0 req.meter_max_count && leb req.meter_max_count req.meter_count
      then record {
        outcome = hard_block;
        effective_price = price;
        reason = some (rate_limit req.meter_count req.meter_max_count);
        balance_after = some req.balance;
      }
      else if not (is_finite price)
      then record {
        outcome = hard_block;
        effective_price = zero_f ops;
        reason = some (invalid_price price);
        balance_after = some req.balance;
      }
      else if req.tit_for_tat || le price (zero_f ops)
      then record {
        outcome = free_pass;
        effective_price = price;
        reason = none;
        balance_after = some req.balance;
      }
      else if lt balance_after req.hard_limit
      then record {
        outcome = hard_block;
        effective_price = price;
        reason = some (insufficient_credit req.balance price balance_after req.hard_limit);
        balance_after = some balance_after;
      }
      else if lt balance_after req.soft_limit
      then record {
        outcome = soft_warning;
        effective_price = price;
        reason = some (credit_warning req.balance req.soft_limit);
        balance_after = some balance_after;
      }
      else record {
        outcome = accepted;
        effective_price = price;
        reason = none;
        balance_after = some balance_after;
      }
