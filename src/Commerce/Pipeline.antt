-- ===== src/Commerce/Pipeline.antt =====
-- src/knarr/commerce/admission_pipeline.py: price, prepaid check, gate and receipt.
use knarr.Prelude.{ℕ, Bool, Option, none, some, List, [], ◌∷◌, Text}
use knarr.Commerce.Float.{FloatOps, zero_f}
use knarr.Commerce.Prepaid.{PrepaidRequest, PrepaidResult, deduct, reject, skip, evaluate_prepaid}
use knarr.Commerce.Gate.{
  AdmissionRequest, AdmissionDecision, Outcome, accepted, hard_block, prepaid_rejection,
  prepaid_deduction, check_admission,
}
use knarr.Commerce.Pricing.{
  DiscountRule, PricingConfig, PricingRequest, PricingResult, resolve_price,
}

pub record AdmissionContext (F : Type 0) : Type 0 where
  pub caller_key : Text
  pub skill_name : Text
  pub base_price : F
  pub balance : F
  pub soft_limit : F
  pub hard_limit : F
  pub tit_for_tat : Bool
  pub peer_node_id : Text
  pub peer_groups : List Text
  pub discount_rules : List (DiscountRule F)
  pub cost_projection : Option F
  pub skill_min_price : Option F
  pub pricing_config : PricingConfig F
  pub meter_count : ℕ
  pub meter_max_count : ℕ
  pub prepaid_balance : F
  pub allow_partial : Bool
  pub identity : Text
  pub counterparty : Text

-- the payload of the document `admission_decision`
pub record Receipt (F : Type 0) : Type 0 where
  pub skill_name : Text
  pub outcome : Outcome
  pub effective_price : F
  pub balance_before : F
  pub balance_after : Option F
  pub identity : Text
  pub counterparty : Text
  pub pricing : PricingResult F
  pub prepaid : PrepaidResult F

pub record AdmissionResult (F : Type 0) : Type 0 where
  pub gate : AdmissionDecision F
  pub pricing : PricingResult F
  pub receipt : Receipt F
  pub prepaid : PrepaidResult F

abbrev at_execution : Text
at_execution =
    b'a' ∷ b't' ∷ b'_' ∷ b'e' ∷ b'x' ∷ b'e' ∷ b'c' ∷ b'u' ∷ b't' ∷ b'i' ∷ b'o' ∷ b'n' ∷ []

module _ {F : Type 0} where
  unfoldable pub pricing_request : AdmissionContext F → PricingRequest F
  pricing_request ctx = record {
    base_price = ctx.base_price;
    skill_name = ctx.skill_name;
    peer_node_id = ctx.peer_node_id;
    peer_groups = ctx.peer_groups;
    discount_rules = ctx.discount_rules;
    cost_projection = ctx.cost_projection;
    skill_min_price = ctx.skill_min_price;
    meter_count = ctx.meter_count;
  }

  -- the default timing, which nothing reads
  unfoldable pub prepaid_request : AdmissionContext F → F → PrepaidRequest F
  prepaid_request ctx final_price = record {
    peer_key = ctx.caller_key;
    skill_name = ctx.skill_name;
    price = final_price;
    prepaid_balance = ctx.prepaid_balance;
    deduction_timing = at_execution;
  }

  unfoldable pub gate_request : AdmissionContext F → F → AdmissionRequest F
  gate_request ctx final_price = record {
    caller_key = ctx.caller_key;
    skill_name = ctx.skill_name;
    base_price = final_price;
    balance = ctx.balance;
    soft_limit = ctx.soft_limit;
    hard_limit = ctx.hard_limit;
    tit_for_tat = ctx.tit_for_tat;
    meter_count = ctx.meter_count;
    meter_max_count = ctx.meter_max_count;
  }

module _ {F : Type 0} (ops : FloatOps F) where
  -- step 3 of `run_admission`
  unfoldable pub decide : AdmissionContext F → F → PrepaidResult F → AdmissionDecision F
  decide ctx final_price prepaid = elim prepaid.action [
    | reject ↦ record {
      outcome = hard_block;
      effective_price = final_price;
      reason = some (prepaid_rejection prepaid.reason);
      balance_after = some ctx.balance;
    }
    | deduct ↦ record {
      outcome = accepted;
      effective_price = zero_f ops;
      reason = some (prepaid_deduction prepaid.reason);
      balance_after = some ctx.balance;
    }
    | skip ↦ check_admission ops (gate_request ctx final_price)
  ]

  -- steps 2 to 4, for a resolved price
  unfoldable pub admit : AdmissionContext F → PricingResult F → AdmissionResult F
  admit ctx pricing =
      let prepaid =
        evaluate_prepaid ops (prepaid_request ctx pricing.final_price) ctx.allow_partial in
      let gate = decide ctx pricing.final_price prepaid in
      record {
        gate = gate;
        pricing = pricing;
        receipt = record {
          skill_name = ctx.skill_name;
          outcome = gate.outcome;
          effective_price = gate.effective_price;
          balance_before = ctx.balance;
          balance_after = gate.balance_after;
          identity = ctx.identity;
          counterparty = ctx.counterparty;
          pricing = pricing;
          prepaid = prepaid;
        };
        prepaid = prepaid;
      }

  -- `none` is the OverflowError of the price's decay.
  unfoldable pub run_admission : AdmissionContext F → Option (AdmissionResult F)
  run_admission ctx = elim (resolve_price ops (pricing_request ctx) ctx.pricing_config) [
    | none ↦ none
    | some pricing ↦ some (admit ctx pricing)
  ]
