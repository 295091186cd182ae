-- ===== src/Commerce/Tests.antt =====
-- Amounts in tenths as the floats, a full account, and the theorems at them.
use knarr.Prelude.{
  ℕ, ◌-◌, ◌≤◌, ◌≡◌, ◌≢◌, ◌↔◌, refl, false, none, some, [], ◌∷◌, Text, lt→ltb, ltb→lt, leb→le, arith,
}
use knarr.Prelude.Int.{ℤ}
use knarr.Commerce.Float.{FloatLaws, zero_f, min_f, max_f}
use knarr.Commerce.Tenths.{tenths}
use knarr.Commerce.Prepaid.{PrepaidRequest, deduct, skip, evaluate_prepaid}
use knarr.Commerce.Gate.{AdmissionRequest, accepted, hard_block, check_admission}
use knarr.Commerce.Pricing
use knarr.Commerce.Pricing.{
  DiscountRule, PricingConfig, PricingRequest, PricingResult, multiplicative, resolve_price,
}
use knarr.Commerce.Pipeline
use knarr.Commerce.Pipeline.{AdmissionContext, AdmissionResult, admit, run_admission}
use knarr.Commerce.Settlement
use knarr.Commerce.Settlement.{
  SettlementInput, SettlementConfig, evaluate_settlement, evaluate_settlement-exact, IsDue,
  validated, settlement_amount,
}
use knarr.Commerce.Admission.{rank, IsSafe, check_admission_mono, run_admission-IsSafe}

tenths_laws : FloatLaws tenths
tenths_laws = record {
  sub_mono =
      λ a b p l h below. lt→ltb (a - p) l (omega (arith, leb→le a b h, ltb→lt (b - p) l below));
}

program : Unit {0}
unfolding evaluate_prepaid check_admission Pricing.insert_rule Pricing.sort_rules Pricing.clamp_pct
    Pricing.factor_of Pricing.apply_factors Pricing.apply_rules Pricing.apply_cap
    Pricing.decayed_price Pricing.dynamic_floor Pricing.skill_floor Pricing.apply_floor
    Pricing.discounted resolve_price Pipeline.pricing_request Pipeline.prepaid_request
    Pipeline.gate_request Pipeline.decide admit run_admission Settlement.valid_fraction
    Settlement.valid_minimum Settlement.validated Settlement.first_invalid
    Settlement.settlement_amount Settlement.evaluate_valid evaluate_settlement min_f max_f zero_f
program = tt

abbrev text : Text
text = b'x' ∷ []

abbrev gate_example : ℕ → AdmissionRequest ℕ
gate_example balance = record {
  caller_key = text;
  skill_name = text;
  base_price = 20;
  balance = balance;
  soft_limit = 15;
  hard_limit = 10;
  tit_for_tat = false;
  meter_count = 3;
  meter_max_count = 5;
}

check_admission_mono_example :
    rank (check_admission tenths (gate_example 32)).outcome
    ≤ rank (check_admission tenths (gate_example 40)).outcome
check_admission_mono_example =
    check_admission_mono tenths tenths_laws (gate_example 32) 40 (unfold check_admission in refl)

abbrev prepaid_example : PrepaidRequest ℕ
prepaid_example = record {
  peer_key = text;
  skill_name = text;
  price = 20;
  prepaid_balance = 50;
  deduction_timing = text;
}

deducted : (evaluate_prepaid tenths prepaid_example false).action ≡ deduct
unfolding program
deducted = refl

abbrev rule : DiscountRule ℕ
rule = record {
  name = text;
  group_name = text;
  skill_group = text;
  effect_pct = 500;
  priority = ℤ.pos 0;
}

abbrev prices : PricingConfig ℕ
prices = record {
  discount_mode = multiplicative;
  discount_cap_pct = 800;
  markup_minimum = 10;
  min_price = 1;
  global_min_price = 0;
  decay = 10;
}

-- a caller with a balance of 4.0, a hard limit of 1.0 and the given prepaid balance
abbrev caller : ℕ → AdmissionContext ℕ
caller prepaid = record {
  caller_key = text;
  skill_name = text;
  base_price = 40;
  balance = 40;
  soft_limit = 15;
  hard_limit = 10;
  tit_for_tat = false;
  peer_node_id = text;
  peer_groups = [];
  discount_rules = rule ∷ [];
  cost_projection = none;
  skill_min_price = none;
  pricing_config = prices;
  meter_count = 3;
  meter_max_count = 5;
  prepaid_balance = prepaid;
  allow_partial = false;
  identity = text;
  counterparty = text;
}

-- the price that the rule halves
abbrev halved : PricingResult ℕ
halved = record {
  final_price = 20;
  base_price = 40;
  cost_projection = none;
  rules_applied = record { name = text; effect_pct = 500; factor = some 5 } ∷ [];
  discount_mode = multiplicative;
  floor_price = 1;
  floor_applied = false;
  cap_applied = false;
}

abbrev on_credit : AdmissionResult ℕ
on_credit = admit tenths (caller 0) halved

abbrev on_prepaid : AdmissionResult ℕ
on_prepaid = admit tenths (caller 30) halved

credit_run : run_admission tenths (caller 0) ≡ some on_credit
unfolding program
credit_run = refl

prepaid_run : run_admission tenths (caller 30) ≡ some on_prepaid
unfolding program
prepaid_run = refl

credit_skips : on_credit.prepaid.action ≡ skip
unfolding program
credit_skips = refl

credit_accepts : on_credit.gate.outcome ≡ accepted
unfolding program
credit_accepts = refl

prepaid_deducts : on_prepaid.prepaid.action ≡ deduct
unfolding program
prepaid_deducts = refl

not_deducted : on_credit.prepaid.action ≢ deduct
not_deducted = ground (arith, credit_skips)

not_blocked : on_credit.gate.outcome ≢ hard_block
not_blocked = ground (arith, credit_accepts)

run_admission-IsSafe_example : IsSafe tenths (caller 0) on_credit
run_admission-IsSafe_example =
    run_admission-IsSafe tenths (caller 0) on_credit credit_run not_deducted not_blocked

-- A debt is impossible among natural numbers: the balance is 2.0 above zero.
abbrev position : SettlementInput ℕ
position = record {
  peer_key = text;
  balance = 20;
  prepaid = 0;
  pub_tab = 0;
  soft_limit = 200;
  hard_limit = 300;
  credit_limit = 100;
  utilization = 9;
}

abbrev settings : SettlementConfig ℕ
settings = record { soft_threshold = 8; soft_target = 5; min_settlement_amount = 100 }

evaluate_settlement-exact_example :
    let out = evaluate_settlement tenths position settings in
    ((out.action ≡ Settlement.settle) ↔ IsDue tenths position (validated tenths settings))
    × (out.amount ≡ (elim out.action [
      | Settlement.settle ↦ settlement_amount tenths position (validated tenths settings)
      | Settlement.skip ↦ zero_f tenths
    ]))
    × (out.peer_key ≡ text)
evaluate_settlement-exact_example = evaluate_settlement-exact tenths position settings
