-- ===== src/Commerce/Pricing.antt =====
-- src/knarr/commerce/pricing_engine.py
use knarr.Prelude.{
  ℕ, Bool, true, false, not, ◌&&◌, Option, none, some, List, [], ◌∷◌, map, Text, ltb, if◌then◌else◌,
}
use knarr.Prelude.Int.{ℤ, ltb_ℤ}
use knarr.Commerce.Float.{FloatOps, zero_f, min_f, max_f}

pub record DiscountRule (F : Type 0) : Type 0 where
  pub name : Text
  pub group_name : Text
  pub skill_group : Text
  pub effect_pct : F
  pub priority : ℤ

-- the texts "multiplicative", "additive" and "best_wins", and any other
pub data DiscountMode : Type 0 where
  multiplicative additive best_wins : DiscountMode
  other : Text → DiscountMode

pub record PricingConfig (F : Type 0) : Type 0 where
  pub discount_mode : DiscountMode
  pub discount_cap_pct : F
  pub markup_minimum : F
  pub min_price : F
  pub global_min_price : F
  pub decay : F

pub record PricingRequest (F : Type 0) : Type 0 where
  pub base_price : F
  pub skill_name : Text
  pub peer_node_id : Text
  pub peer_groups : List Text
  pub discount_rules : List (DiscountRule F)
  pub cost_projection : Option F
  pub skill_min_price : Option F
  pub meter_count : ℕ

-- an entry of `rules_applied`; only the multiplicative modes give a factor
pub record AppliedRule (F : Type 0) : Type 0 where
  pub name : Text
  pub effect_pct : F
  pub factor : Option F

pub record PricingResult (F : Type 0) : Type 0 where
  pub final_price : F
  pub base_price : F
  pub cost_projection : Option F
  pub rules_applied : List (AppliedRule F)
  pub discount_mode : DiscountMode
  pub floor_price : F
  pub floor_applied : Bool
  pub cap_applied : Bool

-- `sorted(rules, key=priority, reverse=True)`, which is stable
module _ {F : Type 0} where
  unfoldable pub insert_rule : DiscountRule F → List (DiscountRule F) → List (DiscountRule F)
  insert_rule r [] = r ∷ []
  insert_rule r (s ∷ rules) =
      if ltb_ℤ r.priority s.priority then s ∷ insert_rule r rules else r ∷ s ∷ rules

  unfoldable pub sort_rules : List (DiscountRule F) → List (DiscountRule F)
  sort_rules [] = []
  sort_rules (r ∷ rules) = insert_rule r (sort_rules rules)

module _ {F : Type 0} (ops : FloatOps F) where
  open ops use {decimal, add, sub, mul, div, abs, pow, sum, lt, le, eq, is_finite, round}

  abbrev zero : F
  zero = zero_f ops

  abbrev hundred : F
  hundred = decimal 100 0

  unfoldable pub clamp_pct : F → F
  clamp_pct pct = min_f ops (max_f ops pct zero) hundred

  -- 1.0 - pct / 100.0
  unfoldable pub factor_of : F → F
  factor_of pct = sub (decimal 1 0) (div pct hundred)

  -- the loop of the multiplicative mode: the price and `rules_applied`
  unfoldable pub apply_factors : F → List (DiscountRule F) → F × List (AppliedRule F)
  apply_factors price [] = (price, [])
  apply_factors price (r ∷ rules) =
      let factor = factor_of (clamp_pct r.effect_pct) in
      let (final, applied) = apply_factors (mul price factor) rules in
      (
        final,
        record {
          name = r.name;
          effect_pct = clamp_pct r.effect_pct;
          factor = some (round 6 factor);
        }
            ∷ applied,
      )

  unfoldable pub applied_plainly : DiscountRule F → AppliedRule F
  applied_plainly r = record { name = r.name; effect_pct = clamp_pct r.effect_pct; factor = none }

  unfoldable pub apply_sum : F → List (DiscountRule F) → F × List (AppliedRule F)
  apply_sum base rules =
      let total = min_f ops (sum (map (λ r. clamp_pct r.effect_pct) rules)) hundred in
      (mul base (factor_of total), map applied_plainly rules)

  -- `max(rules, key=…)` is the first of the largest
  unfoldable pub best_rule : DiscountRule F → List (DiscountRule F) → DiscountRule F
  best_rule best [] = best
  best_rule best (r ∷ rules) =
      best_rule (if lt (clamp_pct best.effect_pct) (clamp_pct r.effect_pct) then r else best) rules

  unfoldable pub apply_best : F → List (DiscountRule F) → F × List (AppliedRule F)
  apply_best base [] = (base, [])
  apply_best base (r ∷ rules) =
      let best = best_rule r rules in
      (mul base (factor_of (clamp_pct best.effect_pct)), applied_plainly best ∷ [])

  unfoldable pub apply_rules : DiscountMode → F → List (DiscountRule F) → F × List (AppliedRule F)
  apply_rules multiplicative base rules = apply_factors base rules
  apply_rules additive base rules = apply_sum base rules
  apply_rules best_wins base rules = apply_best base rules
  apply_rules (other mode) base rules = apply_factors base rules

  -- the cap on the discount: the price, and whether the cap was applied
  unfoldable pub apply_cap : F → F → F → F × Bool
  apply_cap cap_pct base price =
      if le zero base
      then (let max_discount = mul base (div cap_pct hundred) in
          if lt max_discount (sub base price)
          then (sub base max_discount, true)
          else (price, false))
      else (let max_reduction = mul (abs base) (div cap_pct hundred) in
          if lt (add base max_reduction) price
          then (add base max_reduction, true)
          else (price, false))

  -- the decay by the meter count; `none` is an OverflowError of `**`
  unfoldable pub decayed_price : PricingRequest F → PricingConfig F → Option F
  decayed_price req config =
      if ltb 0 req.meter_count && not (eq config.decay (decimal 1 0))
      then (elim (pow (min_f ops (max_f ops config.decay (decimal 1 9)) (decimal 2 0))
          req.meter_count) [
            | none ↦ none
            | some decay_factor ↦
                let price = mul req.base_price decay_factor in
                some (
                  if lt req.base_price zero
                  then min_f ops price zero
                  else max_f ops price config.min_price)
          ])
      else some req.base_price

  unfoldable pub dynamic_floor : PricingRequest F → PricingConfig F → F
  dynamic_floor req config = elim req.cost_projection [
    | none ↦ zero
    | some cost ↦ if is_finite cost && lt zero cost then mul cost config.markup_minimum else zero
  ]

  unfoldable pub skill_floor : PricingRequest F → PricingConfig F → F
  skill_floor req config = elim req.skill_min_price [ none ↦ config.min_price | some p ↦ p ]

  -- `_apply_floor`
  unfoldable pub apply_floor :
      F → PricingRequest F → PricingConfig F → List (AppliedRule F) → Bool → PricingResult F
  apply_floor price req config rules_applied cap_applied =
      let floor = max_f ops (dynamic_floor req config) (skill_floor req config) in
      let below_floor = lt price floor in
      let price' = if below_floor then floor else price in
      let global = lt zero config.global_min_price && lt price' config.global_min_price in
      let price'' = if global then config.global_min_price else price' in
      let floor' = if global then max_f ops floor config.global_min_price else floor in
      if lt price zero
      then record {
        final_price = round 6 (min_f ops price zero);
        base_price = req.base_price;
        cost_projection = req.cost_projection;
        rules_applied = rules_applied;
        discount_mode = config.discount_mode;
        floor_price = zero;
        floor_applied = false;
        cap_applied = cap_applied;
      }
      else record {
        final_price = round 6 (max_f ops price'' zero);
        base_price = req.base_price;
        cost_projection = req.cost_projection;
        rules_applied = rules_applied;
        discount_mode = config.discount_mode;
        floor_price = round 6 floor';
        floor_applied = if global then true else below_floor;
        cap_applied = cap_applied;
      }

  -- the discounts, from the decayed price on
  unfoldable pub discounted : F → PricingRequest F → PricingConfig F → PricingResult F
  discounted base req config =
      let effective_cap = clamp_pct config.discount_cap_pct in
      let (price, applied) =
        apply_rules config.discount_mode base (sort_rules req.discount_rules) in
      let (capped, cap_applied) = apply_cap effective_cap base price in
      elim req.discount_rules [
        | [] ↦ apply_floor base req config [] false
        | _ ∷ _ ↦ apply_floor capped req config applied cap_applied
      ]

  abbrev without_rules : F → F → Bool → PricingRequest F → PricingConfig F → PricingResult F
  without_rules final floor floor_applied req config = record {
    final_price = final;
    base_price = req.base_price;
    cost_projection = req.cost_projection;
    rules_applied = [];
    discount_mode = config.discount_mode;
    floor_price = floor;
    floor_applied = floor_applied;
    cap_applied = false;
  }

  -- `none` is an OverflowError.
  unfoldable pub resolve_price : PricingRequest F → PricingConfig F → Option (PricingResult F)
  resolve_price req config =
      if eq req.base_price zero
      then some (record {
        final_price = zero;
        base_price = zero;
        cost_projection = req.cost_projection;
        rules_applied = [];
        discount_mode = config.discount_mode;
        floor_price = zero;
        floor_applied = false;
        cap_applied = false;
      })
      else if not (is_finite req.base_price)
      then some (without_rules config.min_price config.min_price true req config)
      else elim (decayed_price req config) [
        | none ↦ none
        | some base ↦ some (discounted base req config)
      ]
