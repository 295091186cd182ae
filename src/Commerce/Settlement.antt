-- ===== src/Commerce/Settlement.antt =====
-- src/knarr/commerce/settlement_engine.py: whether to settle with a peer, and for how much.
use knarr.Prelude.{
  ◌≡◌, ◌↔◌, true, false, not, ◌&&◌, Option, none, some, List, [], ◌∷◌, Text, if◌then◌else◌, arith,
}
use knarr.Commerce.Float.{FloatOps, zero_f}

pub record SettlementInput (F : Type 0) : Type 0 where
  pub peer_key : Text
  pub balance : F
  pub prepaid : F
  pub pub_tab : F
  pub soft_limit : F
  pub hard_limit : F
  pub credit_limit : F
  pub utilization : F

-- the settings, after the defaults of the code
pub record SettlementConfig (F : Type 0) : Type 0 where
  pub soft_threshold : F
  pub soft_target : F
  pub min_settlement_amount : F

pub data Action : Type 0 where
  settle skip : Action

-- the fields that are checked, in the order of the checks
pub data FieldName : Type 0 where
  balance prepaid pub_tab soft_limit hard_limit credit_limit utilization : FieldName

pub data Reason (F : Type 0) : Type 0 where
  invalid_input : FieldName → Reason F
  no_credit_limit : Reason F
  below_threshold below_minimum above_threshold : F → F → Reason F

pub record SettlementOutput (F : Type 0) : Type 0 where
  pub action : Action
  pub peer_key : Text
  pub amount : F
  pub reason : Reason F
  pub target_utilization : F

module _ {F : Type 0} (ops : FloatOps F) where
  open ops use {decimal, sub, mul, abs, lt, le, is_finite, round}

  abbrev zero : F
  zero = zero_f ops

  -- a fraction from 0 to 1, or its default
  unfoldable pub valid_fraction : F → F → F
  valid_fraction given default =
      if is_finite given && (le zero given && le given (decimal 1 0)) then given else default

  unfoldable pub valid_minimum : F → F
  valid_minimum given = if is_finite given && le zero given then given else decimal 10 0

  unfoldable pub validated : SettlementConfig F → SettlementConfig F
  validated config = record {
    soft_threshold = valid_fraction config.soft_threshold (decimal 8 1);
    soft_target = valid_fraction config.soft_target (decimal 5 1);
    min_settlement_amount = valid_minimum config.min_settlement_amount;
  }

  abbrev checked_fields : SettlementInput F → List (FieldName × F)
  checked_fields inp =
      (FieldName.balance, inp.balance)
      ∷ (FieldName.prepaid, inp.prepaid)
      ∷ (FieldName.pub_tab, inp.pub_tab)
      ∷ (FieldName.soft_limit, inp.soft_limit)
      ∷ (FieldName.hard_limit, inp.hard_limit)
      ∷ (FieldName.credit_limit, inp.credit_limit)
      ∷ (FieldName.utilization, inp.utilization)
      ∷ []

  -- the loop that rejects NaN and the infinities
  unfoldable pub first_invalid : List (FieldName × F) → Option FieldName
  first_invalid [] = none
  first_invalid ((name, value) ∷ fields) =
      if not (is_finite value) then some name else first_invalid fields

  -- what would bring the utilization to the target
  unfoldable pub settlement_amount : SettlementInput F → SettlementConfig F → F
  settlement_amount inp config =
      sub (sub inp.soft_limit (mul config.soft_target inp.credit_limit)) inp.balance

  abbrev skipped : SettlementInput F → SettlementConfig F → Reason F → SettlementOutput F
  skipped inp config reason = record {
    action = skip;
    peer_key = inp.peer_key;
    amount = zero;
    reason = reason;
    target_utilization = config.soft_target;
  }

  -- the decision, for validated settings
  unfoldable pub evaluate_valid : SettlementInput F → SettlementConfig F → SettlementOutput F
  evaluate_valid inp config =
      let amount = settlement_amount inp config in
      elim (first_invalid (checked_fields inp)) [
        | some name ↦ skipped inp config (invalid_input name)
        | none ↦
            if le inp.credit_limit zero
            then skipped inp config no_credit_limit
            else if lt (abs inp.utilization) config.soft_threshold
            then skipped inp config (below_threshold (abs inp.utilization) config.soft_threshold)
            else if lt (abs amount) config.min_settlement_amount
            then skipped inp config (below_minimum amount config.min_settlement_amount)
            else record {
              action = settle;
              peer_key = inp.peer_key;
              amount = round 6 amount;
              reason = above_threshold (abs inp.utilization) config.soft_threshold;
              target_utilization = config.soft_target;
            }
      ]

  unfoldable pub evaluate_settlement : SettlementInput F → SettlementConfig F → SettlementOutput F
  evaluate_settlement inp config = evaluate_valid inp (validated config)

  -- All the numbers of the input are finite.
  abbrev pub AllFinite : SettlementInput F → Type 0
  AllFinite inp =
      (is_finite inp.balance ≡ true)
      × (is_finite inp.prepaid ≡ true)
      × (is_finite inp.pub_tab ≡ true)
      × (is_finite inp.soft_limit ≡ true)
      × (is_finite inp.hard_limit ≡ true)
      × (is_finite inp.credit_limit ≡ true)
      × (is_finite inp.utilization ≡ true)

  -- When a settlement is due.
  abbrev pub IsDue : SettlementInput F → SettlementConfig F → Type 0
  IsDue inp config =
      AllFinite inp
      × (le inp.credit_limit zero ≡ false)
      × (lt (abs inp.utilization) config.soft_threshold ≡ false)
      × (lt (abs (settlement_amount inp config)) config.min_settlement_amount ≡ false)

  -- The settlement is made exactly if all numbers are finite, there is a credit limit, the
  -- utilization is not below the validated threshold and the amount is not below the validated
  -- minimum; it then is for the rounded amount. Otherwise nothing is settled and the amount is zero.
  pub evaluate_settlement-exact :
      (inp : SettlementInput F) (config : SettlementConfig F)
      → let out = evaluate_settlement inp config in
        ((out.action ≡ settle) ↔ IsDue inp (validated config))
        × (out.amount ≡ (elim out.action [
          | settle ↦ round 6 (settlement_amount inp (validated config))
          | skip ↦ zero
        ]))
        × (out.peer_key ≡ inp.peer_key)
  unfolding evaluate_settlement evaluate_valid first_invalid
  evaluate_settlement-exact inp config = ground arith
