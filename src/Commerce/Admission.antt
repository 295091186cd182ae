-- ===== src/Commerce/Admission.antt =====
-- What the gate and the pipeline decide.
use knarr.Prelude.{
  ℕ, ◌≤◌, ◌≡◌, ◌≢◌, ◌⊎◌, true, false, ◌&&◌, ◌||◌, some, ltb, leb, arith, inl, inr, Option-cases,
}
use mathlib.Core.Path.{subst}
use mathlib.Core.Option.{some-injective}
use knarr.Commerce.Float.{FloatOps, FloatLaws, zero_f}
use knarr.Commerce.Prepaid.{deduct}
use knarr.Commerce.Gate.{
  AdmissionRequest, Outcome, accepted, soft_warning, hard_block, free_pass, check_admission,
}
use knarr.Commerce.Pricing.{PricingResult, resolve_price}
use knarr.Commerce.Pipeline.{
  AdmissionContext, AdmissionResult, gate_request, decide, admit, run_admission, pricing_request,
}

-- how good an outcome is for the caller
abbrev pub rank : Outcome → ℕ
rank hard_block = 0
rank soft_warning = 1
rank accepted = 2
rank free_pass = 3

module _ {F : Type 0} (ops : FloatOps F) where
  open ops use {sub, lt, le, eq, is_finite, round}

  -- With a higher balance, and all else the same, the gate decides no worse for the caller: for
  -- floats that keep the order of two balances when the same price is subtracted.
  pub check_admission_mono :
      FloatLaws ops
      → (req : AdmissionRequest F) (higher : F) → le req.balance higher ≡ true
      → rank (check_admission ops req).outcome
        ≤ rank (check_admission ops (record req { balance = higher })).outcome
  unfolding check_admission
  check_admission_mono laws req higher h = ground (
    arith,
    laws.sub_mono req.balance higher req.base_price req.hard_limit h,
    laws.sub_mono req.balance higher req.base_price req.soft_limit h,
  )

  -- below the meter's limit, with a finite price that the caller's balance bears
  abbrev pub IsSafe : AdmissionContext F → AdmissionResult F → Type 0
  IsSafe ctx res =
      let price = res.pricing.final_price in
      ((ltb 0 ctx.meter_max_count && leb ctx.meter_max_count ctx.meter_count) ≡ false)
      × (is_finite price ≡ true)
      × (((ctx.tit_for_tat || le price (zero_f ops)) ≡ true)
          ⊎ (lt (sub ctx.balance price) ctx.hard_limit ≡ false))
      × (res.receipt.outcome ≡ res.gate.outcome)
      × (res.receipt.effective_price ≡ res.gate.effective_price)

  admit-IsSafe :
      (ctx : AdmissionContext F) (pricing : PricingResult F)
      → let res = admit ops ctx pricing in
        res.prepaid.action ≢ deduct → res.gate.outcome ≢ hard_block → IsSafe ctx res
  unfolding admit decide check_admission gate_request
  admit-IsSafe ctx pricing paid open_gate = ground arith

  -- a result of the pipeline is what steps 2 to 4 make of the resolved price
  run_admission-admit :
      (ctx : AdmissionContext F) (res : AdmissionResult F)
      → run_admission ops ctx ≡ some res
      → (pricing : PricingResult F) × (admit ops ctx pricing ≡ res)
  unfolding run_admission
  run_admission-admit ctx res e =
      let resolved = resolve_price ops (pricing_request ctx) ctx.pricing_config in
      elim (Option-cases resolved) [
        | inl miss ↦ absurd (ground arith)
        | inr (pricing, hit) ↦
            let f : some (admit ops ctx pricing) ≡ some res = rw (hit, run_admission) at e in
            (pricing, some-injective _ _ f)
      ]

  -- The pipeline lets a task through, and not on prepaid money, only if the meter is below its
  -- limit, the price is finite, and the price is free for the caller or leaves the balance not
  -- below the hard limit; the receipt says what the gate decided.
  pub run_admission-IsSafe :
      (ctx : AdmissionContext F) (res : AdmissionResult F)
      → run_admission ops ctx ≡ some res
      → res.prepaid.action ≢ deduct
      → res.gate.outcome ≢ hard_block
      → IsSafe ctx res
  run_admission-IsSafe ctx res e paid open_gate =
      let (pricing, f) = run_admission-admit ctx res e in
      subst (λ r. r.prepaid.action ≢ deduct → r.gate.outcome ≢ hard_block → IsSafe ctx r) f
        (admit-IsSafe ctx pricing) paid open_gate
