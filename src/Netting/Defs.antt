-- ===== src/Netting/Defs.antt =====
-- `run_netting_cycle` of src/knarr/commerce/netting.py, over the ledger and the table
-- `settlement_queue` of src/knarr/dht/storage.py. A policy is what `_resolve_policy` gives for a key,
-- where `none` is its ValueError for a key that is not hexadecimal. Of the columns of the queue those are left out that the cycle only
-- fills in: the nodes' ids, the time and the address.
use knarr.Prelude.{
  ℕ, suc, Bool, true, false, ◌&&◌, Option, none, some, List, [], ◌∷◌, ◌++◌, Text, text_eq, leb,
  if◌then◌else◌,
}
use knarr.Prelude.Dict.{Dict}
use knarr.Prelude.Sorting.{sort_by}
use knarr.Commerce.Float.{FloatOps, zero_f}
use knarr.Ledger.Defs.{Entry, Ledger}
use knarr.Netting.Policy.{Policies, resolve_policy}

pub record Config (F : Type 0) : Type 0 where
  pub soft_threshold : F
  pub soft_target : F
  pub min_amount : F

-- the body of a settlement order
pub record Order (F : Type 0) : Type 0 where
  pub current_balance : F
  pub utilization_pct : F
  pub settle_amount : F
  pub target_balance : F

-- a row of the queue; the status is whether it is 'pending'
pub record Settlement (F : Type 0) : Type 0 where
  pub peer_public_key : Text
  pub body : Order F
  pub priority : ℕ
  pub is_pending : Bool

abbrev pub Queue : Type 0 → Type 0
Queue F = List (Settlement F)

module _ {F : Type 0} where
  -- `ORDER BY last_updated DESC`
  unfoldable pub is_newer : Text × Entry F → Text × Entry F → Bool
  is_newer r s = leb s.1.last_updated r.1.last_updated

  unfoldable pub get_all_ledger_entries : Ledger F → Dict (Entry F)
  get_all_ledger_entries l = sort_by is_newer l.entries

  -- the SELECT of `has_pending_settlement`
  unfoldable pub any_pending : Text → Queue F → Bool
  any_pending key [] = false
  any_pending key (s ∷ queue) =
      if text_eq s.peer_public_key key && s.is_pending then true else any_pending key queue

  unfoldable pub has_pending_settlement : Text → Queue F → Bool
  has_pending_settlement [] queue = false
  has_pending_settlement (c ∷ key) queue = any_pending (c ∷ key) queue

  -- The row for an order of the cycle. For an empty key the column has the node's own key, or its id
  -- where that is not known, which is the first argument.
  unfoldable pub queue_settlement : Text → Text → Order F → Queue F → Queue F
  queue_settlement own [] body queue =
      queue ++ record { peer_public_key = own; body = body; priority = 2; is_pending = true } ∷ []
  queue_settlement own (c ∷ key) body queue =
      queue
      ++ record { peer_public_key = c ∷ key; body = body; priority = 2; is_pending = true } ∷ []

  module _ (ops : FloatOps F) where
    open ops use {decimal, sub, mul, div, lt, le, round}

    -- what is to be settled for a balance under a policy; none where the cycle goes on before
    unfoldable pub order_for : Config F → F → F → F → Option (Order F)
    order_for config balance ic mb =
        let credit_range = sub ic mb in
        let utilization = div (sub ic balance) credit_range in
        let target_balance = sub ic (mul config.soft_target credit_range) in
        let settle_amount = sub target_balance balance in
        if le credit_range (zero_f ops)
        then none
        else if lt utilization config.soft_threshold
        then none
        else if lt settle_amount config.min_amount
        then none
        else some (record {
          current_balance = round 2 balance;
          utilization_pct = round 1 (mul utilization (decimal 100 0));
          settle_amount = round 2 settle_amount;
          target_balance = round 2 target_balance;
        })

    module _ (config : Config F) (own : Text) where
      -- the loop, with the queue and the count; no count where a policy raises
      unfoldable pub cycle :
          (Text → Option (F × F)) → Dict (Entry F) → Queue F → ℕ → Queue F × Option ℕ
      cycle policy [] queue queued = (queue, some queued)
      cycle policy ((pk, e) ∷ entries) queue queued = elim (policy pk) [
        | none ↦ (queue, none)
        | some (ic, mb) ↦ elim (order_for config e.balance ic mb) [
          | none ↦ cycle policy entries queue queued
          | some body ↦ elim (has_pending_settlement pk queue) [
            | true ↦ cycle policy entries queue queued
            | false ↦ cycle policy entries (queue_settlement own pk body queue) (suc queued)
          ]
        ]
      ]

      unfoldable pub run_netting_cycle :
          (Text → Option Text) → Policies F → Ledger F → Queue F → Queue F × Option ℕ
      run_netting_cycle node_id_of policies l queue =
          cycle (λ pk. resolve_policy ops node_id_of policies pk []) (get_all_ledger_entries l)
            queue 0
