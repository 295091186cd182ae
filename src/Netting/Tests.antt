-- ===== src/Netting/Tests.antt =====
-- A peer that owes 95 hundredths of its credit, and one that owes nothing.
use knarr.Prelude.{
  ℕ, ◌+◌, ◌≡◌, refl, Option, true, some, [], ◌∷◌, Text, text_eq, codes, length, All,
}
use knarr.Prelude.Sorting
use knarr.Commerce.Float.{zero_f, min_f, max_f}
use knarr.Commerce.Tenths.{tenths}
use knarr.Ledger.Defs.{Ledger, new_entry}
use knarr.Netting.Policy
use knarr.Netting.Policy.{Policies, initial_credit_only}
use knarr.Netting.Defs
use knarr.Netting.Defs.{Config, Queue, Settlement, run_netting_cycle}
use knarr.Netting.Repeat.{HasKey, run_netting_cycle-repeat}

program : Unit {0}
unfolding Defs.is_newer Defs.get_all_ledger_entries Defs.any_pending Defs.has_pending_settlement
    Defs.queue_settlement Defs.order_for Defs.cycle run_netting_cycle Policy.is_in Policy.get_groups
    Policy.given_or Policy.best_limits Policy.old_limits Policy.base_limits Policy.groups_of
    Policy.resolve_policy min_f max_f Sorting.sort_by Sorting.insert_by zero_f text_eq new_entry
program = tt

abbrev config : Config ℕ
config = record { soft_threshold = 8; soft_target = 5; min_amount = 10 }

-- the key itself
id_of_key : Text → Option Text
id_of_key key = some key

-- a peer of the group "vip" has more credit
abbrev policies : Policies ℕ
policies = record {
  base_ic = 60;
  base_mb = 0;
  skill_policies = [];
  groups = some ((codes "vip", codes "a1" ∷ []) ∷ []);
  group_limits = (codes "vip", initial_credit_only 100) ∷ [];
  group_policies = [];
}

abbrev ledger : Ledger ℕ
ledger = record {
  entries = (codes "a1", new_entry tenths 1 5 3) ∷ (codes "b0", new_entry tenths 2 100 3) ∷ [];
  peer_keys = [];
}

abbrev settlement : Settlement ℕ
settlement = record {
  peer_public_key = codes "a1";
  body = record {
    current_balance = 5;
    utilization_pct = 900;
    settle_amount = 45;
    target_balance = 50;
  };
  priority = 2;
  is_pending = true;
}

one_settled :
    run_netting_cycle tenths config (codes "n0") id_of_key policies ledger []
    ≡ (settlement ∷ [], some 1)
unfolding program id_of_key
one_settled = refl

keys : All (HasKey {F = ℕ}) ledger.entries
unfolding program
keys = (refl, (refl, tt))

run_netting_cycle-repeat_example :
    (length (settlement ∷ []) ≡ 1 + length {A = Settlement ℕ} [])
    × (run_netting_cycle tenths config (codes "n0") id_of_key policies ledger (settlement ∷ [])
        ≡ (settlement ∷ [], some 0))
run_netting_cycle-repeat_example =
    run_netting_cycle-repeat tenths config (codes "n0") id_of_key policies ledger []
      (settlement ∷ []) 1 keys one_settled
