-- ===== src/Netting/Policy.antt =====
-- `_resolve_policy` of src/knarr/dht/node.py and `DefaultGroupEngine` of src/knarr/core/groups.py: the
-- credit that a peer has. The configuration's numbers are floats already. `node_id_of` is
-- `sha256(bytes.fromhex(key)).hexdigest()`, where `none` is a ValueError.
use knarr.Prelude.{
  Bool, true, false, Option, none, some, List, [], ◌∷◌, Text, text_eq, if◌then◌else◌,
}
use knarr.Prelude.Dict.{Dict, lookup}
use knarr.Commerce.Float.{FloatOps, min_f, max_f}

pub record SkillPolicy (F : Type 0) : Type 0 where
  pub initial_credit : Option F
  pub min_balance : Option F

-- an entry of `credit.group_limits`: a table, or an initial credit alone
pub data GroupLimit (F : Type 0) : Type 0 where
  limits : Option F → Option F → GroupLimit F
  initial_credit_only : F → GroupLimit F

pub record GroupPolicy (F : Type 0) : Type 0 where
  pub members : List Text
  pub initial_credit : F
  pub min_balance : F

-- What the node holds; `base_ic` and `base_mb` are from the economy's configuration, or else from
-- the default policy. The groups of an id are none without a group engine.
pub record Policies (F : Type 0) : Type 0 where
  pub base_ic : F
  pub base_mb : F
  pub skill_policies : Dict (SkillPolicy F)
  pub groups : Option (Dict (List Text))
  pub group_limits : Dict (GroupLimit F)
  pub group_policies : List (GroupPolicy F)

unfoldable pub is_in : Text → List Text → Bool
is_in t [] = false
is_in t (s ∷ texts) = if text_eq s t then true else is_in t texts

unfoldable pub get_groups : Dict (List Text) → Text → List Text
get_groups [] item_id = []
get_groups ((g, members) ∷ groups) item_id =
    if is_in item_id members then g ∷ get_groups groups item_id else get_groups groups item_id

module _ {F : Type 0} where
  unfoldable pub given_or : F → Option F → F
  given_or base none = base
  given_or base (some x) = x

  module _ (ops : FloatOps F) where
    -- the best of the limits of the groups, and whether one was found
    unfoldable pub best_limits :
        Dict (GroupLimit F) → F → F → List Text → F × F × Bool → F × F × Bool
    best_limits credit_cfg base_ic base_mb [] best = best
    best_limits credit_cfg base_ic base_mb (g ∷ groups) (ic, mb, matched) =
        elim (lookup g credit_cfg) [
          | none ↦ best_limits credit_cfg base_ic base_mb groups (ic, mb, matched)
          | some (limits gic gmb) ↦
              best_limits credit_cfg base_ic base_mb groups
                (max_f ops ic (given_or base_ic gic), min_f ops mb (given_or base_mb gmb), true)
          | some (initial_credit_only gic) ↦
              best_limits credit_cfg base_ic base_mb groups
                (max_f ops ic gic, min_f ops mb base_mb, true)
        ]

    -- the first of the old policies with the node as a member
    unfoldable pub old_limits : List (GroupPolicy F) → Text → F × F → F × F
    old_limits [] node_id best = best
    old_limits (gp ∷ group_policies) node_id (ic, mb) =
        if is_in node_id gp.members
        then (max_f ops ic gp.initial_credit, min_f ops mb gp.min_balance)
        else old_limits group_policies node_id (ic, mb)

    unfoldable pub base_limits : Policies F → Text → F × F
    base_limits p skill_name = elim (lookup skill_name p.skill_policies) [
      | none ↦ (p.base_ic, p.base_mb)
      | some s ↦ (given_or p.base_ic s.initial_credit, given_or p.base_mb s.min_balance)
    ]

    unfoldable pub groups_of : Policies F → Text → List Text
    groups_of p node_id = elim p.groups [ none ↦ [] | some groups ↦ get_groups groups node_id ]

    -- `none` is a ValueError.
    unfoldable pub resolve_policy : (Text → Option Text) → Policies F → Text → Text → Option (F × F)
    resolve_policy node_id_of p public_key skill_name =
        let (base_ic, base_mb) = base_limits p skill_name in
        elim (node_id_of public_key) [
          | none ↦ none
          | some node_id ↦
              let (ic, mb, matched) =
                best_limits p.group_limits base_ic base_mb (groups_of p node_id)
                  (base_ic, base_mb, false) in
              some (if matched then (ic, mb) else old_limits p.group_policies node_id (ic, mb))
        ]
