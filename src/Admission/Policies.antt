-- ===== src/Admission/Policies.antt =====
-- backend/app/services/policy_service/service.py
pub mod Laws
use devnest.Base.{
  ℕ, Bool, true, false, ◌&&◌, ◌||◌, not, Option, none, some, List, [], ◌∷◌, if◌then◌else◌, leb,
  select, any, Text, text_eq, is_empty,
}
use devnest.Model.Rows.{Policy, Rules}
use devnest.Admission.{
  Denial, policy_violation, PolicyRule, is_global, is_user, is_workspace, has_scope_id, ◌then◌,
}

insert : Policy → List Policy → List Policy
insert p [] = p ∷ []
insert p (q ∷ qs) =
    let rest = insert p qs in if leb p.created_at q.created_at then p ∷ q ∷ qs else q ∷ rest

-- `order_by(created_at)`
unfoldable by_created_at : List Policy → List Policy
unfolding insert
by_created_at [] = []
by_created_at (p ∷ ps) = insert p (by_created_at ps)

abbrev is_for : Option ℕ → Option ℕ → Bool
is_for scope_id none = false
is_for scope_id (some i) = has_scope_id scope_id i

abbrev pub applies : Option ℕ → Option ℕ → Policy → Bool
applies owner wid p =
    p.is_active
    && (is_global p.scope_type
        || (is_user p.scope_type && is_for p.scope_id owner)
        || (is_workspace p.scope_type && is_for p.scope_id wid))

unfoldable pub load_applicable_policies : Option ℕ → Option ℕ → List Policy → List Policy
unfolding by_created_at
load_applicable_policies owner wid policies = by_created_at (select (applies owner wid) policies)

-- `_rule(rules, key, default)`
abbrev pub rule : Option Bool → Bool → Bool
rule none default = default
rule (some v) default = v

-- The first of the policies that denies.
unfoldable pub evaluate : (Policy → Option Denial) → List Policy → Option Denial
evaluate denies [] = none
evaluate denies (p ∷ ps) = denies p then evaluate denies ps

abbrev pub deny_unless : PolicyRule → (Rules → Option Bool) → Policy → Option Denial
deny_unless r key p =
    if rule (key p.rules_json) true then none else some (policy_violation p.policy_id r)

abbrev pub image_allowed : Text → Option (List Text) → Bool
image_allowed image none = true
image_allowed image (some allowed) = is_empty image || any (text_eq image) allowed

abbrev pub deny_creation : Text → Bool → Policy → Option Denial
deny_creation image is_private p =
    deny_unless PolicyRule.workspace_creation (λ r. r.allow_workspace_creation) p
    then (if image_allowed image p.rules_json.allowed_runtime_images
        then none
        else some (policy_violation p.policy_id PolicyRule.runtime_image))
    then (if not is_private && rule p.rules_json.require_private_workspaces false
        then some (policy_violation p.policy_id PolicyRule.private_workspaces)
        else none)

-- An image that is absent is the empty text.
unfoldable pub evaluate_workspace_creation : List Policy → ℕ → Text → Bool → Option Denial
unfolding evaluate load_applicable_policies
evaluate_workspace_creation policies owner image is_private =
    evaluate (deny_creation image is_private) (load_applicable_policies (some owner) none policies)

unfoldable pub evaluate_workspace_start : List Policy → ℕ → ℕ → Option Denial
unfolding evaluate load_applicable_policies
evaluate_workspace_start policies owner wid =
    evaluate (deny_unless PolicyRule.workspace_start (λ r. r.allow_workspace_start))
      (load_applicable_policies (some owner) (some wid) policies)

unfoldable pub evaluate_snapshot_creation : List Policy → ℕ → ℕ → Option Denial
unfolding evaluate load_applicable_policies
evaluate_snapshot_creation policies owner wid =
    evaluate (deny_unless PolicyRule.snapshot_creation (λ r. r.allow_snapshot_creation))
      (load_applicable_policies (some owner) (some wid) policies)

unfoldable pub evaluate_session_creation : List Policy → ℕ → ℕ → Option Denial
unfolding evaluate load_applicable_policies
evaluate_session_creation policies owner wid =
    evaluate (deny_unless PolicyRule.session_creation (λ r. r.allow_session_creation))
      (load_applicable_policies (some owner) (some wid) policies)

unfoldable pub evaluate_node_provisioning : List Policy → Option Denial
unfolding evaluate load_applicable_policies
evaluate_node_provisioning policies =
    evaluate (deny_unless PolicyRule.node_provisioning (λ r. r.allow_node_provisioning))
      (load_applicable_policies none none policies)
