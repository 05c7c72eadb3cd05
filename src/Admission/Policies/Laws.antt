-- ===== src/Admission/Policies/Laws.antt =====
-- Which requests the policies deny (backend/app/services/policy_service/service.py).
use devnest.Base.{
  ℕ, ◌≡◌, refl, Bool, true, false, ◌&&◌, ◌||◌, not, Option, none, some, List, [], ◌∷◌, any, select,
  if◌then◌else◌, arith, Text, is_some, ◌∙◌, ap,
}
use devnest.Model.Rows.{Policy}
use devnest.Admission.{Denial, ◌then◌}
use devnest.Admission.Policies.{
  by_created_at, insert, evaluate, applies, load_applicable_policies, rule,
  evaluate_workspace_start, evaluate_workspace_creation, image_allowed,
}

module _ (denies : Policy → Option Denial) where
  is_some-evaluate :
      (ps : List Policy) → is_some (evaluate denies ps) ≡ any (λ p. is_some (denies p)) ps
  unfolding evaluate
  is_some-evaluate [] = refl
  is_some-evaluate (p ∷ ps) = by_first (denies p) (is_some-evaluate ps)
    where
      by_first :
          (d : Option Denial)
          → is_some (evaluate denies ps) ≡ any (λ p. is_some (denies p)) ps
          → is_some (d then evaluate denies ps) ≡ is_some d || any (λ p. is_some (denies p)) ps
      by_first none h = h
      by_first (some d) h = refl

any-insert :
    (t : Policy → Bool) (p : Policy) (ps : List Policy) → any t (insert p ps) ≡ t p || any t ps
unfolding insert
any-insert t p [] = refl
any-insert t p (q ∷ ps) = ground (arith, any-insert t p ps)

any-by_created_at : (t : Policy → Bool) (ps : List Policy) → any t (by_created_at ps) ≡ any t ps
unfolding by_created_at
any-by_created_at t [] = refl
any-by_created_at t (p ∷ ps) =
    any-insert t p (by_created_at ps) ∙ ap (λ b. t p || b) (any-by_created_at t ps)

any-select :
    (t keep : Policy → Bool) (ps : List Policy)
    → any t (select keep ps) ≡ any (λ p. keep p && t p) ps
any-select t keep [] = refl
any-select t keep (p ∷ ps) = ground (arith, any-select t keep ps)

-- The order of the rows decides nothing but whose name the denial bears.
denied_by_any :
    (denies : Policy → Option Denial) (owner wid : Option ℕ) (policies : List Policy)
    → is_some (evaluate denies (load_applicable_policies owner wid policies))
      ≡ any (λ p. applies owner wid p && is_some (denies p)) policies
unfolding load_applicable_policies
denied_by_any denies owner wid policies =
    is_some-evaluate denies (by_created_at (select (applies owner wid) policies))
    ∙ any-by_created_at (λ p. is_some (denies p)) (select (applies owner wid) policies)
    ∙ any-select (λ p. is_some (denies p)) (applies owner wid) policies

any-same :
    (t t' : Policy → Bool) (ps : List Policy) → ((p : Policy) → t p ≡ t' p) → any t ps ≡ any t' ps
any-same t t' [] h = refl
any-same t t' (p ∷ ps) h = rw (h p, any-same t t' ps h) refl

-- A start is denied exactly where an active policy that is global, or the owner's, or the
-- workspace's, says that workspaces may not be started: the order of the policies does not matter.
pub evaluate_workspace_start-any :
    (policies : List Policy) (owner wid : ℕ)
    → is_some (evaluate_workspace_start policies owner wid)
      ≡ any
          (λ p.
            applies (some owner) (some wid) p && not (rule p.rules_json.allow_workspace_start true))
          policies
unfolding evaluate_workspace_start
evaluate_workspace_start-any policies owner wid =
    denied_by_any _ (some owner) (some wid) policies ∙ any-same _ _ policies (λ p. ground arith)

-- A creation is denied exactly where an applicable policy forbids it, lists images without the
-- image that is asked for, or wants private workspaces where this one is not: the order of the
-- policies does not matter.
pub evaluate_workspace_creation-any :
    (policies : List Policy) (owner : ℕ) (image : Text) (is_private : Bool)
    → is_some (evaluate_workspace_creation policies owner image is_private)
      ≡ any
          (λ p.
            applies (some owner) none p
            && (not (rule p.rules_json.allow_workspace_creation true)
                || not (image_allowed image p.rules_json.allowed_runtime_images)
                || (not is_private && rule p.rules_json.require_private_workspaces false)))
          policies
unfolding evaluate_workspace_creation
evaluate_workspace_creation-any policies owner image is_private =
    denied_by_any _ (some owner) none policies ∙ any-same _ _ policies (λ p. ground arith)
