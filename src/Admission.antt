-- ===== src/Admission.antt =====
-- What a user's request must pass before it is queued: the quotas
-- (backend/app/services/quota_service/service.py) and the policies
-- (backend/app/services/policy_service/service.py). An exception that is raised is a value of
-- `Denial`.
pub mod Quotas
pub mod Policies
use devnest.Base.{ℕ, Bool, true, false, Option, none, some, ◌==◌}
use devnest.Model.Enums.{ScopeType}
use devnest.Model.Logs.{AuditAction, AuditActorType, AuditOutcome, AuditLog}

-- The limit that `QuotaExceededError` names.
pub data QuotaField : Type 0 where
  max_workspaces max_runtime_hours max_cpu max_memory_mb max_running_workspaces max_snapshots
        max_sessions :
      QuotaField

-- Why a policy denies.
pub data PolicyRule : Type 0 where
  workspace_creation runtime_image private_workspaces workspace_start snapshot_creation
        session_creation node_provisioning :
      PolicyRule

-- `QuotaExceededError` with the limit and the current value, and `PolicyViolationError` with the
-- policy.
pub data Denial : Type 0 where
  quota_exceeded : QuotaField → ℕ → ℕ → Denial
  policy_violation : ℕ → PolicyRule → Denial

abbrev denied_by : AuditAction → Option ℕ → Option ℕ → AuditLog
denied_by action owner wid = record {
  action = action;
  actor_user_id = owner;
  actor_type = elim owner [
    | some u ↦ (elim (u == 0) [ true ↦ AuditActorType.system | false ↦ AuditActorType.user ])
    | none ↦ AuditActorType.system
  ];
  outcome = AuditOutcome.denied;
  workspace_id = wid;
  job_id = none;
  node_id = none;
}

-- The checks that name the workspace in the audit row.
abbrev names_workspace : Denial → Bool
names_workspace (quota_exceeded QuotaField.max_running_workspaces limit current) = true
names_workspace (quota_exceeded QuotaField.max_snapshots limit current) = true
names_workspace (quota_exceeded QuotaField.max_sessions limit current) = true
names_workspace (quota_exceeded _ limit current) = false
names_workspace (policy_violation p PolicyRule.workspace_start) = true
names_workspace (policy_violation p PolicyRule.snapshot_creation) = true
names_workspace (policy_violation p PolicyRule.session_creation) = true
names_workspace (policy_violation p _) = false

abbrev audit_action : Denial → AuditAction
audit_action (quota_exceeded f limit current) = AuditAction.quota_exceeded
audit_action (policy_violation p r) = AuditAction.policy_denied

-- The audit row that is committed before the exception is raised.
unfoldable pub denial_audit : Denial → Option ℕ → Option ℕ → AuditLog
denial_audit d owner wid =
    denied_by (audit_action d) owner (elim (names_workspace d) [ true ↦ wid | false ↦ none ])

-- The scopes of a row: its kind, and the row that it is for.
abbrev pub is_global : ScopeType → Bool
is_global ScopeType.global = true
is_global _ = false

abbrev pub is_user : ScopeType → Bool
is_user ScopeType.user = true
is_user _ = false

abbrev pub is_workspace : ScopeType → Bool
is_workspace ScopeType.workspace = true
is_workspace _ = false

abbrev pub has_scope_id : Option ℕ → ℕ → Bool
has_scope_id none i = false
has_scope_id (some j) i = j == i

-- A check that raises stops those after it.
infixr 4 ◌then◌
abbrev pub ◌then◌ : Option Denial → Option Denial → Option Denial
none then d = d
some e then d = some e
