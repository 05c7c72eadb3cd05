-- ===== src/Admission/Quotas.antt =====
-- backend/app/services/quota_service/service.py
use devnest.Base.{
  ℕ, ◌+◌, Bool, true, false, ◌&&◌, not, Option, none, some, List, if◌then◌else◌, leb, ltb, ◌==◌,
  first, any, count, sum_of, is_some,
}
use devnest.Model.Enums.{WorkspaceStatus, WorkspaceSnapshotStatus}
use devnest.Model.Rows.{Workspace, WorkspaceRuntime, WorkspaceSnapshot, Quota}
use devnest.Model.Logs.{UsageEventType, WorkspaceUsageRecord}
use devnest.Admission.{
  Denial, quota_exceeded, QuotaField, is_global, is_user, is_workspace, has_scope_id, ◌then◌,
}

abbrev pub counts_as_active : WorkspaceStatus → Bool
counts_as_active WorkspaceStatus.deleting = false
counts_as_active WorkspaceStatus.deleted = false
counts_as_active _ = true

abbrev pub counts_as_running : WorkspaceStatus → Bool
counts_as_running WorkspaceStatus.running = true
counts_as_running WorkspaceStatus.pending = true
counts_as_running WorkspaceStatus.starting = true
counts_as_running WorkspaceStatus.restarting = true
counts_as_running _ = false

abbrev counts_for_snapshots : WorkspaceSnapshotStatus → Bool
counts_for_snapshots WorkspaceSnapshotStatus.failed = false
counts_for_snapshots _ = true

abbrev for_workspace : ℕ → Quota → Bool
for_workspace i q = is_workspace q.scope_type && has_scope_id q.scope_id i

abbrev for_user : ℕ → Quota → Bool
for_user i q = is_user q.scope_type && has_scope_id q.scope_id i

abbrev for_all : Quota → Bool
for_all q = is_global q.scope_type && not (is_some q.scope_id)

abbrev found_for : (ℕ → Quota → Bool) → Option ℕ → List Quota → Option Quota
found_for p none quotas = none
found_for p (some i) quotas = first (p i) quotas

unfoldable pub get_effective_quota : Option ℕ → Option ℕ → List Quota → Option Quota
get_effective_quota owner wid quotas = elim (found_for for_workspace wid quotas) [
  | some q ↦ some q
  | none ↦ (elim (found_for for_user owner quotas) [
    | some q ↦ some q
    | none ↦ first for_all quotas
  ])
]

-- The limit that the quota in force sets.
abbrev pub limit_of : (Quota → Option ℕ) → Option Quota → Option ℕ
limit_of f none = none
limit_of f (some q) = f q

-- `if current >= limit: _exceed_and_raise(...)`
abbrev pub deny_at : QuotaField → Option ℕ → ℕ → Option Denial
deny_at f none current = none
deny_at f (some limit) current =
    if leb limit current then some (quota_exceeded f limit current) else none

-- `if current > limit: _exceed_and_raise(...)`
abbrev pub deny_over : QuotaField → Option ℕ → ℕ → Option Denial
deny_over f none current = none
deny_over f (some limit) current =
    if ltb limit current then some (quota_exceeded f limit current) else none

unfoldable pub check_workspace_quota : List Quota → List Workspace → ℕ → Option Denial
unfolding get_effective_quota
check_workspace_quota quotas workspaces owner =
    deny_at QuotaField.max_workspaces
      (limit_of (λ q. q.max_workspaces) (get_effective_quota (some owner) none quotas))
      (count (λ w. w.owner_user_id == owner && counts_as_active w.status) workspaces)

abbrev is_stopped_session : UsageEventType → Bool
is_stopped_session UsageEventType.workspace_stopped = true
is_stopped_session _ = false

-- Seconds against seconds, in place of hours against hours.
unfoldable pub check_monthly_runtime_hours_quota :
    List Quota → List WorkspaceUsageRecord → ℕ → ℕ → Option Denial
unfolding get_effective_quota
check_monthly_runtime_hours_quota quotas usages month_start owner =
    deny_at QuotaField.max_runtime_hours
      (limit_of (λ q. q.max_runtime_hours) (get_effective_quota (some owner) none quotas))
      (sum_of
        (λ u.
          u.owner_user_id == owner
          && is_stopped_session u.event_type
          && leb month_start u.created_at)
        (λ u. u.quantity) usages)

abbrev not_ignored : Option ℕ → ℕ → Bool
not_ignored none i = true
not_ignored (some j) i = not (i == j)

-- The runtime's join partner is the owner's and is not the one to ignore.
abbrev counts_for : ℕ → Option ℕ → List Workspace → WorkspaceRuntime → Bool
counts_for owner ignore workspaces r =
    any
      (λ w.
        w.workspace_id == r.workspace_id
        && w.owner_user_id == owner
        && not_ignored ignore w.workspace_id)
      workspaces

unfoldable pub check_owner_compute_quota :
    List Quota → List Workspace → List WorkspaceRuntime → ℕ → ℕ → ℕ → Option ℕ → Option Denial
unfolding get_effective_quota
check_owner_compute_quota quotas workspaces runtimes owner proposed_cpu proposed_memory_mb ignore =
    let quota = get_effective_quota (some owner) none quotas in
    let mine = counts_for owner ignore workspaces in
    deny_over QuotaField.max_cpu (limit_of (λ q. q.max_cpu) quota)
      (sum_of mine (λ r. r.reserved_cpu) runtimes + proposed_cpu)
    then deny_over QuotaField.max_memory_mb (limit_of (λ q. q.max_memory_mb) quota)
        (sum_of mine (λ r. r.reserved_memory_mb) runtimes + proposed_memory_mb)

unfoldable pub check_running_workspace_quota :
    List Quota → List Workspace → ℕ → Option ℕ → Option Denial
unfolding get_effective_quota
check_running_workspace_quota quotas workspaces owner wid =
    deny_at QuotaField.max_running_workspaces
      (limit_of (λ q. q.max_running_workspaces) (get_effective_quota (some owner) none quotas))
      (count
        (λ w.
          w.owner_user_id == owner && counts_as_running w.status && not_ignored wid w.workspace_id)
        workspaces)

unfoldable pub check_snapshot_quota : List Quota → List WorkspaceSnapshot → ℕ → ℕ → Option Denial
unfolding get_effective_quota
check_snapshot_quota quotas snapshots wid owner =
    deny_at QuotaField.max_snapshots
      (limit_of (λ q. q.max_snapshots) (get_effective_quota (some owner) (some wid) quotas))
      (count (λ s. s.workspace_id == wid && counts_for_snapshots s.status) snapshots)

unfoldable pub check_session_quota : List Quota → ℕ → ℕ → ℕ → Option Denial
unfolding get_effective_quota
check_session_quota quotas wid owner current_session_count =
    deny_at QuotaField.max_sessions
      (limit_of (λ q. q.max_sessions) (get_effective_quota (some owner) (some wid) quotas))
      current_session_count
