-- ===== src/Intent/Create.antt =====
-- `create_workspace` and `enqueue_reconcile_runtime_job` (workspace_intent_service.py). The row of the
-- local node that `ensure_default_local_execution_node` makes sure of is left out, and so are the
-- names of a workspace.
use devnest.Base.{
  ℕ, Bool, true, false, ◌&&◌, ◌||◌, not, Option, none, some, List, [], ◌∷◌, ◌++◌, ◌==◌,
  if◌then◌else◌, ltb, leb, first, Text, text, ◌+◌,
}
use devnest.Model.Enums.{WorkspaceStatus, WorkspaceJobType, is_busy, is_queued, is_job_running}
use devnest.Model.Rows.{Workspace, WorkspaceJob, WorkspaceConfig}
use devnest.Model.Logs.{AuditAction, UsageEventType}
use devnest.Model.Env.{Env}
use devnest.Admission.{Denial, denial_audit, ◌then◌}
use devnest.Admission.Quotas.{
  check_workspace_quota, check_running_workspace_quota, check_monthly_runtime_hours_quota,
  check_owner_compute_quota,
}
use devnest.Admission.Policies.{evaluate_workspace_creation}
use devnest.Intent.{
  Requested, rejected, accepted, not_found, busy, invalid_state, scheduling_invalid, denied,
  latest_config, new_job, intent_queued, requested_audit, number_or, delete_allowed,
}
use devnest.Worker.Db.{Db, has_workspace_id}

-- The parts of `CreateWorkspaceRequest` that decide; an image that is absent is the empty text.
pub record CreateWorkspaceRequest : Type 0 where
  pub cpu_limit_cores : Option ℕ
  pub memory_limit_mib : Option ℕ
  pub image : Text
  pub is_private : Option Bool

abbrev private_or_true : Option Bool → Bool
private_or_true none = true
private_or_true (some b) = b

abbrev pub requested_cpu : CreateWorkspaceRequest → ℕ
requested_cpu body = number_or body.cpu_limit_cores 1000

abbrev pub requested_memory : CreateWorkspaceRequest → ℕ
requested_memory body = number_or body.memory_limit_mib 512

unfoldable pub create_checks : Env → Db → ℕ → CreateWorkspaceRequest → Option Denial
unfolding check_workspace_quota check_running_workspace_quota check_monthly_runtime_hours_quota
    check_owner_compute_quota evaluate_workspace_creation
create_checks env db owner body =
    check_workspace_quota db.quotas db.workspaces owner
    then check_running_workspace_quota db.quotas db.workspaces owner none
    then check_monthly_runtime_hours_quota db.quotas db.usages (env.month_start env.now) owner
    then check_owner_compute_quota db.quotas db.workspaces db.runtimes owner (requested_cpu body)
        (requested_memory body) none
    then evaluate_workspace_creation db.policies owner body.image (private_or_true body.is_private)

abbrev pub new_workspace : ℕ → ℕ → ℕ → Bool → Workspace
new_workspace now wid owner is_private = record {
  workspace_id = wid;
  execution_node_id = none;
  owner_user_id = owner;
  status = WorkspaceStatus.pending;
  status_reason = some (text "Preparing capacity...");
  last_error_code = none;
  last_error_message = none;
  endpoint_ref = none;
  active_sessions_count = 0;
  is_private = is_private;
  updated_at = now;
  last_started = none;
  last_stopped = none;
}

abbrev insert_workspace : Env → ℕ → ℕ → ℕ → CreateWorkspaceRequest → Db → Requested
insert_workspace env wid job_id owner body db =
    let ws = new_workspace env.now wid owner (private_or_true body.is_private) in
    let job = new_job env.now job_id WorkspaceJobType.create wid owner 1 in
    let config : WorkspaceConfig = record {
      workspace_id = wid;
      version = 1;
      cpu_limit_cores = body.cpu_limit_cores;
      memory_limit_mib = body.memory_limit_mib;
    } in
    accepted job (record db {
      workspaces = db.workspaces ++ ws ∷ [];
      jobs = db.jobs ++ job ∷ [];
      configs = db.configs ++ config ∷ [];
      events = db.events ++ intent_queued ws job_id ∷ [];
      audits =
          db.audits ++ requested_audit AuditAction.workspace_create_requested owner wid job_id ∷ [];
      usages =
          db.usages
          ++ record {
            workspace_id = wid;
            owner_user_id = owner;
            event_type = UsageEventType.workspace_created;
            quantity = 1;
            node_id = none;
            job_id = none;
            created_at = env.now;
          }
            ∷ [];
    })

unfoldable pub create_workspace : Env → ℕ → ℕ → ℕ → CreateWorkspaceRequest → Db → Requested
unfolding create_checks denial_audit
create_workspace env wid job_id owner body db = elim (create_checks env db owner body) [
  | some d ↦
      rejected (denied d)
        (record db { audits = db.audits ++ denial_audit d (some owner) none ∷ [] })
  | none ↦
      if leb (requested_cpu body) 0 || leb (requested_memory body) 0
      then rejected scheduling_invalid db
      else insert_workspace env wid job_id owner body db
]

abbrev is_reconcile : WorkspaceJobType → Bool
is_reconcile WorkspaceJobType.reconcile_runtime = true
is_reconcile _ = false

-- A reconcile job of the workspace that is queued or running.
abbrev pub is_pending_reconcile : ℕ → WorkspaceJob → Bool
is_pending_reconcile wid j =
    j.workspace_id == wid
    && is_reconcile j.job_type
    && (is_queued j.status || is_job_running j.status)

abbrev pub started_within : ℕ → ℕ → Option ℕ → Bool
started_within now ttl none = false
started_within now ttl (some started) = ltb now (started + ttl)

-- Whether `_check_reconcile_lease` raises.
unfoldable pub reconcile_lease_held : Env → ℕ → List WorkspaceJob → Bool
reconcile_lease_held env wid jobs = elim (first (is_pending_reconcile wid) jobs) [
  | none ↦ false
  | some j ↦
      is_queued j.status
      || started_within env.now env.settings.devnest_reconcile_lease_ttl_seconds j.started_at
]

queue_reconcile : Env → ℕ → Db → Workspace → ℕ → Requested
queue_reconcile env job_id db ws version =
    let job =
      new_job env.now job_id WorkspaceJobType.reconcile_runtime ws.workspace_id ws.owner_user_id
        version in
    accepted job
      (record db { jobs = db.jobs ++ job ∷ []; events = db.events ++ intent_queued ws job_id ∷ [] })

unfoldable pub enqueue_reconcile_runtime_job : Env → ℕ → ℕ → Db → Requested
unfolding reconcile_lease_held queue_reconcile latest_config
enqueue_reconcile_runtime_job env job_id wid db =
    elim (first (has_workspace_id wid) db.workspaces) [
      | none ↦ rejected not_found db
      | some ws ↦
          if is_busy ws.status
          then rejected busy db
          else if not (delete_allowed ws.status)
          then rejected invalid_state db
          else if reconcile_lease_held env wid db.jobs
          then rejected busy db
          else (elim (latest_config wid db.configs) [
            | none ↦ rejected invalid_state db
            | some c ↦ queue_reconcile env job_id db ws c.version
          ])
    ]
