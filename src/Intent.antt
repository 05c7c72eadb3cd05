-- ===== src/Intent.antt =====
-- backend/app/services/workspace_service/services/workspace_intent_service.py: a user's requests,
-- which set the workspace's transitional status and queue a job for the worker. The ids that the
-- database gives to new rows are parameters, and so is the check of the workspace's files on the
-- host (`_ensure_workspace_reopen_allowed`).
pub mod Create
pub mod Invariant
pub mod Limits
pub mod Laws
use devnest.Base.{
  ℕ, ◌+◌, Bool, true, false, ◌&&◌, ◌||◌, not, Option, none, some, List, [], ◌∷◌, ◌++◌, ◌==◌,
  if◌then◌else◌, ltb, leb, first,
}
use devnest.Model.Enums.{
  WorkspaceStatus, WorkspaceJobType, WorkspaceJobStatus, is_busy, is_deleted, is_queued,
  is_job_running,
}
use devnest.Model.Rows.{Workspace, WorkspaceJob, WorkspaceRuntime, WorkspaceConfig}
use devnest.Model.Logs.{
  AuditAction, AuditActorType, AuditOutcome, WorkspaceStreamEventType, WorkspaceEvent, AuditLog,
}
use devnest.Model.Env.{Env}
use devnest.Admission.{Denial, denial_audit, ◌then◌}
use devnest.Admission.Quotas.{
  check_running_workspace_quota, check_monthly_runtime_hours_quota, check_owner_compute_quota,
}
use devnest.Admission.Policies.{evaluate_workspace_start}
use devnest.Worker.Db.{Db, has_workspace_id, runtime_of, put_workspace}

-- `WorkspaceNotFoundError`, `WorkspaceBusyError`, `WorkspaceInvalidStateError`, the exceptions of
-- the quotas and the policies, and `WorkspaceSchedulingInvalidError`.
pub data IntentError : Type 0 where
  not_found busy invalid_state scheduling_invalid : IntentError
  denied : Denial → IntentError

-- The exception or the queued job, with the tables as they are committed.
pub data Requested : Type 0 where
  rejected : IntentError → Db → Requested
  accepted : WorkspaceJob → Db → Requested

unfoldable pub get_owned_workspace : ℕ → ℕ → Bool → Db → Option Workspace
get_owned_workspace wid owner include_deleted db =
    elim (first (has_workspace_id wid) db.workspaces) [
      | none ↦ none
      | some ws ↦
          if ws.owner_user_id == owner && (not (is_deleted ws.status) || include_deleted)
          then some ws
          else none
    ]

-- The row of the latest version.
unfoldable pub latest_config : ℕ → List WorkspaceConfig → Option WorkspaceConfig
latest_config wid [] = none
latest_config wid (c ∷ cs) =
    let rest = latest_config wid cs in
    if c.workspace_id == wid
    then (elim rest [ none ↦ some c | some d ↦ if leb d.version c.version then some c else some d ])
    else rest

-- A WorkspaceJob at the defaults of the table: two attempts, none made.
abbrev pub new_job : ℕ → ℕ → WorkspaceJobType → ℕ → ℕ → ℕ → WorkspaceJob
new_job now job_id job_type wid by version = record {
  workspace_job_id = job_id;
  workspace_id = wid;
  workspace_snapshot_id = none;
  job_type = job_type;
  status = WorkspaceJobStatus.queued;
  requested_by_user_id = by;
  requested_config_version = version;
  attempt = 0;
  error_msg = none;
  created_at = now;
  started_at = none;
  finished_at = none;
  max_attempts = 2;
  failure_stage = none;
  failure_code = none;
  next_attempt_after = none;
}

abbrev pub intent_queued : Workspace → ℕ → WorkspaceEvent
intent_queued ws job_id = record {
  workspace_id = ws.workspace_id;
  event_type = WorkspaceStreamEventType.intent_queued;
  status = ws.status;
  job_id = job_id;
}

abbrev intent_audit_action : WorkspaceJobType → AuditAction
intent_audit_action WorkspaceJobType.start = AuditAction.workspace_start_requested
intent_audit_action WorkspaceJobType.stop = AuditAction.workspace_stop_requested
intent_audit_action WorkspaceJobType.restart = AuditAction.workspace_restart_requested
intent_audit_action WorkspaceJobType.delete = AuditAction.workspace_delete_requested
intent_audit_action WorkspaceJobType.update = AuditAction.workspace_update_requested
intent_audit_action jt = AuditAction.workspace_requested jt

abbrev pub requested_audit : AuditAction → ℕ → ℕ → ℕ → AuditLog
requested_audit action by wid job_id = record {
  action = action;
  actor_user_id = some by;
  actor_type = AuditActorType.user;
  outcome = AuditOutcome.success;
  workspace_id = some wid;
  job_id = some job_id;
  node_id = none;
}

-- `x or default` on a number that may be absent.
abbrev pub number_or : Option ℕ → ℕ → ℕ
number_or none d = d
number_or (some n) d = if n == 0 then d else n

abbrev limit_in : (WorkspaceConfig → Option ℕ) → Option WorkspaceConfig → Option ℕ
limit_in f none = none
limit_in f (some c) = f c

abbrev is_start_job : WorkspaceJobType → Bool
is_start_job WorkspaceJobType.start = true
is_start_job WorkspaceJobType.restart = true
is_start_job _ = false

-- The quotas and the policies that a START and a RESTART must pass. By default a workspace takes
-- one core and 512 MB.
unfoldable pub start_checks : Env → Db → Workspace → Option Denial
unfolding check_running_workspace_quota check_monthly_runtime_hours_quota check_owner_compute_quota
    evaluate_workspace_start latest_config
start_checks env db ws =
    let config = latest_config ws.workspace_id db.configs in
    check_running_workspace_quota db.quotas db.workspaces ws.owner_user_id (some ws.workspace_id)
    then check_monthly_runtime_hours_quota db.quotas db.usages (env.month_start env.now)
        ws.owner_user_id
    then check_owner_compute_quota db.quotas db.workspaces db.runtimes ws.owner_user_id
        (number_or (limit_in (λ c. c.cpu_limit_cores) config) 1000)
        (number_or (limit_in (λ c. c.memory_limit_mib) config) 512) (some ws.workspace_id)
    then evaluate_workspace_start db.policies ws.owner_user_id ws.workspace_id

abbrev intent_denial : Env → WorkspaceJobType → Db → Workspace → Option Denial
intent_denial env job_type db ws = if is_start_job job_type then start_checks env db ws else none

abbrev with_status : ℕ → WorkspaceStatus → Workspace → Workspace
with_status now s ws = record ws { status = s; updated_at = now }

unfoldable pub persist_intent :
    Env → ℕ → WorkspaceStatus → WorkspaceJobType → ℕ → Db → Workspace → ℕ → Requested
unfolding start_checks put_workspace denial_audit
persist_intent env job_id new_status job_type by db ws version =
    elim (intent_denial env job_type db ws) [
      | some d ↦ rejected (denied d) (record db {
        audits = db.audits ++ denial_audit d (some ws.owner_user_id) (some ws.workspace_id) ∷ [];
      })
      | none ↦
          (let job = new_job env.now job_id job_type ws.workspace_id by version in
            let ws' = with_status env.now new_status ws in
            accepted job (record db {
              workspaces = put_workspace ws' db.workspaces;
              jobs = db.jobs ++ job ∷ [];
              events = db.events ++ intent_queued ws' job_id ∷ [];
              audits =
                  db.audits
                  ++ requested_audit (intent_audit_action job_type) by ws.workspace_id job_id ∷ [];
            }))
    ]

-- The guards that the requests share, in their order, and what is done with the workspace and its
-- latest version.
unfoldable admit :
    ℕ
    → ℕ
    → Bool
    → (WorkspaceStatus → Bool)
    → (Workspace → Bool)
    → Db
    → (Workspace → ℕ → Requested)
    → Requested
unfolding get_owned_workspace latest_config
admit wid owner include_deleted allowed blocked db persist =
    elim (get_owned_workspace wid owner include_deleted db) [
      | none ↦ rejected not_found db
      | some ws ↦
          if is_busy ws.status
          then rejected busy db
          else if not (allowed ws.status) || blocked ws
          then rejected invalid_state db
          else (elim (latest_config wid db.configs) [
            | none ↦ rejected invalid_state db
            | some c ↦ persist ws c.version
          ])
    ]

abbrev pub start_allowed : WorkspaceStatus → Bool
start_allowed WorkspaceStatus.stopped = true
start_allowed WorkspaceStatus.error = true
start_allowed _ = false

abbrev pub stop_allowed : WorkspaceStatus → Bool
stop_allowed WorkspaceStatus.running = true
stop_allowed _ = false

abbrev pub restart_allowed : WorkspaceStatus → Bool
restart_allowed WorkspaceStatus.running = true
restart_allowed WorkspaceStatus.stopped = true
restart_allowed _ = false

abbrev pub update_allowed : WorkspaceStatus → Bool
update_allowed WorkspaceStatus.running = true
update_allowed WorkspaceStatus.stopped = true
update_allowed WorkspaceStatus.error = true
update_allowed _ = false

-- Also the statuses in which a reconcile job may be queued.
abbrev pub delete_allowed : WorkspaceStatus → Bool
delete_allowed WorkspaceStatus.deleted = true
delete_allowed s = update_allowed s

-- Whether the files of the workspace, with its runtime, keep it from being opened again.
abbrev pub ReopenIssues : Type 0
ReopenIssues = Workspace → Option WorkspaceRuntime → Bool

abbrev reopen_blocked : ReopenIssues → Db → Workspace → Bool
reopen_blocked issues db ws = issues ws (first (runtime_of ws.workspace_id) db.runtimes)

unfoldable pub request_start_workspace : Env → ReopenIssues → ℕ → ℕ → ℕ → ℕ → Db → Requested
unfolding admit persist_intent
request_start_workspace env issues job_id wid owner by db =
    admit wid owner false start_allowed (reopen_blocked issues db) db
      (persist_intent env job_id WorkspaceStatus.starting WorkspaceJobType.start by db)

unfoldable pub request_stop_workspace : Env → ℕ → ℕ → ℕ → ℕ → Db → Requested
unfolding admit persist_intent
request_stop_workspace env job_id wid owner by db =
    admit wid owner false stop_allowed (λ _. false) db
      (persist_intent env job_id WorkspaceStatus.stopping WorkspaceJobType.stop by db)

unfoldable pub request_restart_workspace : Env → ReopenIssues → ℕ → ℕ → ℕ → ℕ → Db → Requested
unfolding admit persist_intent
request_restart_workspace env issues job_id wid owner by db =
    admit wid owner false restart_allowed (reopen_blocked issues db) db
      (persist_intent env job_id WorkspaceStatus.restarting WorkspaceJobType.restart by db)

unfoldable pub request_delete_workspace : Env → ℕ → ℕ → ℕ → ℕ → Db → Requested
unfolding admit persist_intent
request_delete_workspace env job_id wid owner by db =
    admit wid owner true delete_allowed (λ _. false) db
      (persist_intent env job_id WorkspaceStatus.deleting WorkspaceJobType.delete by db)

-- The limits of the next version's configuration.
abbrev stage_update : Env → ℕ → ℕ → Option ℕ → Option ℕ → Db → Workspace → ℕ → Requested
stage_update env job_id by cpu memory db ws latest =
    let job = new_job env.now job_id WorkspaceJobType.update ws.workspace_id by (latest + 1) in
    let ws' = with_status env.now WorkspaceStatus.updating ws in
    let config : WorkspaceConfig = record {
      workspace_id = ws.workspace_id;
      version = latest + 1;
      cpu_limit_cores = cpu;
      memory_limit_mib = memory;
    } in
    accepted job (record db {
      workspaces = put_workspace ws' db.workspaces;
      jobs = db.jobs ++ job ∷ [];
      events = db.events ++ intent_queued ws' job_id ∷ [];
      configs = db.configs ++ config ∷ [];
    })

unfoldable pub request_update_workspace : Env → ℕ → ℕ → ℕ → ℕ → Option ℕ → Option ℕ → Db → Requested
unfolding admit put_workspace
request_update_workspace env job_id wid owner by cpu memory db =
    admit wid owner false update_allowed (λ _. false) db (stage_update env job_id by cpu memory db)
