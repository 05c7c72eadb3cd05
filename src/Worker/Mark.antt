-- ===== src/Worker/Mark.antt =====
-- The small writes of worker.py: the status of the job, the status and the errors of the workspace,
-- the capacity reservation of the runtime, and the helpers on messages.
use devnest.Base.{
  ℕ, ◌+◌, Bool, true, false, ◌&&◌, ◌||◌, Option, none, some, List, [], ◌∷◌, leb, if◌then◌else◌, any,
  update_where, Text, text, strip, stripped, is_empty, lower, contains, starts_with, join, truncate,
  text_eq,
}
use devnest.Model.Enums.{
  WorkspaceStatus, WorkspaceJobType, WorkspaceJobStatus, FailureStage, Code, ExecutionNodeStatus,
  is_ec2,
}
use devnest.Model.Rows.{Workspace, WorkspaceJob, WorkspaceRuntime, ExecutionNode}
use devnest.Worker.State.{Txn, render, provisioning_runtime}

unfoldable pub mark_job_running : ℕ → WorkspaceJob → WorkspaceJob
mark_job_running now job = record job {
  status = WorkspaceJobStatus.running;
  started_at = some now;
  attempt = job.attempt + 1;
}

unfoldable pub mark_job_succeeded : ℕ → WorkspaceJob → WorkspaceJob
mark_job_succeeded now job = record job {
  status = WorkspaceJobStatus.succeeded;
  finished_at = some now;
  error_msg = none;
  failure_stage = none;
  failure_code = none;
  next_attempt_after = none;
}

-- The callers pass a failure code or none with no stage, for which the stage stands.
unfoldable pub mark_job_failed : ℕ → WorkspaceJob → Text → FailureStage → Code → WorkspaceJob
mark_job_failed now job message stage failure_code = record job {
  status = WorkspaceJobStatus.failed;
  finished_at = some now;
  error_msg = truncate (some message) 8192;
  failure_stage = some stage;
  failure_code = some failure_code;
  next_attempt_after = none;
}

unfoldable pub workspace_clear_errors : Workspace → Workspace
workspace_clear_errors ws = record ws {
  last_error_code = none;
  last_error_message = none;
  status_reason = none;
}

unfoldable pub workspace_set_error : Workspace → Code → Text → Workspace
workspace_set_error ws code message = record ws {
  last_error_code = some code;
  last_error_message = truncate (some message) 4096;
  status_reason = truncate (some message) 1024;
}

unfoldable pub touch_workspace : ℕ → Workspace → Workspace
touch_workspace now ws = record ws { updated_at = now }

-- The statements `ws.status = ERROR`, `_workspace_set_error`, `_touch_workspace`, which follow one
-- another wherever a workspace fails.
unfoldable pub set_workspace_error : ℕ → Workspace → Code → Text → Workspace
unfolding workspace_set_error touch_workspace
set_workspace_error now ws code message =
    touch_workspace now
      (workspace_set_error (record ws { status = WorkspaceStatus.error }) code message)

clear_reservation_of : ℕ → WorkspaceRuntime → WorkspaceRuntime
clear_reservation_of now rt =
    if leb rt.reserved_cpu 0 && (leb rt.reserved_memory_mb 0 && leb rt.reserved_disk_mb 0)
    then rt
    else record rt {
      reserved_cpu = 0;
      reserved_memory_mb = 0;
      reserved_disk_mb = 0;
      updated_at = now;
    }

unfoldable pub clear_runtime_capacity_reservation :
    ℕ → Option WorkspaceRuntime → Option WorkspaceRuntime
unfolding clear_reservation_of
clear_runtime_capacity_reservation now none = none
clear_runtime_capacity_reservation now (some rt) = some (clear_reservation_of now rt)

-- A CREATE job accepted as `PENDING` moves its workspace to `CREATING`.
begin_create : ℕ → WorkspaceJobType → WorkspaceStatus → Workspace → Workspace
unfolding touch_workspace
begin_create now WorkspaceJobType.create WorkspaceStatus.pending ws =
    touch_workspace now (record ws {
      status = WorkspaceStatus.creating;
      status_reason = some (render provisioning_runtime);
      last_error_message = none;
      last_error_code = none;
    })
begin_create now _ _ ws = ws

unfoldable pub begin_create_bringup_after_placement : ℕ → Txn → Txn
unfolding begin_create
begin_create_bringup_after_placement now t = record t {
  ws = begin_create now t.job.job_type t.ws.status t.ws;
}

keep_nonblank : List Text → List Text
keep_nonblank [] = []
keep_nonblank (x ∷ xs) = if is_empty (strip x) then keep_nonblank xs else x ∷ keep_nonblank xs

unfoldable pub format_issues : List Text → Option Text
unfolding keep_nonblank
format_issues [] = none
format_issues (i ∷ is) = truncate (some (join (text "; ") (keep_nonblank (i ∷ is)))) 8192

noop_issue : Text → Bool
noop_issue raw =
    starts_with (text "update:noop:workspace_runtime_not_found") (strip raw)
    || starts_with (text "update:noop:container_not_running:") (strip raw)

unfoldable pub update_noop_issues_imply_stopped_workspace : List Text → Bool
unfolding noop_issue
update_noop_issues_imply_stopped_workspace = any noop_issue

readiness_markers : List Text → Text → Bool
readiness_markers [] m = false
readiness_markers (p ∷ ps) m = contains p m || readiness_markers ps m

unfoldable pub is_node_readiness_error : Text → Bool
unfolding readiness_markers
is_node_readiness_error message =
    let m = lower (strip message) in
    if is_empty m
    then false
    else readiness_markers
        (text "ssm connectivity check failed"
          ∷ text "invocationdoesnotexist"
          ∷ text "undeliverable"
          ∷ text "ssm runshellscript failed"
          ∷ text "docker: command not found"
          ∷ text "docker not found"
          ∷ text "failed to pull image"
          ∷ text "docker pull"
          ∷ text "readygatepending"
          ∷ text "node.ready_gate"
          ∷ [])
        m

unfoldable pub node_readiness_retry_allowed : WorkspaceJobType → Bool
node_readiness_retry_allowed WorkspaceJobType.create = true
node_readiness_retry_allowed WorkspaceJobType.start = true
node_readiness_retry_allowed WorkspaceJobType.restart = true
node_readiness_retry_allowed WorkspaceJobType.update = true
node_readiness_retry_allowed _ = false

not_ready : ℕ → Text → ExecutionNode → ExecutionNode
not_ready now reason node =
    if is_ec2 node.provider_type
    then record node {
      status = ExecutionNodeStatus.provisioning;
      schedulable = false;
      last_error_code = some Code.ready_gate_pending;
      last_error_message = truncate (some reason) 4096;
      updated_at = now;
    }
    else node

-- Node keys are unique, so the update of the row that is found is the update of all with its key.
unfoldable pub mark_node_not_ready_for_retry :
    ℕ → Option Text → Text → List ExecutionNode → List ExecutionNode
unfolding not_ready
mark_node_not_ready_for_retry now node_key reason nodes =
    if is_empty (stripped node_key)
    then nodes
    else update_where (λ n. text_eq n.node_key (stripped node_key)) (not_ready now reason) nodes
