-- ===== src/Worker/Limits.antt =====
-- A job that starts a container and whose workspace has limits that cannot be read (worker.py).
use devnest.Base.{◌≡◌, refl, false, ◌&&◌, not, is_some, Option, some, Text, ap}
use devnest.Model.Enums.{WorkspaceStatus, WorkspaceJobType, WorkspaceJobStatus, FailureStage, Code}
use devnest.Model.Logs.{WorkspaceStreamEventType}
use devnest.Model.Rows.{WorkspaceRuntime}
use devnest.Model.Env.{Env}
use devnest.Worker.State.{Txn, Body, done, OrchestratorService}
use devnest.Worker.Mark.{begin_create_bringup_after_placement, mark_job_failed, set_workspace_error}
use devnest.Worker.Lifecycle.{emit_same}
use devnest.Worker.Process.{
  bound, process_claimed, process_claimed_running_job, execute_job_body, dispatch, bring_up, settle,
  record_event, bind_and_run, is_delete,
}

unreadable-body :
    (env : Env) (o : OrchestratorService) (other : Txn → Body) (t : Txn) {msg : Text}
    → t.job.job_type ≡ WorkspaceJobType.start
    → o.limits_error ≡ some msg
    → execute_job_body env o other t
      ≡ done (record t {
        job = mark_job_failed env.now t.job msg FailureStage.unknown Code.invalid_runtime_limits;
        ws = set_workspace_error env.now t.ws Code.invalid_runtime_limits msg;
      })
unfolding execute_job_body dispatch bring_up
unreadable-body env o other t s l = rw (s, execute_job_body) (rw (l, bring_up) refl)

unreadable-run :
    (env : Env) (o : OrchestratorService) (other : Txn → Body) (t : Txn) {msg : Text}
    → t.job.job_type ≡ WorkspaceJobType.start
    → o.limits_error ≡ some msg
    → let after = process_claimed_running_job env o other t in
      (after.job.status ≡ WorkspaceJobStatus.failed)
      × (after.ws.status ≡ WorkspaceStatus.error)
      × (after.runtime ≡ t.runtime)
unfolding process_claimed_running_job settle mark_job_failed set_workspace_error record_event
unreadable-run env o other t s l =
    let t1 = record_event WorkspaceStreamEventType.job_running t in
    rw (unreadable-body env o other t1 s l)
      (let same = emit_same env _ in (ap (λ j. j.status) same.0, same.2, same.1))

-- A START whose limits cannot be read fails and leaves its workspace in ERROR, but with the runtime
-- row as it was: what was reserved for the container stays reserved.
pub unreadable_limits-reserved :
    (env : Env) (o : OrchestratorService) (other : Txn → Body) (t : Txn) (msg : Text)
    → t.job.job_type ≡ WorkspaceJobType.start
    → o.limits_error ≡ some msg
    → let after = process_claimed env (bound o) other t in
      (after.job.status ≡ WorkspaceJobStatus.failed)
      × (after.ws.status ≡ WorkspaceStatus.error)
      × (after.runtime ≡ t.runtime)
unfolding process_claimed bind_and_run begin_create_bringup_after_placement
unreadable_limits-reserved env o other t msg s l =
    rw (not_delete t.job.job_type t.runtime s, process_claimed)
      (unreadable-run env o other (begin_create_bringup_after_placement env.now t) s l)
  where
    not_delete :
        (jt : WorkspaceJobType) (rt : Option WorkspaceRuntime)
        → jt ≡ WorkspaceJobType.start
        → (is_delete jt && not (is_some rt)) ≡ false
    not_delete jt rt h = rw h refl
