-- ===== src/Worker/Attempts.antt =====
-- How often a job is run whose result says each time that it has failed: the claims and the
-- `_resolve_orchestrator_result_failure` of worker.py, with the retries of failure_handling.py.
use devnest.Base.{ℕ, zero, suc, ◌+◌, ◌<◌, ◌≡◌, Bool, true, Text, if◌then◌else◌}
use devnest.Model.Enums.{WorkspaceStatus, WorkspaceJobStatus, FailureStage, is_queued}
use devnest.Model.Rows.{WorkspaceJob}
use devnest.Model.Env.{Env}
use devnest.Retry.{lifecycle_result_failure_retryable}
use devnest.Worker.State.{Txn}
use devnest.Worker.Mark.{mark_job_running}
use devnest.Worker.Finalize.{resolve_orchestrator_result_failure}

-- One run: the job is claimed, and the failure of its result is resolved by its type.
unfoldable pub fail_once : Env → Text → FailureStage → Txn → Txn
unfolding resolve_orchestrator_result_failure mark_job_running
fail_once env m s t =
    resolve_orchestrator_result_failure env m s (lifecycle_result_failure_retryable t.job.job_type)
      (record t { job = mark_job_running env.now t.job })

-- Runs for as long as the job is queued again, at most `k`: the settings, the clock and the failure
-- of each are given.
unfoldable pub fail_each_time : ℕ → (ℕ → Env) → (ℕ → Text) → (ℕ → FailureStage) → Txn → Txn
unfolding fail_once
fail_each_time zero env m s t = t
fail_each_time (suc k) env m s t =
    let next = fail_once (env k) (m k) (s k) t in
    let rest = fail_each_time k env m s next in if is_queued next.job.status then rest else next

abbrev runs_out : Bool → WorkspaceJob → ℕ
runs_out retryable job = if retryable then job.max_attempts else job.attempt + 1

-- The job has failed for good with the attempts that are given, and the workspace is in ERROR.
pub record FailedAfter (attempts : ℕ) (t : Txn) : Type 0 where
  pub failed : t.job.status ≡ WorkspaceJobStatus.failed
  pub attempts_made : t.job.attempt ≡ attempts
  pub error : t.ws.status ≡ WorkspaceStatus.error

-- The job is queued again, once more attempted, with attempts left.
record Again (t next : Txn) : Type 0 where
  queued : is_queued next.job.status ≡ true
  attempt : next.job.attempt ≡ t.job.attempt + 1
  max_attempts : next.job.max_attempts ≡ t.job.max_attempts
  job_type : next.job.job_type ≡ t.job.job_type
  left : next.job.attempt < t.job.max_attempts
