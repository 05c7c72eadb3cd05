-- ===== src/Retry/Laws.antt =====
-- What holds of a job that was scheduled again: when it is due, and until when it may wait.
use devnest.Base.{ℕ, ◌+◌, ◌≤◌, ◌<◌, ◌≡◌, ◌↔◌, min, true, Option, some, arith, Text}
use devnest.Model.Enums.{FailureStage, Code}
use devnest.Model.Rows.{WorkspaceJob}
use devnest.Model.Env.{Env, RandintInRange}
use devnest.Retry.{
  effective_max_attempts, requeue, try_schedule_workspace_job_retry, capacity_retry_backoff_seconds,
  queued_job_eligible_where,
}

-- A job that is scheduled again keeps its attempts, of which some remain, and the queue offers it
-- from the end of the backoff on and not before.
pub retry-due :
    (env : Env) (job : WorkspaceJob) (m : Text) (s : FailureStage) (c : Option Code) (later : ℕ)
    {job' : WorkspaceJob}
    → try_schedule_workspace_job_retry env job m s c ≡ some job'
    → (job'.attempt ≡ job.attempt)
      × (job.attempt < effective_max_attempts env job)
      × ((queued_job_eligible_where later job' ≡ true)
          ↔ (env.now + env.settings.workspace_job_retry_backoff_seconds ≤ later))
unfolding try_schedule_workspace_job_retry requeue queued_job_eligible_where
retry-due env job m s c later h =
    (ground arith, ground arith, (λ e. ground arith, λ e. ground arith))

-- The wait after a failure of capacity is at most what is configured and at most 30 seconds, and
-- it is at least 15 seconds where that much is configured.
pub capacity_backoff_bounds :
    (env : Env)
    → RandintInRange env
    → (capacity_retry_backoff_seconds env
        ≤ min env.settings.workspace_capacity_retry_backoff_seconds 30)
      × (15 ≤ env.settings.workspace_capacity_retry_backoff_seconds
          → 15 ≤ capacity_retry_backoff_seconds env)
unfolding capacity_retry_backoff_seconds
capacity_backoff_bounds env r =
    let in_range = r 15 (min env.settings.workspace_capacity_retry_backoff_seconds 30) in
    (ground (arith, in_range), λ h. ground (arith, in_range))
