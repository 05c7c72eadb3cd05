-- ===== src/Retry.antt =====
-- backend/app/workers/workspace_job_worker/failure_handling.py: which failures of a workspace job
-- are retried, and when. A function that returned `True` after it changed the job
-- returns the changed job; `none` is `False`, with the job left alone.
pub mod Laws
use devnest.Base.{
  ℕ, ◌+◌, ◌-◌, max, min, Bool, true, false, ◌&&◌, ◌||◌, Option, none, some, ltb, leb, ◌==◌,
  if◌then◌else◌, Text, text, strip, lower, contains, truncate,
}
use devnest.Model.Enums.{WorkspaceJobType, WorkspaceJobStatus, FailureStage, Code, is_queued}
use devnest.Model.Rows.{WorkspaceJob}
use devnest.Model.Env.{Env}

-- The exceptions of placement_service/errors.py.
pub data PlacementError : Type 0 where
  no_schedulable_node : Text → PlacementError
  other_placement_error : Text → PlacementError

unfoldable pub classify_placement_error : PlacementError → FailureStage × Bool
classify_placement_error (no_schedulable_node m) = (FailureStage.capacity, true)
classify_placement_error (other_placement_error m) = (FailureStage.placement, true)

unfoldable pub orchestrator_binding_retryable : FailureStage × Bool
orchestrator_binding_retryable = (FailureStage.network, true)

unfoldable pub lifecycle_result_failure_retryable : WorkspaceJobType → Bool
lifecycle_result_failure_retryable WorkspaceJobType.create = true
lifecycle_result_failure_retryable WorkspaceJobType.start = true
lifecycle_result_failure_retryable WorkspaceJobType.restart = true
lifecycle_result_failure_retryable WorkspaceJobType.update = true
lifecycle_result_failure_retryable WorkspaceJobType.snapshot_create = true
lifecycle_result_failure_retryable WorkspaceJobType.snapshot_restore = true
lifecycle_result_failure_retryable _ = false

unfoldable pub orchestrator_exception_retryable : WorkspaceJobType → Bool
orchestrator_exception_retryable WorkspaceJobType.create = true
orchestrator_exception_retryable WorkspaceJobType.start = true
orchestrator_exception_retryable WorkspaceJobType.restart = true
orchestrator_exception_retryable WorkspaceJobType.update = true
orchestrator_exception_retryable WorkspaceJobType.reconcile_runtime = true
orchestrator_exception_retryable WorkspaceJobType.snapshot_create = true
orchestrator_exception_retryable WorkspaceJobType.snapshot_restore = true
orchestrator_exception_retryable _ = false

unfoldable pub classify_reconcile_failure : Text → FailureStage × Bool
classify_reconcile_failure message =
    let m = lower (strip message) in
    if contains (text "reconcile:advisory_lock_contended") m
    then (FailureStage.placement, true)
    else if contains (text "reconcile:workspace_busy") m
        || contains (text "reconcile:unsupported_workspace_status") m
    then (FailureStage.unknown, false)
    else if contains (text "gateway_") m || contains (text "gateway:") m
    then (FailureStage.proxy, true)
    else if contains (text "health_check_failed") m || contains (text "runtime_not_healthy") m
    then (FailureStage.container, true)
    else if contains (text "stop_failed") m
    then (FailureStage.container, true)
    else (FailureStage.unknown, true)

unfoldable pub effective_max_attempts : Env → WorkspaceJob → ℕ
effective_max_attempts env job =
    if leb 1 job.max_attempts
    then job.max_attempts
    else max 1 env.settings.workspace_job_max_attempts

-- The columns that every retry sets: the job goes back to the queue until `due`.
unfoldable pub requeue : WorkspaceJob → Text → FailureStage → Code → ℕ → WorkspaceJob
requeue job message stage failure_code due = record job {
  status = WorkspaceJobStatus.queued;
  finished_at = none;
  started_at = none;
  error_msg = truncate (some message) 8192;
  failure_stage = some stage;
  failure_code = some failure_code;
  next_attempt_after = some due;
}

abbrev code_or_stage : Option Code → FailureStage → Code
code_or_stage none stage = Code.stage stage
code_or_stage (some c) stage = c

unfoldable pub try_schedule_workspace_job_retry :
    Env → WorkspaceJob → Text → FailureStage → Option Code → Option WorkspaceJob
try_schedule_workspace_job_retry env job message stage failure_code =
    if leb (effective_max_attempts env job) job.attempt
    then none
    else some (
        requeue job message stage (code_or_stage failure_code stage)
          (env.now + max 0 env.settings.workspace_job_retry_backoff_seconds))

unfoldable pub capacity_retry_timeout_seconds : Env → ℕ
capacity_retry_timeout_seconds env = max 1 env.settings.workspace_capacity_retry_timeout_seconds

unfoldable pub capacity_retry_backoff_seconds : Env → ℕ
capacity_retry_backoff_seconds env =
    let v = env.settings.workspace_capacity_retry_backoff_seconds in
    if leb v 0 then 0 else if ltb v 15 then v else env.randint 15 (min v 30)

-- A difference of times is negative before the job was created, and then below any timeout.
unfoldable pub capacity_wait_timed_out : Env → WorkspaceJob → Bool
capacity_wait_timed_out env job = leb (job.created_at + capacity_retry_timeout_seconds env) env.now

unfoldable pub try_schedule_capacity_retry : Env → WorkspaceJob → Text → Option WorkspaceJob
try_schedule_capacity_retry env job message =
    if capacity_wait_timed_out env job
    then none
    else some (
        requeue job message FailureStage.capacity Code.no_schedulable_node
          (env.now + capacity_retry_backoff_seconds env))

unfoldable pub try_schedule_node_readiness_retry : Env → WorkspaceJob → Text → Option WorkspaceJob
try_schedule_node_readiness_retry env job message =
    if capacity_wait_timed_out env job
    then none
    else some (
        requeue job message FailureStage.capacity Code.node_readiness
          (env.now + capacity_retry_backoff_seconds env))

abbrev has_elapsed : Option ℕ → ℕ → Bool
has_elapsed none now = true
has_elapsed (some t) now = leb t now

-- The filter of the queue: queued, and its backoff has elapsed.
unfoldable pub queued_job_eligible_where : ℕ → WorkspaceJob → Bool
queued_job_eligible_where now job = is_queued job.status && has_elapsed job.next_attempt_after now
