-- ===== src/Examples/Jobs.antt =====
-- Jobs: retries, claims and executions.
use devnest.Base.{
  ℕ, Text, ◌+◌, ◌≤◌, ◌≡◌, ◌≢◌, refl, ◌↔◌, Bool, true, false, none, some, List, [], ◌∷◌, text, arith,
  truncate, FitsIn, ◌<◌, truncate_bounded, FitsIn, ◌<◌,
}
use devnest.Model.Enums.{WorkspaceStatus, WorkspaceJobType, WorkspaceJobStatus, FailureStage, Code}
use devnest.Model.Rows.{WorkspaceJob}
use devnest.Retry.{
  effective_max_attempts, try_schedule_workspace_job_retry, queued_job_eligible_where,
  capacity_retry_backoff_seconds, requeue,
}
use devnest.Retry.Laws.{retry-due, capacity_backoff_bounds}
use devnest.Intent.{new_job}
use devnest.Worker.State.{Txn, done}
use devnest.Worker.Process.{bound, process_claimed}
use devnest.Worker.Queue.{oldest, try_claim_next_queued_workspace_job}
use devnest.Worker.Outcome.{EndsIn}
use devnest.Worker.Lifecycle.{process_claimed-EndsIn}
use devnest.Worker.Claim.{Claimed, claim-Claimed, claim_twice}
use devnest.Worker.Mark.{mark_job_running}
use devnest.Worker.Tick.{tick-OneJob, db_after_tick}
use devnest.Intent.Invariant.{OneJob}
use devnest.Worker.Rewrites.{UniqueIds}
use devnest.Worker.Limits.{unreadable_limits-reserved}
use devnest.Worker.Db.{Db}
use devnest.Worker.Queue.{process_next_queued_job}
use devnest.Examples.Data.{workspace, db_with, env_at, running_job, txn, orchestrator}

abbrev stop_txn : Txn
stop_txn = txn WorkspaceStatus.stopping (running_job 1 WorkspaceJobType.stop)

abbrev start_txn : Txn
start_txn = txn WorkspaceStatus.starting (running_job 1 WorkspaceJobType.start)

process_claimed-EndsIn_example :
    EndsIn WorkspaceJobType.stop
      (process_claimed (env_at 1010) (bound (orchestrator none)) done stop_txn)
process_claimed-EndsIn_example =
    process_claimed-EndsIn (env_at 1010) (bound (orchestrator none)) done stop_txn refl refl refl

unreadable_limits-reserved_example :
    let after =
      process_claimed (env_at 1010) (bound (orchestrator (some (text "bad")))) done start_txn in
    (after.job.status ≡ WorkspaceJobStatus.failed)
    × (after.ws.status ≡ WorkspaceStatus.error)
    × (after.runtime ≡ start_txn.runtime)
unreadable_limits-reserved_example =
    unreadable_limits-reserved (env_at 1010) (orchestrator (some (text "bad"))) done start_txn
      (text "bad") refl refl

-- Two jobs that wait: the one with the id 2 is older.
abbrev queue : List WorkspaceJob
queue = new_job 50 1 WorkspaceJobType.start 1 7 1 ∷ new_job 40 2 WorkspaceJobType.stop 2 7 1 ∷ []

abbrev unlocked : WorkspaceJob → Bool
unlocked j = false

claim-Claimed_example :
    Claimed 100 unlocked queue (try_claim_next_queued_workspace_job 100 unlocked queue)
claim-Claimed_example = claim-Claimed 100 unlocked queue

abbrev older : WorkspaceJob
older = record (new_job 40 2 WorkspaceJobType.stop 2 7 1) {
  status = WorkspaceJobStatus.running;
  started_at = some 100;
  attempt = 1;
}

abbrev younger : WorkspaceJob
younger = record (new_job 50 1 WorkspaceJobType.start 1 7 1) {
  status = WorkspaceJobStatus.running;
  started_at = some 100;
  attempt = 1;
}

claim_twice_example : younger.workspace_job_id ≢ older.workspace_job_id
unfolding try_claim_next_queued_workspace_job oldest queued_job_eligible_where
claim_twice_example =
    claim_twice 100 100 unlocked unlocked queue {job = older} {job' = younger} refl refl

-- The job of a START that may be tried twice.
abbrev failing : Txn
failing = txn WorkspaceStatus.starting (new_job 50 1 WorkspaceJobType.start 1 7 1)

abbrev no_route : ℕ → Text
no_route k = text "no route"

abbrev in_container : ℕ → FailureStage
in_container k = FailureStage.container

capacity_backoff_bounds_example :
    (capacity_retry_backoff_seconds (env_at 1010) ≤ 30)
    × (15 ≤ 30 → 15 ≤ capacity_retry_backoff_seconds (env_at 1010))
capacity_backoff_bounds_example =
    capacity_backoff_bounds (env_at 1010) (λ a b h. (omega arith, omega (arith, h)))

abbrev retried : WorkspaceJob
retried =
    requeue (running_job 1 WorkspaceJobType.start) (text "down") FailureStage.network
      (Code.stage FailureStage.network) 1040

-- The second of two attempts is left, and is due 30 seconds later.
retry-due_example :
    (retried.attempt ≡ 1)
    × (1 < effective_max_attempts (env_at 1010) (running_job 1 WorkspaceJobType.start))
    × ((queued_job_eligible_where 1040 retried ≡ true) ↔ (1010 + 30 ≤ 1040))
unfolding try_schedule_workspace_job_retry effective_max_attempts
retry-due_example =
    retry-due (env_at 1010) (running_job 1 WorkspaceJobType.start) (text "down")
      FailureStage.network none 1040 {job' = retried} refl

truncate_bounded_example : FitsIn 5 (truncate (some (text " too long ")) 5)
truncate_bounded_example = truncate_bounded (some (text " too long ")) 5 (omega arith)

-- A workspace that waits for its STOP.
abbrev waiting : WorkspaceJob
waiting = new_job 40 2 WorkspaceJobType.stop 1 7 1

abbrev stopping : Db
stopping = db_with (workspace 1 7 WorkspaceStatus.stopping ∷ []) (waiting ∷ [])

abbrev taken : WorkspaceJob
taken = record waiting { status = WorkspaceJobStatus.running; started_at = some 100; attempt = 1 }

stopping_unique : UniqueIds (waiting ∷ [])
stopping_unique i = ground arith

stopping_one : (v : ℕ) → OneJob v stopping
unfolding OneJob
stopping_one v = ground arith

tick-OneJob_example : OneJob 1 (
    db_after_tick stopping (
      process_next_queued_job
        (env_at 100)
        unlocked
        (λ ws job. bound (orchestrator none))
        done
        stopping))
unfolding try_claim_next_queued_workspace_job oldest queued_job_eligible_where mark_job_running
tick-OneJob_example =
    tick-OneJob (env_at 100) unlocked (λ ws job. bound (orchestrator none)) done stopping
      {job = taken} {ws = workspace 1 7 WorkspaceStatus.stopping} 1 refl refl refl refl
      stopping_unique stopping_one
