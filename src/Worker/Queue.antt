-- ===== src/Worker/Queue.antt =====
-- Claiming a job from the queue, running it, and reclaiming jobs whose worker is gone (worker.py).
use devnest.Base.{
  ℕ, ◌+◌, Bool, true, false, ◌&&◌, Option, none, some, List, [], ◌∷◌, if◌then◌else◌, leb, first,
  select, take, not,
}
use devnest.Model.Enums.{WorkspaceJobType, FailureStage, Code, is_job_running}
use devnest.Model.Rows.{Workspace, WorkspaceJob, WorkspaceRuntime}
use devnest.Model.Env.{Env}
use devnest.Retry.{queued_job_eligible_where, try_schedule_workspace_job_retry}
use devnest.Worker.State.{Txn, Body, render, workspace_not_found, stuck_running}
use devnest.Worker.Mark.{
  mark_job_running, mark_job_failed, touch_workspace, set_workspace_error,
  clear_runtime_capacity_reservation,
}
use devnest.Worker.Process.{Binding, process_claimed}
use devnest.Worker.Db.{
  Db, has_job_id, has_workspace_id, put_job, put_workspace, put_runtime, open_txn, commit,
  runtime_of,
}

-- `order_by(created_at.asc()).limit(1)` over the rows that a test keeps.
unfoldable pub oldest : (WorkspaceJob → Bool) → List WorkspaceJob → Option WorkspaceJob
oldest p [] = none
oldest p (j ∷ js) =
    let rest = oldest p js in
    if p j
    then (elim rest [
      | none ↦ some j
      | some k ↦ if leb j.created_at k.created_at then some j else some k
    ])
    else rest

-- A row that may be claimed: eligible, and not locked by another transaction (`SKIP LOCKED`).
abbrev pub claimable : ℕ → (WorkspaceJob → Bool) → WorkspaceJob → Bool
claimable now locked j = queued_job_eligible_where now j && not (locked j)

unfoldable pub claim :
    ℕ → Option WorkspaceJob → List WorkspaceJob → Option (WorkspaceJob × List WorkspaceJob)
unfolding mark_job_running put_job
claim now none jobs = none
claim now (some j) jobs = some (mark_job_running now j, put_job (mark_job_running now j) jobs)

unfoldable pub try_claim_next_queued_workspace_job :
    ℕ → (WorkspaceJob → Bool) → List WorkspaceJob → Option (WorkspaceJob × List WorkspaceJob)
unfolding claim
try_claim_next_queued_workspace_job now locked jobs =
    claim now (oldest (claimable now locked) jobs) jobs

unfoldable pub try_claim_queued_workspace_job_by_id :
    ℕ → (WorkspaceJob → Bool) → ℕ → List WorkspaceJob → Option (WorkspaceJob × List WorkspaceJob)
unfolding claim
try_claim_queued_workspace_job_by_id now locked job_id jobs =
    claim now (first (λ j. has_job_id job_id j && claimable now locked j) jobs) jobs

-- The job whose workspace is missing fails.
unfoldable pub run_claimed :
    Env
    → (Workspace → WorkspaceJob → Binding)
    → (Txn → Body)
    → Db
    → WorkspaceJob
    → Option Workspace
    → Db
run_claimed env get_orchestrator other db job none = record db {
  jobs =
      put_job
        (mark_job_failed env.now job (render workspace_not_found) FailureStage.unknown
          Code.missing_workspace)
        db.jobs;
}
run_claimed env get_orchestrator other db job (some ws) =
    commit db (process_claimed env (get_orchestrator ws job) other (open_txn db ws job))

unfoldable pub process_next_queued_job :
    Env
    → (WorkspaceJob → Bool)
    → (Workspace → WorkspaceJob → Binding)
    → (Txn → Body)
    → Db
    → Option (ℕ × Db)
unfolding run_claimed
process_next_queued_job env locked get_orchestrator other db =
    elim (try_claim_next_queued_workspace_job env.now locked db.jobs) [
      | none ↦ none
      | some (job, jobs') ↦ some (
        job.workspace_job_id,
        run_claimed env get_orchestrator other (record db { jobs = jobs' }) job
            (first (has_workspace_id job.workspace_id) db.workspaces),
      )
    ]

abbrev pub is_lifecycle : WorkspaceJobType → Bool
is_lifecycle WorkspaceJobType.create = true
is_lifecycle WorkspaceJobType.start = true
is_lifecycle WorkspaceJobType.stop = true
is_lifecycle WorkspaceJobType.restart = true
is_lifecycle WorkspaceJobType.update = true
is_lifecycle WorkspaceJobType.delete = true
is_lifecycle _ = false

abbrev started_by : ℕ → ℕ → Option ℕ → Bool
started_by now timeout none = false
started_by now timeout (some started) = leb (started + timeout) now

-- RUNNING, and started before the cutoff.
unfoldable pub is_stuck : Env → WorkspaceJob → Bool
is_stuck env j =
    is_job_running j.status
    && started_by env.now env.settings.workspace_job_stuck_timeout_seconds j.started_at

-- The workspace and its runtime after a stuck job has failed for good.
fail_stuck_workspace :
    Env
    → WorkspaceJobType
    → Workspace
    → Option WorkspaceRuntime
    → Workspace × Option WorkspaceRuntime
fail_stuck_workspace env job_type ws rt =
    if is_lifecycle job_type
    then (
      set_workspace_error env.now ws Code.stuck_running_terminal (render stuck_running),
      clear_runtime_capacity_reservation env.now rt,
    )
    else (ws, rt)

reclaim_rows : Env → WorkspaceJob → Option Workspace → Db → Db
unfolding fail_stuck_workspace
reclaim_rows env job none db =
    elim (try_schedule_workspace_job_retry env job (render stuck_running) FailureStage.unknown
      (some Code.stuck_running_reclaimed)) [
        | some job' ↦ record db { jobs = put_job job' db.jobs }
        | none ↦ record db {
          jobs =
              put_job
                (mark_job_failed env.now job (render stuck_running) FailureStage.unknown
                  Code.stuck_running_terminal)
                db.jobs;
        }
      ]
reclaim_rows env job (some ws) db =
    elim (try_schedule_workspace_job_retry env job (render stuck_running) FailureStage.unknown
      (some Code.stuck_running_reclaimed)) [
        | some job' ↦ record db {
          jobs = put_job job' db.jobs;
          workspaces = put_workspace (touch_workspace env.now ws) db.workspaces;
        }
        | none ↦
            (let (ws', rt') =
                fail_stuck_workspace env job.job_type ws
                  (first (runtime_of ws.workspace_id) db.runtimes) in
              record db {
                jobs =
                    put_job
                      (mark_job_failed env.now job (render stuck_running) FailureStage.unknown
                        Code.stuck_running_terminal)
                      db.jobs;
                workspaces = put_workspace ws' db.workspaces;
                runtimes = put_runtime ws.workspace_id rt' db.runtimes;
              })
      ]

unfoldable pub reclaim_job : Env → WorkspaceJob → Db → Db
unfolding reclaim_rows
reclaim_job env job db =
    reclaim_rows env job (first (has_workspace_id job.workspace_id) db.workspaces) db

reclaim_all : Env → List WorkspaceJob → Db → Db
unfolding reclaim_job
reclaim_all env [] db = db
reclaim_all env (j ∷ js) db = reclaim_all env js (reclaim_job env j db)

-- At most 20 jobs in a tick; a timeout of 0 turns reclaiming off.
unfoldable pub reclaim_stuck_running_jobs : Env → Db → Db
unfolding reclaim_all is_stuck
reclaim_stuck_running_jobs env db =
    if leb env.settings.workspace_job_stuck_timeout_seconds 0
    then db
    else reclaim_all env (take 20 (select (is_stuck env) db.jobs)) db
