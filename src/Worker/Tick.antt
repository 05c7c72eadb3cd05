-- ===== src/Worker/Tick.antt =====
-- One tick of the worker keeps one lifecycle job per busy workspace (worker.py).
mod Writes
use mathlib.Core.Path.{subst}
use devnest.Base.{
  ℕ, ◌+◌, ◌≤◌, ◌≡◌, refl, sym, ap, ◌∙◌, Bool, true, false, ◌&&◌, ◌||◌, Option, none, some, List,
  first, count, if◌then◌else◌, Bool-cases, inl, inr, arith, ◌==◌,
}
use devnest.Model.Enums.{
  WorkspaceStatus, WorkspaceJobType, WorkspaceJobStatus, is_busy, is_queued, is_job_running,
}
use devnest.Model.Rows.{Workspace, WorkspaceJob, WorkspaceRuntime}
use devnest.Model.Env.{Env}
use devnest.Retry.{queued_job_eligible_where}
use devnest.Intent.Invariant.{is_live, jobs_due, OneJob, first_put, first_put_other, equal, same_id}
use devnest.Worker.State.{Txn, Body}
use devnest.Worker.Mark.{mark_job_running}
use devnest.Worker.Process.{Binding, process_claimed}
use devnest.Worker.Db.{Db, has_job_id, has_workspace_id, put_job, put_workspace, open_txn, commit}
use devnest.Worker.Queue.{
  is_lifecycle, oldest, claimable, claim, try_claim_next_queued_workspace_job,
  process_next_queued_job, run_claimed,
}
use devnest.Worker.Outcome.{EndsIn, Ends}
use devnest.Worker.Lifecycle.{LimitsOk, process_claimed-EndsIn}
use devnest.Worker.Keys.{keys}
use devnest.Worker.Keys.Run.{keys-process_claimed}
use devnest.Worker.Claim.{Oldest, oldest-Oldest}
use devnest.Worker.Rewrites.{
  weight, count-put_job, count-put_key, first-put_key, UniqueIds, Found, oldest-Found, found-count,
}
use devnest.Worker.Tick.Writes.{Ends-live, busy_row, written-OneJob}

-- The row that was claimed, before and after.
abbrev Taken :
    (WorkspaceJob → Bool) → ℕ → List WorkspaceJob → WorkspaceJob → List WorkspaceJob → Type 0
Taken p now jobs job left =
    (j0 : WorkspaceJob) × (first (has_job_id j0.workspace_job_id) jobs ≡ some j0)
    × (p j0 ≡ true)
    × (mark_job_running now j0 ≡ job)
    × (put_job job jobs ≡ left)

abbrev pair_or :
    WorkspaceJob × List WorkspaceJob
    → Option (WorkspaceJob × List WorkspaceJob)
    → WorkspaceJob × List WorkspaceJob
pair_or d none = d
pair_or d (some x) = x

claim-Taken :
    (p : WorkspaceJob → Bool) (now : ℕ) (jobs : List WorkspaceJob) (o : Option WorkspaceJob)
    {job : WorkspaceJob} {left : List WorkspaceJob}
    → Found jobs o
    → Oldest p jobs o
    → claim now o jobs ≡ some (job, left)
    → Taken p now jobs job left
unfolding claim
claim-Taken p now jobs none f k h = absurd (ground (arith, h))
claim-Taken p now jobs (some j0) {job} {left} f k h =
    let taken = ap (λ x. (pair_or (job, left) x).0) h in
    (
      j0,
      f,
      k.0,
      taken,
      ap (λ x. put_job x jobs) (sym taken) ∙ ap (λ x. (pair_or (job, left) x).1) h,
    )

try_claim-Taken :
    (now : ℕ) (locked : WorkspaceJob → Bool) (jobs : List WorkspaceJob) {job : WorkspaceJob}
    {left : List WorkspaceJob}
    → UniqueIds jobs
    → try_claim_next_queued_workspace_job now locked jobs ≡ some (job, left)
    → Taken (claimable now locked) now jobs job left
unfolding try_claim_next_queued_workspace_job
try_claim-Taken now locked jobs u h =
    claim-Taken (claimable now locked) now jobs (oldest (claimable now locked) jobs)
      (oldest-Found (claimable now locked) jobs u) (oldest-Oldest (claimable now locked) jobs) h

live_queued :
    (now : ℕ) (locked : WorkspaceJob → Bool) (j : WorkspaceJob) (v : ℕ)
    → claimable now locked j ≡ true
    → is_lifecycle j.job_type ≡ true
    → is_live v j ≡ (j.workspace_id == v)
unfolding queued_job_eligible_where
live_queued now locked j v c l = rw l (ground (arith, c))

live_running :
    (now : ℕ) (j : WorkspaceJob) (v : ℕ)
    → is_lifecycle j.job_type ≡ true
    → is_live v (mark_job_running now j) ≡ (j.workspace_id == v)
unfolding mark_job_running
live_running now j v l = rw l (ground arith)

-- The run of a job that was just claimed.
ran-OneJob :
    (env : Env) (get_orchestrator : Workspace → WorkspaceJob → Binding) (other : Txn → Body)
    (db : Db) (j0 job : WorkspaceJob) (ws : Workspace) (w : ℕ)
    → UniqueIds db.jobs
    → first (has_job_id job.workspace_job_id) db.jobs ≡ some j0
    → ((v : ℕ) → is_live v j0 ≡ (job.workspace_id == v))
    → ((v : ℕ) → is_live v job ≡ (job.workspace_id == v))
    → is_lifecycle job.job_type ≡ true
    → first (has_workspace_id job.workspace_id) db.workspaces ≡ some ws
    → ((v : ℕ) → OneJob v db)
    → LimitsOk (get_orchestrator ws job)
    → OneJob w (
        run_claimed env get_orchestrator other
          (record db { jobs = put_job job db.jobs })
          job
          (some ws))
unfolding OneJob EndsIn run_claimed commit open_txn keys
ran-OneJob env g other db j0 job ws w u f live0 live1 l row one limits =
    let start = open_txn (record db { jobs = put_job job db.jobs }) ws job in
    let end = process_claimed env (g ws job) other start in
    let busy = busy_row j0 job ws end db u f live0 live1 l row one in
    let ended = process_claimed-EndsIn env (g ws job) other start l busy limits in
    written-OneJob j0 job ws end db u f live0 live1 l row one w
      (keys-process_claimed env (g ws job) other start l)
      (Ends-live job.job_type end.job.status end.ws.status end.runtime l ended)

abbrev pub db_after_tick : Db → Option (ℕ × Db) → Db
db_after_tick db none = db
db_after_tick db (some (job_id, db')) = db'

-- A tick of the worker that claims a lifecycle job keeps the number of live lifecycle jobs of every
-- workspace at one where the workspace is busy and at zero where it is settled, whatever the
-- placement and the orchestrator answer. The ids of the jobs are unique, the job's workspace
-- exists, and its configured limits can be read.
pub tick-OneJob :
    (env : Env) (locked : WorkspaceJob → Bool)
    (get_orchestrator : Workspace → WorkspaceJob → Binding) (other : Txn → Body) (db : Db)
    {job : WorkspaceJob} {left : List WorkspaceJob} {ws : Workspace} (w : ℕ)
    → try_claim_next_queued_workspace_job env.now locked db.jobs ≡ some (job, left)
    → first (has_workspace_id job.workspace_id) db.workspaces ≡ some ws
    → is_lifecycle job.job_type ≡ true
    → LimitsOk (get_orchestrator ws job)
    → UniqueIds db.jobs
    → ((v : ℕ) → OneJob v db)
    → OneJob w (db_after_tick db (process_next_queued_job env locked get_orchestrator other db))
unfolding process_next_queued_job mark_job_running
tick-OneJob env locked g other db {job} {left} {ws} w h row l limits unique one =
    let (j0, f, c, m, kept) = try_claim-Taken env.now locked db.jobs unique h in
    let l0 = subst (λ x. is_lifecycle x.job_type ≡ true) (sym m) l in
    let ran =
      ran-OneJob env g other db j0 job ws w unique
        (subst (λ x. first (has_job_id x.workspace_job_id) db.jobs ≡ some j0) m f)
        (λ v. live_queued env.now locked j0 v c l0 ∙ ap (λ x. x.workspace_id == v) m)
        (λ v. subst (λ x. is_live v x ≡ (x.workspace_id == v)) m (live_running env.now j0 v l0)) l
        row one limits in
    rw (h, process_next_queued_job)
      (rw row (
        subst (λ x. OneJob w (run_claimed env g other (record db { jobs = x }) job (some ws))) kept
          ran))
