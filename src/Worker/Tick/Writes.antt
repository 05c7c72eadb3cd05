-- ===== src/Worker/Tick/Writes.antt =====
-- What the two writes of a job in one tick do to the count of live jobs (worker.py).
use mathlib.Core.Path.{subst}
use devnest.Base.{
  ℕ, ◌+◌, ◌≤◌, ◌≡◌, refl, sym, ap, ◌∙◌, Bool, true, false, ◌&&◌, ◌||◌, Option, some, List, first,
  count, if◌then◌else◌, Bool-cases, inl, inr, arith, ◌==◌,
}
use devnest.Model.Enums.{
  WorkspaceStatus, WorkspaceJobType, WorkspaceJobStatus, is_busy, is_queued, is_job_running,
}
use devnest.Model.Rows.{Workspace, WorkspaceJob, WorkspaceRuntime}
use devnest.Intent.Invariant.{is_live, jobs_due, OneJob, first_put, first_put_other, equal, same_id}
use devnest.Worker.State.{Txn}
use devnest.Worker.Db.{Db, has_job_id, has_workspace_id, put_job, put_workspace}
use devnest.Worker.Queue.{is_lifecycle}
use devnest.Worker.Outcome.{Ends}
use devnest.Worker.Keys.{keys}
use devnest.Worker.Rewrites.{
  weight, count-put_job, count-put_key, first-put_key, UniqueIds, found-count,
}

-- However a job ends, it is live where its workspace is busy.
pub Ends-live :
    (jt : WorkspaceJobType) (s : WorkspaceJobStatus) (w : WorkspaceStatus)
    (rt : Option WorkspaceRuntime)
    → is_lifecycle jt ≡ true
    → Ends jt s w rt
    → (is_queued s || is_job_running s) ≡ is_busy w
Ends-live jt WorkspaceJobStatus.queued w rt l e = sym e
Ends-live jt WorkspaceJobStatus.failed w rt l e = rw (e.0) refl
Ends-live jt WorkspaceJobStatus.running w rt l e = absurd e
Ends-live jt WorkspaceJobStatus.cancelled w rt l e = absurd e
Ends-live WorkspaceJobType.stop WorkspaceJobStatus.succeeded w rt l e = rw (e.0) refl
Ends-live WorkspaceJobType.delete WorkspaceJobStatus.succeeded w rt l e = rw (e.0) refl
Ends-live WorkspaceJobType.update WorkspaceJobStatus.succeeded w rt l e = elim e [
  | inl r ↦ rw r refl
  | inr r ↦ rw (r.0) refl
]
Ends-live WorkspaceJobType.create WorkspaceJobStatus.succeeded w rt l e = rw e refl
Ends-live WorkspaceJobType.start WorkspaceJobStatus.succeeded w rt l e = rw e refl
Ends-live WorkspaceJobType.restart WorkspaceJobStatus.succeeded w rt l e = rw e refl
Ends-live WorkspaceJobType.reconcile_runtime WorkspaceJobStatus.succeeded w rt l e = rw e refl
Ends-live WorkspaceJobType.snapshot_create WorkspaceJobStatus.succeeded w rt l e = rw e refl
Ends-live WorkspaceJobType.snapshot_restore WorkspaceJobStatus.succeeded w rt l e = rw e refl
Ends-live WorkspaceJobType.repo_import WorkspaceJobStatus.succeeded w rt l e = rw e refl
Ends-live WorkspaceJobType.unsupported WorkspaceJobStatus.succeeded w rt l e = rw e refl

-- The count of live jobs after the two writes of a tick: when the job is claimed, and at its end.
two_writes :
    (w : ℕ) (j0 j1 j2 : WorkspaceJob) (jobs : List WorkspaceJob)
    → UniqueIds jobs
    → first (has_job_id j1.workspace_job_id) jobs ≡ some j0
    → j2.workspace_job_id ≡ j1.workspace_job_id
    → is_live w j0 ≡ is_live w j1
    → count (is_live w) (put_job j2 (put_job j1 jobs)) + weight (is_live w j0)
      ≡ count (is_live w) jobs + weight (is_live w j2)
two_writes w j0 j1 j2 jobs u f i l =
    let once = count-put_job (is_live w) j1 jobs {old = j0} f (u j1.workspace_job_id) in
    let found =
      subst (λ x. first (has_job_id x) (put_job j1 jobs) ≡ some j1) (sym i)
        (first-put_key j1 jobs {old = j0} f) in
    let unique : count (has_job_id j2.workspace_job_id) (put_job j1 jobs) ≤ 1 =
      rw (count-put_key j2.workspace_job_id j1 jobs) (u j2.workspace_job_id) in
    let twice = count-put_job (is_live w) j2 (put_job j1 jobs) {old = j1} found unique in
    omega (arith, once, twice, ap weight l)

-- The last write of a tick, by what is known of the rows that it writes.
module _ (j0 j1 : WorkspaceJob) (ws : Workspace) (t : Txn) (db : Db) (unique : UniqueIds db.jobs)
    (found : first (has_job_id j1.workspace_job_id) db.jobs ≡ some j0)
    (live0 : (v : ℕ) → is_live v j0 ≡ (j1.workspace_id == v))
    (live1 : (v : ℕ) → is_live v j1 ≡ (j1.workspace_id == v))
    (lifecycle : is_lifecycle j1.job_type ≡ true)
    (row : first (has_workspace_id j1.workspace_id) db.workspaces ≡ some ws)
    (one : (v : ℕ) → OneJob v db) where
  pub busy_row : is_busy ws.status ≡ true
  unfolding OneJob
  busy_row =
      by_count (is_busy ws.status)
        (found-count (is_live j1.workspace_id) j1.workspace_job_id db.jobs {j = j0} found
          (rw (live0 j1.workspace_id) (ground arith)))
        (one j1.workspace_id ∙ ap jobs_due row)
    where
      by_count : (b : Bool) {n : ℕ} → 1 ≤ n → n ≡ (if b then 1 else 0) → b ≡ true
      by_count true h e = refl
      by_count false h e = absurd (omega (arith, h, e))

  live_after :
      (v : ℕ)
      → (keys t ≡ (j1.workspace_job_id, j1.workspace_id, j1.job_type, ws.workspace_id))
      → (is_queued t.job.status || is_job_running t.job.status) ≡ is_busy t.ws.status
      → is_live v t.job ≡ ((j1.workspace_id == v) && is_busy t.ws.status)
  unfolding keys
  live_after v k h = rw (ap (λ x. x.1) k, ap (λ x. x.2) k, lifecycle, h) (ground arith)

  pub written-OneJob :
      (w : ℕ)
      → (keys t ≡ (j1.workspace_job_id, j1.workspace_id, j1.job_type, ws.workspace_id))
      → (is_queued t.job.status || is_job_running t.job.status) ≡ is_busy t.ws.status
      → count (is_live w) (put_job t.job (put_job j1 db.jobs))
        ≡ jobs_due (first (has_workspace_id w) (put_workspace t.ws db.workspaces))
  unfolding keys OneJob
  written-OneJob w k h =
      let sum =
        two_writes w j0 j1 t.job db.jobs unique found (ap (λ x. x.0) k) (live0 w ∙ sym (live1 w)) in
      let id = ap (λ x. x.3) k ∙ same_id j1.workspace_id db.workspaces row in
      let live2 = live_after w k h in
      let b = is_busy t.ws.status in
      elim (Bool-cases (j1.workspace_id == w)) [
        | inr e ↦ rw (first_put_other w t.ws db.workspaces (ap (λ x. x == w) id ∙ e)) (
            omega
              (arith, sum, one w, ap weight (live0 w ∙ e), ap weight (live2 ∙ ap (λ x. x && b) e)))
        | inl e ↦
            (let at_w = equal j1.workspace_id w e in
              let there =
                subst (λ x. first (has_workspace_id x) db.workspaces ≡ some ws) at_w row in
              rw (first_put w t.ws db.workspaces {ws = ws} there (id ∙ at_w)) (
                omega (
                  arith,
                  sum,
                  one w ∙ ap jobs_due there,
                  ap weight busy_row,
                  ap weight (live0 w ∙ e),
                  ap weight (live2 ∙ ap (λ x. x && b) e),
                )))
      ]
