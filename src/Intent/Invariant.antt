-- ===== src/Intent/Invariant.antt =====
-- One lifecycle job per busy workspace, kept by every request (workspace_intent_service.py).
use mathlib.Core.Path.{subst}
use devnest.Base.{
  ℕ, ◌≡◌, refl, Bool, true, false, ◌&&◌, ◌||◌, Option, none, some, List, [], ◌∷◌, ◌++◌, first, leb,
  count, if◌then◌else◌, Bool-cases, Option-cases, inl, inr, arith, ◌==◌, ◌∙◌, ap, count-snoc,
  first-keeps,
}
use devnest.Model.Enums.{
  WorkspaceStatus, WorkspaceJobType, WorkspaceJobStatus, is_busy, is_queued, is_job_running,
}
use devnest.Model.Rows.{Workspace, WorkspaceJob}
use devnest.Model.Env.{Env}
use devnest.Intent.{new_job, Requested, rejected, accepted, ReopenIssues}
use devnest.Intent.Laws.{
  Intent, request, allowed_in, job_type_of, Answered, request-Answered, start, stop, restart,
  delete, update,
}
use devnest.Intent.Create.{
  CreateWorkspaceRequest, create_workspace, create_checks, requested_cpu, requested_memory,
}
use devnest.Worker.Db.{Db, has_workspace_id, put_workspace}
use devnest.Worker.Queue.{is_lifecycle}

-- A job of the workspace that is to change its status, and has not ended.
abbrev pub is_live : ℕ → WorkspaceJob → Bool
is_live wid j =
    j.workspace_id == wid
    && is_lifecycle j.job_type
    && (is_queued j.status || is_job_running j.status)

abbrev pub jobs_due : Option Workspace → ℕ
jobs_due none = 0
jobs_due (some ws) = if is_busy ws.status then 1 else 0

-- A busy workspace has one live job, a settled or a missing one has none.
unfoldable pub OneJob : ℕ → Db → Type 0
OneJob wid db = count (is_live wid) db.jobs ≡ jobs_due (first (has_workspace_id wid) db.workspaces)

abbrev pub db_after : Requested → Db
db_after (rejected e db) = db
db_after (accepted job db) = db

pub first_put :
    (w : ℕ) (v : Workspace) (rows : List Workspace) {ws : Workspace}
    → first (has_workspace_id w) rows ≡ some ws
    → v.workspace_id ≡ w
    → first (has_workspace_id w) (put_workspace v rows) ≡ some v
unfolding put_workspace
first_put w v [] h e = ground arith
first_put w v (r ∷ rows) {ws} h e = elim (Bool-cases (has_workspace_id v.workspace_id r)) [
  | inl q ↦ rw q (ground (arith, e))
  | inr q ↦ rw q (ground (arith, h, e, q, first_put w v rows {ws = ws}))
]

pub first_put_other :
    (w : ℕ) (v : Workspace) (rows : List Workspace)
    → (v.workspace_id == w) ≡ false
    → first (has_workspace_id w) (put_workspace v rows) ≡ first (has_workspace_id w) rows
unfolding put_workspace
first_put_other w v [] e = refl
first_put_other w v (r ∷ rows) e = elim (Bool-cases (has_workspace_id v.workspace_id r)) [
  | inl q ↦ rw q (ground (arith, e, q, first_put_other w v rows e))
  | inr q ↦ rw q (ground (arith, first_put_other w v rows e))
]

pub equal : (a b : ℕ) → (a == b) ≡ true → a ≡ b
equal a b h = ground arith

pub same_id :
    (wid : ℕ) (rows : List Workspace) {ws : Workspace}
    → first (has_workspace_id wid) rows ≡ some ws
    → ws.workspace_id ≡ wid
same_id wid rows {ws} h = ground (arith, first-keeps (has_workspace_id wid) rows {x = ws} h)

live_new :
    (w : ℕ) (job : WorkspaceJob)
    → is_lifecycle job.job_type ≡ true
    → job.status ≡ WorkspaceJobStatus.queued
    → is_live w job ≡ (job.workspace_id == w)
live_new w job l s = rw (l, s) (ground arith)

-- One job more for a settled workspace that becomes busy.
queued-OneJob :
    (w wid : ℕ) (jobs : List WorkspaceJob) (rows : List Workspace) (job : WorkspaceJob)
    (ws ws' : Workspace)
    → first (has_workspace_id wid) rows ≡ some ws
    → is_busy ws.status ≡ false
    → is_busy ws'.status ≡ true
    → ws'.workspace_id ≡ wid
    → is_live w job ≡ (wid == w)
    → count (is_live w) jobs ≡ jobs_due (first (has_workspace_id w) rows)
    → count (is_live w) (jobs ++ job ∷ [])
      ≡ jobs_due (first (has_workspace_id w) (put_workspace ws' rows))
queued-OneJob w wid jobs rows job ws ws' f b b' i l h = elim (Bool-cases (wid == w)) [
  | inl e ↦
      (let at_w = equal wid w e in
        let found = subst (λ x. first (has_workspace_id x) rows ≡ some ws) at_w f in
        rw
          (
            count-snoc (is_live w) jobs job,
            first_put w ws' rows {ws = ws} found (i ∙ at_w),
            l,
            e,
            b',
          )
          (rw (h, found, b) refl))
  | inr e ↦
      rw (count-snoc (is_live w) jobs job, first_put_other w ws' rows (rw i e), l, e)
        (rw h (omega arith))
]

Answered-OneJob :
    (allowed : WorkspaceStatus → Bool) (jt : WorkspaceJobType) (wid owner : ℕ) (db : Db)
    (r : Requested) (w : ℕ)
    → is_lifecycle jt ≡ true
    → Answered allowed jt wid owner db r
    → OneJob w db
    → OneJob w (db_after r)
unfolding OneJob
Answered-OneJob allowed jt wid owner db (rejected e db') w l a h = rw a h
Answered-OneJob allowed jt wid owner db (accepted job db') w l a h =
    let (ws, ws', f, o, al, b, t, s, i, jobs, b', i', rows) = a in
    rw (jobs, rows)
      (queued-OneJob w wid db.jobs db.workspaces job ws ws' f b b'
        (i' ∙ same_id wid db.workspaces f)
        (live_new w job (rw t l) s ∙ ap (λ x. x == w) (i ∙ same_id wid db.workspaces f)) h)

-- Every request keeps the number of live lifecycle jobs of every workspace at one where the
-- workspace is busy and at zero where it is settled.
pub request-OneJob :
    (env : Env) (issues : ReopenIssues) (job_id wid owner by : ℕ) (db : Db) (i : Intent) (w : ℕ)
    → OneJob w db
    → OneJob w (db_after (request env issues job_id wid owner by db i))
request-OneJob env issues job_id wid owner by db i w h =
    Answered-OneJob (allowed_in i) (job_type_of i) wid owner db
      (request env issues job_id wid owner by db i) w (lifecycle i)
      (request-Answered env issues job_id wid owner by db i) h
  where
    lifecycle : (i : Intent) → is_lifecycle (job_type_of i) ≡ true
    lifecycle start = refl
    lifecycle stop = refl
    lifecycle restart = refl
    lifecycle delete = refl
    lifecycle (update cpu memory) = refl

first-snoc_same :
    (w : ℕ) (v : Workspace) (rows : List Workspace)
    → first (has_workspace_id w) rows ≡ none
    → v.workspace_id ≡ w
    → first (has_workspace_id w) (rows ++ v ∷ []) ≡ some v
first-snoc_same w v [] h e = ground (arith, e)
first-snoc_same w v (r ∷ rows) h e = ground (arith, first-snoc_same w v rows)

first-snoc_other :
    (w : ℕ) (v : Workspace) (rows : List Workspace)
    → (v.workspace_id == w) ≡ false
    → first (has_workspace_id w) (rows ++ v ∷ []) ≡ first (has_workspace_id w) rows
first-snoc_other w v [] e = rw e refl
first-snoc_other w v (r ∷ rows) e =
    ap (λ x. if has_workspace_id w r then some r else x) (first-snoc_other w v rows e)

created-OneJob :
    (w wid : ℕ) (jobs : List WorkspaceJob) (rows : List Workspace) (job : WorkspaceJob)
    (v : Workspace)
    → first (has_workspace_id wid) rows ≡ none
    → v.workspace_id ≡ wid
    → is_busy v.status ≡ true
    → is_live w job ≡ (wid == w)
    → count (is_live w) jobs ≡ jobs_due (first (has_workspace_id w) rows)
    → count (is_live w) (jobs ++ job ∷ []) ≡ jobs_due (first (has_workspace_id w) (rows ++ v ∷ []))
created-OneJob w wid jobs rows job v f i b l h = elim (Bool-cases (wid == w)) [
  | inl e ↦
      (let at_w = equal wid w e in
        let found = subst (λ x. first (has_workspace_id x) rows ≡ none) at_w f in
        rw (count-snoc (is_live w) jobs job, first-snoc_same w v rows found (i ∙ at_w), l, e, b)
          (rw (h, found) refl))
  | inr e ↦
      rw (count-snoc (is_live w) jobs job, first-snoc_other w v rows (rw i e), l, e)
        (rw h (omega arith))
]

-- Creating a workspace under an id that no workspace has keeps the number of live lifecycle jobs of
-- every workspace at one where the workspace is busy and at zero where it is settled or missing.
pub create_workspace-OneJob :
    (env : Env) (wid job_id owner : ℕ) (body : CreateWorkspaceRequest) (db : Db) (w : ℕ)
    → first (has_workspace_id wid) db.workspaces ≡ none
    → OneJob w db
    → OneJob w (db_after (create_workspace env wid job_id owner body db))
unfolding OneJob create_workspace
create_workspace-OneJob env wid job_id owner body db w fresh h =
    elim (Option-cases (create_checks env db owner body)) [
      | inr (d, e) ↦ rw (e, create_workspace) h
      | inl e ↦
          rw (e, create_workspace)
            (elim (Bool-cases (leb (requested_cpu body) 0 || leb (requested_memory body) 0)) [
              | inl k ↦ rw k h
              | inr k ↦ rw k (
                  created-OneJob w wid db.jobs db.workspaces _ _ fresh refl refl
                    (live_new w (new_job env.now job_id WorkspaceJobType.create wid owner 1) refl
                      refl)
                    h)
            ])
    ]
