-- ===== src/Intent/Limits.antt =====
-- The running quota, kept by a start and a restart (workspace_intent_service.py and
-- quota_service/service.py).
use mathlib.Core.Path.{subst}
use devnest.Base.{
  ap, ◌∙◌, sym, ℕ, ◌+◌, ◌≤◌, ◌≡◌, refl, Bool, true, false, ◌&&◌, not, Option, none, some, List, [],
  ◌∷◌, first, count, if◌then◌else◌, Bool-cases, Option-cases, inl, inr, arith, ◌==◌,
}
use devnest.Model.Enums.{WorkspaceStatus, WorkspaceJobType}
use devnest.Model.Rows.{Workspace, Quota}
use devnest.Model.Env.{Env}
use devnest.Admission.{QuotaField, Denial, ◌then◌}
use devnest.Admission.Quotas.{
  check_running_workspace_quota, counts_as_running, get_effective_quota, limit_of, deny_at,
}
use devnest.Intent.{
  Requested, rejected, accepted, ReopenIssues, persist_intent, start_checks,
  request_start_workspace, request_restart_workspace, intent_denial, is_start_job, with_status,
  start_allowed, restart_allowed,
}
use devnest.Intent.Laws.{admit-holds}
use devnest.Intent.Invariant.{same_id}
use devnest.Worker.Db.{Db, has_workspace_id, put_workspace}

abbrev runs_for : ℕ → Workspace → Bool
runs_for owner w = w.owner_user_id == owner && counts_as_running w.status

-- After a request that was accepted, the owner has at most `n` workspaces that run or will run.
abbrev pub WithinLimit : ℕ → ℕ → Requested → Type 0
WithinLimit owner n (rejected e db) = Unit
WithinLimit owner n (accepted job db) = count (runs_for owner) db.workspaces ≤ n

then-none : (d e : Option Denial) → (d then e) ≡ none → d ≡ none
then-none none e h = refl
then-none (some d) e h = h

below_limit : (n c : ℕ) → deny_at QuotaField.max_running_workspaces (some n) c ≡ none → c + 1 ≤ n
below_limit n c h = ground arith

abbrev others : ℕ → ℕ → List Workspace → ℕ
others owner wid =
    count
      (λ w. w.owner_user_id == owner && counts_as_running w.status && not (w.workspace_id == wid))

room :
    (quotas : List Quota) (rows : List Workspace) (owner wid n : ℕ) {q : Quota}
    → get_effective_quota (some owner) none quotas ≡ some q
    → q.max_running_workspaces ≡ some n
    → check_running_workspace_quota quotas rows owner (some wid) ≡ none
    → others owner wid rows + 1 ≤ n
unfolding check_running_workspace_quota
room quotas rows owner wid n {q} f l h = below_limit n (others owner wid rows) (
    subst (λ o. deny_at QuotaField.max_running_workspaces o (others owner wid rows) ≡ none)
      (ap (limit_of (λ q. q.max_running_workspaces)) f ∙ l) h)

put-counts :
    (owner : ℕ) (v : Workspace) (rows : List Workspace)
    → count (runs_for owner) (put_workspace v rows)
      ≤ others owner v.workspace_id rows + count (has_workspace_id v.workspace_id) rows
unfolding put_workspace
put-counts owner v [] = omega arith
put-counts owner v (r ∷ rows) = elim (Bool-cases (has_workspace_id v.workspace_id r)) [
  | inl e ↦ rw e (ground (arith, put-counts owner v rows))
  | inr e ↦ rw e (ground (arith, put-counts owner v rows))
]

start_passes :
    (env : Env) (db : Db) (ws : Workspace) (jt : WorkspaceJobType)
    → is_start_job jt ≡ true
    → intent_denial env jt db ws ≡ none
    → check_running_workspace_quota db.quotas db.workspaces ws.owner_user_id (some ws.workspace_id)
      ≡ none
unfolding start_checks
start_passes env db ws jt s h = then-none _ _ (rw s at h)

module _ (owner n wid : ℕ) (db : Db) {q : Quota}
    (f : get_effective_quota (some owner) none db.quotas ≡ some q)
    (l : q.max_running_workspaces ≡ some n)
    (u : count (has_workspace_id wid) db.workspaces ≤ 1) where
  persist-WithinLimit :
      (env : Env) (job_id by version : ℕ) (s : WorkspaceStatus) (jt : WorkspaceJobType)
      (ws : Workspace)
      → first (has_workspace_id wid) db.workspaces ≡ some ws
      → ws.owner_user_id ≡ owner
      → is_start_job jt ≡ true
      → WithinLimit owner n (persist_intent env job_id s jt by db ws version)
  unfolding persist_intent
  persist-WithinLimit env job_id by version s jt ws found mine is_start =
      elim (Option-cases (intent_denial env jt db ws)) [
        | inr (d, e) ↦ rw (e, persist_intent) tt
        | inl e ↦
            (let same = same_id wid db.workspaces found in
              let fits = room db.quotas db.workspaces owner ws.workspace_id n f l (
                subst
                  (λ o.
                    check_running_workspace_quota db.quotas db.workspaces o (some ws.workspace_id)
                    ≡ none)
                  mine (start_passes env db ws jt is_start e)) in
              let once = subst (λ i. count (has_workspace_id i) db.workspaces ≤ 1) (sym same) u in
              rw (e, persist_intent)
                (omega
                  (arith, fits, once, put-counts owner (with_status env.now s ws) db.workspaces)))
      ]

-- Where the owner's quota sets a limit of running workspaces and no other workspace has the same id,
-- a START or a RESTART that is accepted leaves at most as many workspaces of the owner that run or
-- are about to.
pub start-WithinLimit :
    (env : Env) (issues : ReopenIssues) (job_id wid owner by n : ℕ) (db : Db) {q : Quota}
    → get_effective_quota (some owner) none db.quotas ≡ some q
    → q.max_running_workspaces ≡ some n
    → count (has_workspace_id wid) db.workspaces ≤ 1
    → WithinLimit owner n (request_start_workspace env issues job_id wid owner by db)
      × WithinLimit owner n (request_restart_workspace env issues job_id wid owner by db)
unfolding request_start_workspace request_restart_workspace
start-WithinLimit env issues job_id wid owner by n db f l u = (
  admit-holds (WithinLimit owner n) wid owner false start_allowed _ db _ (λ _. tt)
      (λ ws v found mine _ _.
        persist-WithinLimit owner n wid db f l u env job_id by v WorkspaceStatus.starting
          WorkspaceJobType.start ws found mine refl),
  admit-holds (WithinLimit owner n) wid owner false restart_allowed _ db _ (λ _. tt)
      (λ ws v found mine _ _.
        persist-WithinLimit owner n wid db f l u env job_id by v WorkspaceStatus.restarting
          WorkspaceJobType.restart ws found mine refl),
)
