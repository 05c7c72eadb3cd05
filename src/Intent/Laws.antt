-- ===== src/Intent/Laws.antt =====
-- When a request is accepted, and what it leaves (workspace_intent_service.py).
use devnest.Base.{
  ℕ, ◌≡◌, refl, Bool, true, false, not, ◌||◌, Option, none, some, [], ◌∷◌, ◌++◌, first,
  if◌then◌else◌, Option-cases, Bool-cases, inl, inr, arith, ◌&&◌, ◌==◌,
}
use devnest.Model.Enums.{WorkspaceStatus, WorkspaceJobType, WorkspaceJobStatus, is_busy, is_deleted}
use devnest.Model.Rows.{Workspace}
use devnest.Model.Env.{Env}
use devnest.Intent.{
  Requested, IntentError, rejected, accepted, ReopenIssues, admit, get_owned_workspace,
  persist_intent, start_allowed, stop_allowed, restart_allowed, update_allowed, delete_allowed,
  request_start_workspace, request_stop_workspace, request_restart_workspace,
  request_delete_workspace, request_update_workspace, latest_config, intent_denial,
}
use devnest.Worker.Db.{Db, has_workspace_id, put_workspace}

-- The requests, with the ids of the new job, the workspace, its owner and the user who asks.
pub data Intent : Type 0 where
  start stop restart delete : Intent
  update : Option ℕ → Option ℕ → Intent

abbrev pub request : Env → ReopenIssues → ℕ → ℕ → ℕ → ℕ → Db → Intent → Requested
request env issues job_id wid owner by db start =
    request_start_workspace env issues job_id wid owner by db
request env issues job_id wid owner by db stop = request_stop_workspace env job_id wid owner by db
request env issues job_id wid owner by db restart =
    request_restart_workspace env issues job_id wid owner by db
request env issues job_id wid owner by db delete =
    request_delete_workspace env job_id wid owner by db
request env issues job_id wid owner by db (update cpu memory) =
    request_update_workspace env job_id wid owner by cpu memory db

abbrev pub allowed_in : Intent → WorkspaceStatus → Bool
allowed_in start = start_allowed
allowed_in stop = stop_allowed
allowed_in restart = restart_allowed
allowed_in delete = delete_allowed
allowed_in (update cpu memory) = update_allowed

abbrev pub job_type_of : Intent → WorkspaceJobType
job_type_of start = WorkspaceJobType.start
job_type_of stop = WorkspaceJobType.stop
job_type_of restart = WorkspaceJobType.restart
job_type_of delete = WorkspaceJobType.delete
job_type_of (update cpu memory) = WorkspaceJobType.update

-- A rejected request changes no table but the audit log. An accepted one comes from the owner of a
-- workspace that is settled in a status that the request allows; one queued job of the request's
-- type is added, and the workspace is busy.
abbrev pub Answered : (WorkspaceStatus → Bool) → WorkspaceJobType → ℕ → ℕ → Db → Requested → Type 0
Answered allowed jt wid owner db (rejected e db') = db' ≡ record db { audits = db'.audits }
Answered allowed jt wid owner db (accepted job db') =
    (ws : Workspace) × (ws' : Workspace) × (first (has_workspace_id wid) db.workspaces ≡ some ws)
    × (ws.owner_user_id ≡ owner)
    × (allowed ws.status ≡ true)
    × (is_busy ws.status ≡ false)
    × (job.job_type ≡ jt)
    × (job.status ≡ WorkspaceJobStatus.queued)
    × (job.workspace_id ≡ ws.workspace_id)
    × (db'.jobs ≡ db.jobs ++ job ∷ [])
    × (is_busy ws'.status ≡ true)
    × (ws'.workspace_id ≡ ws.workspace_id)
    × (db'.workspaces ≡ put_workspace ws' db.workspaces)

pub owned :
    (wid owner : ℕ) (include : Bool) (db : Db) {ws : Workspace}
    → get_owned_workspace wid owner include db ≡ some ws
    → (first (has_workspace_id wid) db.workspaces ≡ some ws) × (ws.owner_user_id ≡ owner)
unfolding get_owned_workspace
owned wid owner include db h = by_row (first (has_workspace_id wid) db.workspaces) h
  where
    by_row :
        (o : Option Workspace) {ws : Workspace}
        → elim o [
          | none ↦ none
          | some ws ↦
              if ws.owner_user_id == owner && (not (is_deleted ws.status) || include)
              then some ws
              else none
        ]
          ≡ some ws
        → (o ≡ some ws) × (ws.owner_user_id ≡ owner)
    by_row none h = ground arith
    by_row (some w) h = ground arith

module _ (allowed : WorkspaceStatus → Bool) (jt : WorkspaceJobType) (wid owner : ℕ) (db : Db) where
  persist-Answered :
      (env : Env) (job_id by version : ℕ) (new_status : WorkspaceStatus) (ws : Workspace)
      → first (has_workspace_id wid) db.workspaces ≡ some ws
      → ws.owner_user_id ≡ owner
      → allowed ws.status ≡ true
      → is_busy ws.status ≡ false
      → is_busy new_status ≡ true
      → Answered allowed jt wid owner db (persist_intent env job_id new_status jt by db ws version)
  unfolding persist_intent
  persist-Answered env job_id by version new_status ws f o a b n =
      elim (Option-cases (intent_denial env jt db ws)) [
        | inl e ↦ rw (e, persist_intent) (ws, _, f, o, a, b, refl, refl, refl, refl, n, refl, refl)
        | inr (d, e) ↦ rw (e, persist_intent) refl
      ]

-- What holds of the database with every exception, and of what is done once the guards have let the
-- request through, holds of the request.
pub admit-holds :
    (P : Requested → Type 0) (wid owner : ℕ) (include : Bool) (allowed : WorkspaceStatus → Bool)
    (blocked : Workspace → Bool) (db : Db) (persist : Workspace → ℕ → Requested)
    → ((e : IntentError) → P (rejected e db))
    → ((ws : Workspace) (version : ℕ)
        → first (has_workspace_id wid) db.workspaces ≡ some ws
        → ws.owner_user_id ≡ owner
        → allowed ws.status ≡ true
        → is_busy ws.status ≡ false
        → P (persist ws version))
    → P (admit wid owner include allowed blocked db persist)
unfolding admit
admit-holds P wid owner include allowed blocked db persist raise h =
    elim (Option-cases (get_owned_workspace wid owner include db)) [
      | inl e ↦ rw (e, admit) (raise _)
      | inr (ws, e) ↦
          rw (e, admit)
            (elim (Bool-cases (is_busy ws.status)) [
              | inl b ↦ rw b (raise _)
              | inr b ↦ rw b (elim (Bool-cases (not (allowed ws.status) || blocked ws)) [
                | inl k ↦ rw k (raise _)
                | inr k ↦ rw k (elim (Option-cases (latest_config wid db.configs)) [
                  | inl c ↦ rw c (raise _)
                  | inr (c, q) ↦ rw q (
                      let mine = owned wid owner include db e in
                      h ws c.version mine.0 mine.1 (ground (arith, k)) b)
                ])
              ])
            ])
    ]

-- Every request of a user is rejected with all tables but the audit log as they were, or accepted
-- from a settled status that it allows, for the owner: then exactly one QUEUED job of its type is
-- added for that workspace, which is busy afterwards.
pub request-Answered :
    (env : Env) (issues : ReopenIssues) (job_id wid owner by : ℕ) (db : Db) (i : Intent)
    → Answered
        (allowed_in i)
        (job_type_of i)
        wid
        owner
        db
        (request env issues job_id wid owner by db i)
unfolding request_start_workspace request_stop_workspace request_restart_workspace
    request_delete_workspace request_update_workspace
request-Answered env issues job_id wid owner by db start =
    admit-holds (Answered start_allowed WorkspaceJobType.start wid owner db) wid owner false
      start_allowed _ db _ (λ _. refl)
      (λ ws v f o a b.
        persist-Answered start_allowed WorkspaceJobType.start wid owner db env job_id by v
          WorkspaceStatus.starting ws f o a b refl)
request-Answered env issues job_id wid owner by db stop =
    admit-holds (Answered stop_allowed WorkspaceJobType.stop wid owner db) wid owner false
      stop_allowed _ db _ (λ _. refl)
      (λ ws v f o a b.
        persist-Answered stop_allowed WorkspaceJobType.stop wid owner db env job_id by v
          WorkspaceStatus.stopping ws f o a b refl)
request-Answered env issues job_id wid owner by db restart =
    admit-holds (Answered restart_allowed WorkspaceJobType.restart wid owner db) wid owner false
      restart_allowed _ db _ (λ _. refl)
      (λ ws v f o a b.
        persist-Answered restart_allowed WorkspaceJobType.restart wid owner db env job_id by v
          WorkspaceStatus.restarting ws f o a b refl)
request-Answered env issues job_id wid owner by db delete =
    admit-holds (Answered delete_allowed WorkspaceJobType.delete wid owner db) wid owner true
      delete_allowed _ db _ (λ _. refl)
      (λ ws v f o a b.
        persist-Answered delete_allowed WorkspaceJobType.delete wid owner db env job_id by v
          WorkspaceStatus.deleting ws f o a b refl)
request-Answered env issues job_id wid owner by db (update cpu memory) =
    admit-holds (Answered update_allowed WorkspaceJobType.update wid owner db) wid owner false
      update_allowed _ db _ (λ _. refl)
      (λ ws v f o a b. (ws, _, f, o, a, b, refl, refl, refl, refl, refl, refl, refl))
