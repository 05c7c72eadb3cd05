-- ===== src/Examples/Requests.antt =====
-- Requests of a user, quotas and policies.
use devnest.Base.{
  ◌≡◌, refl, true, false, ◌&&◌, ◌||◌, not, none, some, [], ◌∷◌, text, arith, any, is_some,
}
use devnest.Model.Enums.{WorkspaceStatus, WorkspaceJobType}
use devnest.Admission.Quotas.{get_effective_quota}
use devnest.Admission.Policies.{
  applies, rule, image_allowed, evaluate_workspace_start, evaluate_workspace_creation,
}
use devnest.Admission.Policies.Laws.{evaluate_workspace_start-any, evaluate_workspace_creation-any}
use devnest.Intent.{request_start_workspace, request_restart_workspace, stop_allowed, ReopenIssues}
use devnest.Intent.Create.{CreateWorkspaceRequest, create_workspace}
use devnest.Intent.Laws.{request-Answered, Answered, request, stop}
use devnest.Intent.Invariant.{OneJob, db_after, request-OneJob, create_workspace-OneJob}
use devnest.Intent.Limits.{WithinLimit, start-WithinLimit}
use devnest.Worker.Db.{Db}
use devnest.Examples.Data.{env_at, workspace, db_with, no_start, quota}

abbrev opens : ReopenIssues
opens ws rt = false

-- A workspace that runs, and one of another owner that is stopped.
abbrev settled : Db
settled =
    db_with (workspace 1 7 WorkspaceStatus.running ∷ workspace 2 8 WorkspaceStatus.stopped ∷ []) []

abbrev resting : Db
resting = db_with (workspace 1 7 WorkspaceStatus.stopped ∷ []) []

request-OneJob_example : OneJob 1 (db_after (request (env_at 50) opens 3 1 7 7 settled stop))
unfolding OneJob
request-OneJob_example = request-OneJob (env_at 50) opens 3 1 7 7 settled stop 1 refl

request-Answered_example :
    Answered stop_allowed WorkspaceJobType.stop 1 7 settled
      (request (env_at 50) opens 3 1 7 7 settled stop)
request-Answered_example = request-Answered (env_at 50) opens 3 1 7 7 settled stop

abbrev body : CreateWorkspaceRequest
body = record {
  cpu_limit_cores = none;
  memory_limit_mib = none;
  image = text "python";
  is_private = some true;
}

create_workspace-OneJob_example :
    OneJob 5 (db_after (create_workspace (env_at 50) 5 3 8 body settled))
unfolding OneJob
create_workspace-OneJob_example = create_workspace-OneJob (env_at 50) 5 3 8 body settled 5 refl refl

-- The only workspace of the owner may start.
start-WithinLimit_example :
    WithinLimit 7 1 (request_start_workspace (env_at 50) opens 3 1 7 7 resting)
    × WithinLimit 7 1 (request_restart_workspace (env_at 50) opens 3 1 7 7 resting)
unfolding get_effective_quota
start-WithinLimit_example =
    start-WithinLimit (env_at 50) opens 3 1 7 7 1 resting {q = quota} refl refl (omega arith)

evaluate_workspace_start-any_example :
    is_some (evaluate_workspace_start (no_start ∷ []) 7 2)
    ≡ any
        (λ p. applies (some 7) (some 2) p && not (rule p.rules_json.allow_workspace_start true))
        (no_start ∷ [])
evaluate_workspace_start-any_example = evaluate_workspace_start-any (no_start ∷ []) 7 2

evaluate_workspace_creation-any_example :
    is_some (evaluate_workspace_creation (no_start ∷ []) 7 (text "python") false)
    ≡ any
        (λ p.
          applies (some 7) none p
          && (not (rule p.rules_json.allow_workspace_creation true)
              || not (image_allowed (text "python") p.rules_json.allowed_runtime_images)
              || (true && rule p.rules_json.require_private_workspaces false)))
        (no_start ∷ [])
evaluate_workspace_creation-any_example =
    evaluate_workspace_creation-any (no_start ∷ []) 7 (text "python") false
