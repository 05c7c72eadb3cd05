-- ===== src/Examples/Sessions.antt =====
-- Sessions of a workspace.
use devnest.Base.{strip, ◌+◌, ◌≡◌, List, [], ◌∷◌, text}
use devnest.Model.Enums.{WorkspaceStatus}
use devnest.Model.Rows.{Workspace, WorkspaceSession}
use devnest.Session.{
  count_effective_active_sessions, create_workspace_session, resolve_workspace_session_for_access,
}
use devnest.Session.Laws.{create-count, Resolved, resolve-Resolved}
use devnest.Examples.Data.{session, workspace}

abbrev rows : List WorkspaceSession
rows = session 1 1 5000 (text "a") ∷ session 2 2 5000 (text "b") ∷ []

abbrev ws : Workspace
ws = workspace 1 7 WorkspaceStatus.running

resolve-Resolved_example :
    Resolved 100 7
      (text "a")
      ws
      rows
      (resolve_workspace_session_for_access 100 (λ t. t) 7 (text "a") ws rows)
unfolding strip
resolve-Resolved_example = resolve-Resolved 100 (λ t. t) 7 (text "a") ws rows

create-count_example :
    let made = create_workspace_session 100 3600 3 (text "c") 7 ws rows in
    (made.0.active_sessions_count ≡ count_effective_active_sessions 100 1 rows + 1)
    × (count_effective_active_sessions 100 1 made.1
        ≡ count_effective_active_sessions 100 1 rows + 1)
create-count_example = create-count 100 3600 3 7 1 (text "c") ws rows
