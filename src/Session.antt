-- ===== src/Session.antt =====
-- backend/app/services/workspace_service/services/workspace_session_service.py: the sessions of a
-- workspace. The token's hash is a parameter; the functions take the row of the workspace and the
-- table of the sessions, and return what they leave of both.
pub mod Laws
use devnest.Base.{
  ℕ, ◌+◌, ◌<◌, max, Bool, true, false, ◌&&◌, Option, none, some, List, [], ◌∷◌, ◌++◌, ltb, leb,
  ◌==◌, if◌then◌else◌, first, count, update_where, Text, strip, is_empty, text_eq, not,
}
use devnest.Model.Enums.{WorkspaceSessionStatus, is_active}
use devnest.Model.Rows.{Workspace, WorkspaceSession}

abbrev pub is_active_of : ℕ → WorkspaceSession → Bool
is_active_of wid r = r.workspace_id == wid && is_active r.status

unfoldable pub count_effective_active_sessions : ℕ → ℕ → List WorkspaceSession → ℕ
count_effective_active_sessions now wid = count (λ r. is_active_of wid r && ltb now r.expires_at)

unfoldable pub reconcile_workspace_active_session_count :
    ℕ → Workspace → List WorkspaceSession → Workspace
reconcile_workspace_active_session_count now ws rows = record ws {
  active_sessions_count = count_effective_active_sessions now ws.workspace_id rows;
  updated_at = now;
}

abbrev revoke : ℕ → WorkspaceSession → WorkspaceSession
revoke now r = record r { status = WorkspaceSessionStatus.revoked; updated_at = now }

-- The number of revoked sessions decides whether the workspace's count is set anew.
unfoldable pub revoke_all_workspace_sessions :
    ℕ → Workspace → List WorkspaceSession → Workspace × List WorkspaceSession
revoke_all_workspace_sessions now ws rows =
    let rows' = update_where (is_active_of ws.workspace_id) (revoke now) rows in
    if ltb 0 (count (is_active_of ws.workspace_id) rows)
    then (reconcile_workspace_active_session_count now ws rows', rows')
    else (ws, rows')

unfoldable pub create_workspace_session :
    ℕ → ℕ → ℕ → Text → ℕ → Workspace → List WorkspaceSession → Workspace × List WorkspaceSession
create_workspace_session now ttl_seconds new_id token_hash user_id ws rows =
    let row : WorkspaceSession = record {
      workspace_session_id = new_id;
      workspace_id = ws.workspace_id;
      user_id = user_id;
      status = WorkspaceSessionStatus.active;
      session_token_hash = token_hash;
      issued_at = now;
      expires_at = now + max 60 ttl_seconds;
      last_seen_at = now;
      updated_at = now;
    } in
    let rows' = rows ++ row ∷ [] in (reconcile_workspace_active_session_count now ws rows', rows')

-- Why `WorkspaceAccessDeniedError` was raised, or the session that grants access.
pub data Access : Type 0 where
  missing_token unknown_token token_workspace_mismatch not_active expired : Access
  granted : WorkspaceSession → Access

abbrev has_hash : Text → WorkspaceSession → Bool
has_hash h r = text_eq r.session_token_hash h

-- `session.add(row)` writes the row back under its key.
abbrev pub put_session : WorkspaceSession → List WorkspaceSession → List WorkspaceSession
put_session r = update_where (λ q. q.workspace_session_id == r.workspace_session_id) (λ _. r)

resolve_row :
    ℕ
    → ℕ
    → Workspace
    → List WorkspaceSession
    → WorkspaceSession
    → Access × Workspace × List WorkspaceSession
resolve_row now user_id ws rows row =
    if not (row.workspace_id == ws.workspace_id && row.user_id == user_id)
    then (token_workspace_mismatch, ws, rows)
    else if not (is_active row.status)
    then (not_active, ws, rows)
    else if leb row.expires_at now
    then (let rows' =
          put_session (record row { status = WorkspaceSessionStatus.expired; updated_at = now })
            rows in
        (expired, reconcile_workspace_active_session_count now ws rows', rows'))
    else (let row' = record row { last_seen_at = now; updated_at = now } in
        (granted row', ws, put_session row' rows))

unfoldable pub resolve_workspace_session_for_access :
    ℕ
    → (Text → Text)
    → ℕ
    → Text
    → Workspace
    → List WorkspaceSession
    → Access × Workspace × List WorkspaceSession
unfolding resolve_row
resolve_workspace_session_for_access now hash user_id token_plain ws rows =
    if is_empty (strip token_plain)
    then (missing_token, ws, rows)
    else elim (first (has_hash (hash (strip token_plain))) rows) [
      | none ↦ (unknown_token, ws, rows)
      | some row ↦ resolve_row now user_id ws rows row
    ]
