-- ===== src/Session/Laws.antt =====
-- What the operations on sessions leave (workspace_session_service.py).
use devnest.Base.{
  Bool, ℕ, ◌+◌, ◌<◌, ◌≡◌, refl, true, ◌&&◌, List, [], ◌∷◌, leb, ◌==◌, if◌then◌else◌, first, ◌≤◌,
  ◌≢◌, false, some, leb→le, Text, strip, is_empty, text_eq, not, arith, count-snoc, first-keeps,
  Bool-cases, Option-cases, inl, inr,
}
use mathlib.Core.Path.{subst}
use mathlib.Core.List.{Mem, mem-cons_self, mem-cons_of_mem}
use devnest.Model.Enums.{WorkspaceSessionStatus, is_active}
use devnest.Model.Rows.{Workspace, WorkspaceSession}
use devnest.Session.{
  count_effective_active_sessions, reconcile_workspace_active_session_count,
  create_workspace_session, Access, expired, granted, has_hash, put_session, resolve_row,
  resolve_workspace_session_for_access,
}

-- The rows after a revocation: one that was active in the workspace is REVOKED and else as it was,
-- and every other row is as it was.
abbrev pub RevokedIn : ℕ → ℕ → List WorkspaceSession → List WorkspaceSession → Type 0
RevokedIn now wid [] [] = Unit
RevokedIn now wid (r ∷ rs) (r' ∷ rs') =
    (r.workspace_id ≡ wid
      → r.status ≡ WorkspaceSessionStatus.active
      → r' ≡ record r { status = WorkspaceSessionStatus.revoked; updated_at = now })
    × (r.workspace_id ≢ wid → r' ≡ r)
    × (r.status ≢ WorkspaceSessionStatus.active → r' ≡ r)
    × RevokedIn now wid rs rs'
RevokedIn now wid _ _ = ⊥

-- A new session counts at once: the count that its workspace stores and the number of its sessions
-- in force are one more than the sessions that were, and no other workspace has more.
pub create-count :
    (now ttl new_id user w : ℕ) (hash : Text) (ws : Workspace) (rows : List WorkspaceSession)
    → let made = create_workspace_session now ttl new_id hash user ws rows in
      (made.0.active_sessions_count ≡ count_effective_active_sessions now ws.workspace_id rows + 1)
      × (count_effective_active_sessions now w made.1
          ≡ count_effective_active_sessions now w rows + (if ws.workspace_id == w then 1 else 0))
unfolding create_workspace_session reconcile_workspace_active_session_count
    count_effective_active_sessions
create-count now ttl new_id user w hash ws rows =
    (rw count-snoc (ground arith), rw count-snoc (ground arith))

text_eq-same : (s t : Text) → text_eq s t ≡ true → s ≡ t
unfolding text_eq
text_eq-same [] [] h = refl
text_eq-same [] (d ∷ t) h = ground arith
text_eq-same (c ∷ s) [] h = ground arith
text_eq-same (c ∷ s) (d ∷ t) h = ground (arith, text_eq-same s t)

-- A row that was expired, or used, by an access: its other columns are as they were.
abbrev expired_row : ℕ → WorkspaceSession → WorkspaceSession
expired_row now r = record r { status = WorkspaceSessionStatus.expired; updated_at = now }

abbrev used_row : ℕ → WorkspaceSession → WorkspaceSession
used_row now r = record r { last_seen_at = now; updated_at = now }

-- An active session of the user and the workspace, a row of the table with the hash.
pub record Presented (user : ℕ) (h : Text) (ws : Workspace) (rows : List WorkspaceSession)
    (r : WorkspaceSession) : Type 0 where
  pub is_row : Mem r rows
  pub user_id : r.user_id ≡ user
  pub workspace_id : r.workspace_id ≡ ws.workspace_id
  pub active : r.status ≡ WorkspaceSessionStatus.active
  pub hash : r.session_token_hash ≡ h

-- The rows of the session's id are the changed one afterwards, and every other row is as it was.
abbrev pub OnlySession : WorkspaceSession → List WorkspaceSession → List WorkspaceSession → Type 0
OnlySession s [] [] = Unit
OnlySession s (r ∷ rs) (r' ∷ rs') =
    (r.workspace_session_id ≡ s.workspace_session_id → r' ≡ s)
    × (r.workspace_session_id ≢ s.workspace_session_id → r' ≡ r)
    × OnlySession s rs rs'
OnlySession s _ _ = ⊥

put_session-OnlySession :
    (s : WorkspaceSession) (rows : List WorkspaceSession) → OnlySession s rows (put_session s rows)
put_session-OnlySession s [] = tt
put_session-OnlySession s (r ∷ rs) =
    elim (Bool-cases (r.workspace_session_id == s.workspace_session_id)) [
      | inl e ↦
          rw e ((λ q. refl), (λ n. absurd (n (ground (arith, e)))), put_session-OnlySession s rs)
      | inr e ↦
          rw e ((λ q. absurd (ground (arith, e, q))), (λ n. refl), put_session-OnlySession s rs)
    ]

first-Mem :
    (p : WorkspaceSession → Bool) (rows : List WorkspaceSession) {r : WorkspaceSession}
    → first p rows ≡ some r
    → Mem r rows
first-Mem p [] h = absurd (cc)
first-Mem p (x ∷ rows) {r} h = elim (Bool-cases (p x)) [
  | inl e ↦ subst (λ y. Mem y (x ∷ rows)) (found e) mem-cons_self
  | inr e ↦ mem-cons_of_mem x (first-Mem p rows (later e))
]
  where
    found : p x ≡ true → x ≡ r
    found e = ground (arith, e, h)

    later : p x ≡ false → first p rows ≡ some r
    later e = ground (arith, e, h)

-- A session that grants access is a row of the table: the user's, for this workspace, active, not
-- expired, and with the hash of the token; but for the time of its use it is handed out as it was,
-- and nothing else changes. Where access is denied as expired, a row of the same kind has expired,
-- stands so in the table, in which nothing else has changed, and the workspace's count is what is
-- left in force. In every other case nothing changes.
abbrev pub Resolved :
    ℕ
    → ℕ
    → Text
    → Workspace
    → List WorkspaceSession
    → Access × Workspace × List WorkspaceSession
    → Type 0
Resolved now user h ws rows (granted r', ws', rows') =
    (r : WorkspaceSession) × Presented user h ws rows r
    × (now < r.expires_at)
    × (r' ≡ used_row now r)
    × (ws' ≡ ws)
    × OnlySession r' rows rows'
Resolved now user h ws rows (expired, ws', rows') =
    (r : WorkspaceSession) × Presented user h ws rows r
    × (r.expires_at ≤ now)
    × OnlySession (expired_row now r) rows rows'
    × (ws' ≡ record ws {
      active_sessions_count = count_effective_active_sessions now ws.workspace_id rows';
      updated_at = now;
    })
Resolved now user h ws rows (_, ws', rows') = (ws' ≡ ws) × (rows' ≡ rows)

resolve_row-Resolved :
    (now user : ℕ) (h : Text) (ws : Workspace) (rows : List WorkspaceSession)
    (row : WorkspaceSession)
    → Mem row rows
    → row.session_token_hash ≡ h
    → Resolved now user h ws rows (resolve_row now user ws rows row)
unfolding resolve_row reconcile_workspace_active_session_count
resolve_row-Resolved now user h ws rows row m e =
    elim (Bool-cases (not (row.workspace_id == ws.workspace_id && row.user_id == user))) [
      | inl a ↦ rw a (refl, refl)
      | inr a ↦ rw a (elim (Bool-cases (not (is_active row.status))) [
        | inl b ↦ rw b (refl, refl)
        | inr b ↦
            (let presented : Presented user h ws rows row = record {
              is_row = m;
              user_id = ground (arith, a);
              workspace_id = ground (arith, a);
              active = ground (arith, b);
              hash = e;
            } in
              rw b (elim (Bool-cases (leb row.expires_at now)) [
                | inl c ↦ rw c (
                  row,
                  presented,
                  leb→le _ _ c,
                  put_session-OnlySession (expired_row now row) rows,
                  refl,
                )
                | inr c ↦ rw c (
                  row,
                  presented,
                  ground (arith, c),
                  refl,
                  refl,
                  put_session-OnlySession (used_row now row) rows,
                )
              ]))
      ])
    ]

-- A session that grants access is a row of the table, is the user's, is for this workspace, is
-- active and unexpired, and has the hash of the stripped token; it alone changes, in the time of
-- its use. Where access is denied as expired, a row like it but past its time is set to EXPIRED, no
-- other row changes, and the count that the workspace stores is that of the sessions still in
-- force; every other answer changes nothing.
pub resolve-Resolved :
    (now : ℕ) (hash : Text → Text) (user : ℕ) (token : Text) (ws : Workspace)
    (rows : List WorkspaceSession)
    → Resolved now user
        (hash (strip token))
        ws
        rows
        (resolve_workspace_session_for_access now hash user token ws rows)
unfolding resolve_workspace_session_for_access
resolve-Resolved now hash user token ws rows = elim (Bool-cases (is_empty (strip token))) [
  | inl e ↦ rw e (refl, refl)
  | inr e ↦ rw e (elim (Option-cases (first (has_hash (hash (strip token))) rows)) [
    | inl f ↦ rw f (refl, refl)
    | inr (row, f) ↦ rw f (
        resolve_row-Resolved now user (hash (strip token)) ws rows row
          (first-Mem (has_hash (hash (strip token))) rows f)
          (text_eq-same row.session_token_hash (hash (strip token))
            (first-keeps (has_hash (hash (strip token))) rows f)))
  ])
]
