-- ===== src/Cleanup/Laws.antt =====
-- What a drain of backend/app/services/cleanup_service/service.py counts.
use devnest.Base.{
  ℕ, ◌+◌, ◌≡◌, refl, ◌∙◌, Bool, true, false, not, Option, none, some, List, [], ◌∷◌, if◌then◌else◌,
  Text, text, take, max, count, update_where, any, first, length, Bool-cases, inl, inr, arith,
}
use devnest.Model.Enums.{WorkspaceCleanupTaskStatus}
use devnest.Model.Rows.{WorkspaceRuntime, WorkspaceCleanupTask}
use devnest.Worker.State.{WorkspaceStopResult}
use devnest.Worker.Db.{Db, runtime_of, has_workspace_id}
use devnest.Orchestrator.Adapters.{Outcome, gives, throws, message}
use devnest.Orchestrator.Stop.{Service, stop_workspace_runtime}
use devnest.Cleanup.{
  says_deferred, pending_ids, Json, Processed, Drained, is_pending, is_succeeded, pending_of,
  task_answer, process_rows, process_durable_cleanup_tasks_for_workspace,
  merge_cleanup_deferred_note, drain_bound, drain_workspace, drain_ids, drain_pending_cleanup_tasks,
  runtime_placement_row_complete,
}

abbrev pub pending : List WorkspaceCleanupTask → ℕ
pending ts = count (λ (t : WorkspaceCleanupTask). is_pending t.status) ts

abbrev pub succeeded : List WorkspaceCleanupTask → ℕ
succeeded ts = count (λ (t : WorkspaceCleanupTask). is_succeeded t.status) ts

-- From one table to the other, `n` tasks have gone from pending to succeeded.
pub record Moved (n : ℕ) (before after : List WorkspaceCleanupTask) : Type 0 where
  pub left : pending before ≡ n + pending after
  pub done : succeeded after ≡ n + succeeded before
  pub rows : length after ≡ length before

unmoved : (ts : List WorkspaceCleanupTask) → Moved 0 ts ts
unmoved ts = record { left = omega arith; done = omega arith; rows = refl }

cons-Moved :
    (n : ℕ) (t u : WorkspaceCleanupTask) (ts us : List WorkspaceCleanupTask)
    → u.status ≡ t.status
    → Moved n ts us
    → Moved (0 + n) (t ∷ ts) (u ∷ us)
cons-Moved n t u ts us e m = record {
  left = rw e (elim (Bool-cases (is_pending t.status)) [
    | inl p ↦ rw p (omega (arith, m.left))
    | inr p ↦ rw p (omega (arith, m.left))
  ]);
  done = rw e (elim (Bool-cases (is_succeeded t.status)) [
    | inl p ↦ rw p (omega (arith, m.done))
    | inr p ↦ rw p (omega (arith, m.done))
  ]);
  rows = omega (arith, m.rows);
}

done-Moved :
    (n : ℕ) (t u : WorkspaceCleanupTask) (ts us : List WorkspaceCleanupTask)
    → t.status ≡ WorkspaceCleanupTaskStatus.pending
    → u.status ≡ WorkspaceCleanupTaskStatus.succeeded
    → Moved n ts us
    → Moved (1 + n) (t ∷ ts) (u ∷ us)
done-Moved n t u ts us e f m = record {
  left = rw (e, f) (omega (arith, m.left));
  done = rw (e, f) (omega (arith, m.done));
  rows = omega (arith, m.rows);
}

pending_status :
    (s : WorkspaceCleanupTaskStatus) → is_pending s ≡ true → s ≡ WorkspaceCleanupTaskStatus.pending
pending_status WorkspaceCleanupTaskStatus.pending e = refl
pending_status WorkspaceCleanupTaskStatus.succeeded e = cc

is_pending-of :
    (wid : ℕ) (t : WorkspaceCleanupTask) → pending_of wid t ≡ true → is_pending t.status ≡ true
is_pending-of wid t h = ground (arith, h)

module _ {W : Type 0} (json : Json) (now : ℕ) where
  task-Moved :
      (t : WorkspaceCleanupTask) (ts : List WorkspaceCleanupTask) (rt : Option WorkspaceRuntime)
      (rest : Option WorkspaceRuntime → W → Processed W)
      → is_pending t.status ≡ true
      → ((r : Option WorkspaceRuntime) (w : W) → Moved (rest r w).succeeded ts (rest r w).tasks)
      → (x : Outcome WorkspaceStopResult × W)
      → Moved
          (task_answer json now t rt rest x).succeeded
          (t ∷ ts)
          (task_answer json now t rt rest x).tasks
  unfolding task_answer
  task-Moved t ts rt rest p m (throws e, w) = cons-Moved _ t _ ts _ refl (m rt w)
  task-Moved t ts rt rest p m (gives r, w) = elim (Bool-cases r.success) [
    | inl s ↦ rw s (done-Moved _ t _ ts _ (pending_status t.status p) refl (m _ w))
    | inr s ↦ rw s (cons-Moved _ t _ ts _ refl (m rt w))
  ]

  process_rows-Moved :
      (orchestrator : Service W) (id : Text) (wid : ℕ) (cid : Option Text)
      (ts : List WorkspaceCleanupTask) (rt : Option WorkspaceRuntime) (w : W)
      → Moved
          (process_rows json now orchestrator id wid cid ts rt w).succeeded
          ts
          (process_rows json now orchestrator id wid cid ts rt w).tasks
  unfolding process_rows
  process_rows-Moved orchestrator id wid cid [] rt w = unmoved []
  process_rows-Moved orchestrator id wid cid (t ∷ ts) rt w = elim (Bool-cases (pending_of wid t)) [
    | inl e ↦ rw e (
        task-Moved t ts rt (λ r v. process_rows json now orchestrator id wid cid ts r v)
          (is_pending-of wid t e) (λ r v. process_rows-Moved orchestrator id wid cid ts r v)
          (stop_workspace_runtime orchestrator id cid true w))
    | inr e ↦ rw e (cons-Moved _ t t ts _ refl (process_rows-Moved orchestrator id wid cid ts rt w))
  ]

  -- The tasks that a pass over a workspace counts are those that it moves.
  pub process_tasks-Moved :
      (orchestrator : Service W) (id : Text) (wid : ℕ) (ts : List WorkspaceCleanupTask)
      (rt : Option WorkspaceRuntime) (w : W)
      → Moved
          (process_durable_cleanup_tasks_for_workspace json now orchestrator id wid ts rt
            w).succeeded
          ts
          (process_durable_cleanup_tasks_for_workspace json now orchestrator id wid ts rt w).tasks
  unfolding process_durable_cleanup_tasks_for_workspace
  process_tasks-Moved orchestrator id wid ts rt w =
      elim (Bool-cases (not (any (pending_of wid) ts))) [
        | inl e ↦ rw e (unmoved ts)
        | inr e ↦ rw e (elim (Bool-cases (not (runtime_placement_row_complete rt))) [
          | inl f ↦ rw f (unmoved ts)
          | inr f ↦ rw f (process_rows-Moved orchestrator id wid _ ts rt w)
        ])
      ]

update-Moved :
    (p : WorkspaceCleanupTask → Bool) (f : WorkspaceCleanupTask → WorkspaceCleanupTask)
    (ts : List WorkspaceCleanupTask)
    → ((t : WorkspaceCleanupTask) → (f t).status ≡ t.status)
    → Moved 0 ts (update_where p f ts)
update-Moved p f [] h = unmoved []
update-Moved p f (t ∷ ts) h = cons-Moved 0 t _ ts _ (same (p t)) (update-Moved p f ts h)
  where
    same : (b : Bool) → (if b then f t else t).status ≡ t.status
    same true = h t
    same false = refl

merge_note-Moved :
    (json : Json) (now : ℕ) (reason : Text) (wid : ℕ) (extra : Option Text)
    (ts : List WorkspaceCleanupTask)
    → Moved 0 ts (merge_cleanup_deferred_note json now reason wid extra ts)
unfolding merge_cleanup_deferred_note
merge_note-Moved json now reason wid extra ts =
    update-Moved (pending_of wid) _ ts
      (λ t. same t (says_deferred reason wid (json.deferred_of t.detail)))
  where
    same :
        (t : WorkspaceCleanupTask) (b : Bool)
        → (if b then t else record t {
          detail = some (take 8192 (json.with_deferred t.detail reason wid extra));
          updated_at = now;
        }).status
          ≡ t.status
    same t true = refl
    same t false = refl

-- A drain that has gone on from one state to another.
abbrev Went : {W : Type 0} → Drained W → Drained W → Type 0
Went d d' =
    (pending d.db.cleanup_tasks + d.total ≡ pending d'.db.cleanup_tasks + d'.total)
    × (succeeded d.db.cleanup_tasks + d'.total ≡ succeeded d'.db.cleanup_tasks + d.total)
    × (length d'.db.cleanup_tasks ≡ length d.db.cleanup_tasks)

module _ {W : Type 0} (json : Json) (now : ℕ) (id_text : ℕ → Text)
    (bind : Text → ℕ → Outcome (Service W)) where
  stayed : (d : Drained W) → Went d d
  stayed d = (refl, refl, refl)

  drain_bound-Went :
      (wid : ℕ) (rt : Option WorkspaceRuntime) (o : Outcome (Service W)) (d : Drained W)
      → Went d (drain_bound json now id_text bind wid rt o d)
  unfolding drain_bound
  drain_bound-Went wid rt (throws e) d =
      let m =
        merge_note-Moved json now (text "orchestrator_binding_failed") wid
          (some (take 500 (message e))) d.db.cleanup_tasks in
      (omega (arith, m.left), omega (arith, m.done), m.rows)
  drain_bound-Went wid rt (gives orchestrator) d =
      let m =
        process_tasks-Moved json now orchestrator (id_text wid) wid d.db.cleanup_tasks rt d.world in
      (omega (arith, m.left), omega (arith, m.done), m.rows)

  drain_workspace-Went :
      (wid : ℕ) (rt : Option WorkspaceRuntime) (d : Drained W)
      → Went d (drain_workspace json now id_text bind wid rt d)
  unfolding drain_workspace
  drain_workspace-Went wid rt d =
      elim (Bool-cases (not (any (has_workspace_id wid) d.db.workspaces))) [
        | inl e ↦ rw e (stayed d)
        | inr e ↦ rw e (elim (Bool-cases (not (any (pending_of wid) d.db.cleanup_tasks))) [
          | inl f ↦ rw f (stayed d)
          | inr f ↦ rw f (elim (Bool-cases (not (runtime_placement_row_complete rt))) [
            | inl g ↦ rw g (
                let m =
                  merge_note-Moved json now (text "runtime_placement_incomplete") wid none
                    d.db.cleanup_tasks in
                (omega (arith, m.left), omega (arith, m.done), m.rows))
            | inr g ↦ rw g (drain_bound-Went wid rt _ d)
          ])
        ])
      ]

  drain_ids-Went : (ids : List ℕ) (d : Drained W) → Went d (drain_ids json now id_text bind ids d)
  unfolding drain_ids
  drain_ids-Went [] d = stayed d
  drain_ids-Went (wid ∷ ids) d =
      let step = drain_workspace-Went wid (first (runtime_of wid) d.db.runtimes) d in
      let rest =
        drain_ids-Went ids
          (drain_workspace json now id_text bind wid (first (runtime_of wid) d.db.runtimes) d) in
      (omega (arith, step.0, rest.0), omega (arith, step.1, rest.1), rest.2 ∙ step.2)

  -- A drain counts exactly the tasks that go from pending to succeeded: as many are pending less,
  -- as many have succeeded more, and no row is added or dropped, whatever the stops answer.
  pub drain-Moved :
      (limit_workspaces : ℕ) (db : Db) (w : W)
      → Moved
          (drain_pending_cleanup_tasks json now id_text bind limit_workspaces db w).total
          db.cleanup_tasks
          (drain_pending_cleanup_tasks json now id_text bind limit_workspaces db w).db.cleanup_tasks
  unfolding drain_pending_cleanup_tasks
  drain-Moved limit_workspaces db w =
      let went =
        drain_ids-Went (take (max 1 limit_workspaces) (pending_ids db.cleanup_tasks))
          (record { db = db; total = 0; world = w }) in
      record { left = omega (arith, went.0); done = omega (arith, went.1); rows = went.2 }
