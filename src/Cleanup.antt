-- ===== src/Cleanup.antt =====
-- The draining of durable cleanup tasks: `process_durable_cleanup_tasks_for_workspace`,
-- `_merge_cleanup_deferred_note` and `drain_pending_cleanup_tasks` of
-- backend/app/services/cleanup_service/service.py. A stop is that of the orchestrator that the
-- workspace's node is bound to; what `json` writes and reads is a parameter. A stop works on a world
-- apart from the tables of the tasks, so that a rollback of the session inside a stop, which would
-- lose what the tasks before it have written, is left out.
use devnest.Base.{
  ℕ, suc, ◌+◌, ◌==◌, Bool, true, false, not, ◌&&◌, Option, none, some, List, [], ◌∷◌, map,
  if◌then◌else◌, Text, text, text_eq, is_empty, stripped, strip, nonempty, first, any, take, max,
  select, update_where,
}
use devnest.Model.Enums.{WorkspaceCleanupTaskStatus, WorkspaceRuntimeHealthStatus}
use devnest.Model.Rows.{Workspace, WorkspaceRuntime, WorkspaceCleanupTask}
use devnest.Worker.Db.{Db, runtime_of, has_workspace_id, put_runtime}
use devnest.Worker.State.{WorkspaceStopResult}
use devnest.Orchestrator.Adapters.{Outcome, gives, throws, Failure, message}
use devnest.Orchestrator.Stop.{Service, stop_workspace_runtime}
pub mod Laws

-- The texts of the payloads, and what a payload says of an earlier deferral.
pub record Json : Type 0 where
  pub error_detail : Text → ℕ → Text
  pub incomplete_detail : List Text → ℕ → Text
  pub deferred_of : Option Text → Option (Text × ℕ)
  pub with_deferred : Option Text → Text → ℕ → Option Text → Text

abbrev pub is_pending : WorkspaceCleanupTaskStatus → Bool
is_pending WorkspaceCleanupTaskStatus.pending = true
is_pending _ = false

abbrev pub is_succeeded : WorkspaceCleanupTaskStatus → Bool
is_succeeded WorkspaceCleanupTaskStatus.succeeded = true
is_succeeded _ = false

abbrev pub pending_of : ℕ → WorkspaceCleanupTask → Bool
pending_of wid t = t.workspace_id == wid && is_pending t.status

unfoldable pub runtime_placement_row_complete : Option WorkspaceRuntime → Bool
runtime_placement_row_complete none = false
runtime_placement_row_complete (some rt) = elim rt.topology_id [
  | none ↦ false
  | some t ↦ not (is_empty (stripped rt.node_id))
]

-- What a pass over the tasks of a workspace leaves.
pub record Processed (W : Type 0) : Type 0 where
  pub tasks : List WorkspaceCleanupTask
  pub runtime : Option WorkspaceRuntime
  pub succeeded : ℕ
  pub world : W

abbrev is_cleanup_required : WorkspaceRuntimeHealthStatus → Bool
is_cleanup_required WorkspaceRuntimeHealthStatus.cleanup_required = true
is_cleanup_required _ = false

abbrev pub settled_runtime : ℕ → Option WorkspaceRuntime → Option WorkspaceRuntime
settled_runtime now none = none
settled_runtime now (some rt) = some (
    if is_cleanup_required rt.health_status
    then record rt { health_status = WorkspaceRuntimeHealthStatus.unknown; updated_at = now }
    else rt)

abbrev pub attempted : ℕ → WorkspaceCleanupTask → WorkspaceCleanupTask
attempted now t = record t { attempts = t.attempts + 1; updated_at = now }

abbrev pub noted : ℕ → Text → WorkspaceCleanupTask → WorkspaceCleanupTask
noted now detail t = record t {
  attempts = t.attempts + 1;
  detail = some (take 8192 detail);
  updated_at = now;
}

abbrev container_of : Option WorkspaceRuntime → Option Text
container_of none = none
container_of (some rt) = nonempty (stripped rt.container_id)

module _ {W : Type 0} where
  abbrev pub with_task : WorkspaceCleanupTask → ℕ → Processed W → Processed W
  with_task t n r = record r { tasks = t ∷ r.tasks; succeeded = n + r.succeeded }

  -- The task after its stop, and the tasks that follow.
  unfoldable pub task_answer :
      Json
      → ℕ
      → WorkspaceCleanupTask
      → Option WorkspaceRuntime
      → (Option WorkspaceRuntime → W → Processed W)
      → Outcome WorkspaceStopResult × W
      → Processed W
  task_answer json now t rt rest (throws e, w) =
      with_task (noted now (json.error_detail (message e) (t.attempts + 1)) t) 0 (rest rt w)
  task_answer json now t rt rest (gives r, w) =
      if r.success
      then with_task (record (attempted now t) { status = WorkspaceCleanupTaskStatus.succeeded }) 1
          (rest (settled_runtime now rt) w)
      else with_task (noted now (json.incomplete_detail r.issues (t.attempts + 1)) t) 0 (rest rt w)

  -- The pending tasks of the workspace, one after the other; the other rows stay.
  unfoldable pub process_rows :
      Json
      → ℕ
      → Service W
      → Text
      → ℕ
      → Option Text
      → List WorkspaceCleanupTask
      → Option WorkspaceRuntime
      → W
      → Processed W
  unfolding task_answer stop_workspace_runtime
  process_rows json now orchestrator id wid cid [] rt w = record {
    tasks = [];
    runtime = rt;
    succeeded = 0;
    world = w;
  }
  process_rows json now orchestrator id wid cid (t ∷ ts) rt w =
      let rest = λ (r : Option WorkspaceRuntime) (v : W).
        process_rows json now orchestrator id wid cid ts r v in
      if pending_of wid t
      then task_answer json now t rt rest (stop_workspace_runtime orchestrator id cid true w)
      else with_task t 0 (rest rt w)

  unfoldable pub process_durable_cleanup_tasks_for_workspace :
      Json
      → ℕ
      → Service W
      → Text
      → ℕ
      → List WorkspaceCleanupTask
      → Option WorkspaceRuntime
      → W
      → Processed W
  unfolding process_rows runtime_placement_row_complete
  process_durable_cleanup_tasks_for_workspace json now orchestrator id wid tasks rt w =
      if not (any (pending_of wid) tasks)
      then record { tasks = tasks; runtime = rt; succeeded = 0; world = w }
      else if not (runtime_placement_row_complete rt)
      then record { tasks = tasks; runtime = rt; succeeded = 0; world = w }
      else process_rows json now orchestrator id wid (container_of rt) tasks rt w

abbrev pub says_deferred : Text → ℕ → Option (Text × ℕ) → Bool
says_deferred reason wid none = false
says_deferred reason wid (some (r, i)) = text_eq r reason && i == wid

-- A task whose payload says the same already is left alone.
unfoldable pub merge_cleanup_deferred_note :
    Json → ℕ → Text → ℕ → Option Text → List WorkspaceCleanupTask → List WorkspaceCleanupTask
merge_cleanup_deferred_note json now reason wid extra tasks =
    update_where (pending_of wid)
      (λ (t : WorkspaceCleanupTask).
        if says_deferred reason wid (json.deferred_of t.detail) then t else record t {
          detail = some (take 8192 (json.with_deferred t.detail reason wid extra));
          updated_at = now;
        })
      tasks

-- The workspaces with a pending task, each once, in the order of the rows; the query has no order.
abbrev add_id : ℕ → List ℕ → List ℕ
add_id i ids = i ∷ select (λ j. not (j == i)) ids

abbrev pub pending_ids : List WorkspaceCleanupTask → List ℕ
pending_ids [] = []
pending_ids (t ∷ ts) =
    if is_pending t.status then add_id t.workspace_id (pending_ids ts) else pending_ids ts

-- The tables with the count of the tasks that have succeeded, and the world.
pub record Drained (W : Type 0) : Type 0 where
  pub db : Db
  pub total : ℕ
  pub world : W

abbrev node_of : Option WorkspaceRuntime → Text
node_of none = []
node_of (some rt) = stripped rt.node_id

abbrev topology_of : Option WorkspaceRuntime → ℕ
topology_of none = 0
topology_of (some rt) = elim rt.topology_id [ none ↦ 0 | some t ↦ t ]

module _ {W : Type 0} (json : Json) (now : ℕ) (id_text : ℕ → Text)
    (bind : Text → ℕ → Outcome (Service W)) where
  abbrev deferred : ℕ → Text → Option Text → Drained W → Drained W
  deferred wid reason extra d = record d {
    db = record d.db {
      cleanup_tasks = merge_cleanup_deferred_note json now reason wid extra d.db.cleanup_tasks;
    };
  }

  abbrev stored : ℕ → Drained W → Processed W → Drained W
  stored wid d r = record {
    db = record d.db {
      cleanup_tasks = r.tasks;
      runtimes = put_runtime wid r.runtime d.db.runtimes;
    };
    total = d.total + r.succeeded;
    world = r.world;
  }

  unfoldable pub drain_bound :
      ℕ → Option WorkspaceRuntime → Outcome (Service W) → Drained W → Drained W
  unfolding merge_cleanup_deferred_note process_durable_cleanup_tasks_for_workspace put_runtime
  drain_bound wid rt (throws e) d =
      deferred wid (text "orchestrator_binding_failed") (some (take 500 (message e))) d
  drain_bound wid rt (gives orchestrator) d = stored wid d (
      process_durable_cleanup_tasks_for_workspace json now orchestrator (id_text wid) wid
        d.db.cleanup_tasks rt d.world)

  unfoldable pub drain_workspace : ℕ → Option WorkspaceRuntime → Drained W → Drained W
  unfolding drain_bound merge_cleanup_deferred_note runtime_placement_row_complete
  drain_workspace wid rt d =
      if not (any (has_workspace_id wid) d.db.workspaces)
      then d
      else if not (any (pending_of wid) d.db.cleanup_tasks)
      then d
      else if not (runtime_placement_row_complete rt)
      then deferred wid (text "runtime_placement_incomplete") none d
      else drain_bound wid rt (bind (node_of rt) (topology_of rt)) d

  unfoldable pub drain_ids : List ℕ → Drained W → Drained W
  unfolding drain_workspace
  drain_ids [] d = d
  drain_ids (wid ∷ ids) d =
      drain_ids ids (drain_workspace wid (first (runtime_of wid) d.db.runtimes) d)

  -- At least one workspace is looked at.
  unfoldable pub drain_pending_cleanup_tasks : ℕ → Db → W → Drained W
  unfolding drain_ids
  drain_pending_cleanup_tasks limit_workspaces db w =
      drain_ids (take (max 1 limit_workspaces) (pending_ids db.cleanup_tasks))
        (record { db = db; total = 0; world = w })
