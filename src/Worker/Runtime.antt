-- ===== src/Worker/Runtime.antt =====
-- How worker.py brings the row of the runtime in line with what the orchestrator reports, and the
-- durable cleanup tasks (cleanup_service/service.py).
use devnest.Base.{
  ℕ, zero, suc, Bool, true, false, ◌&&◌, ◌||◌, Option, none, some, List, [], ◌∷◌, ◌++◌,
  if◌then◌else◌, ◌==◌, first, update_where, Text, text, stripped, is_empty, join, or_else, nonempty,
  text_eq,
}
use devnest.Model.Enums.{
  WorkspaceRuntimeHealthStatus, WorkspaceCleanupTaskStatus, ExecutionNodeExecutionMode, is_ec2,
}
use devnest.Model.Rows.{
  WorkspaceRuntime, WorkspaceCleanupTask, ExecutionNode, CleanupScope, bringup_rollback,
  stop_incomplete, new_runtime,
}
use devnest.Model.Env.{Env}
use devnest.Worker.State.{
  Txn, RunningRuntime, WorkspaceStopResult, Rollback, Message, no_private_ip, no_published_port,
}

abbrev pub same_scope : CleanupScope → CleanupScope → Bool
same_scope bringup_rollback bringup_rollback = true
same_scope stop_incomplete stop_incomplete = true
same_scope _ _ = false

abbrev pub is_task : ℕ → CleanupScope → WorkspaceCleanupTask → Bool
is_task wid scope r = r.workspace_id == wid && same_scope r.scope scope

abbrev pub issues_detail : List Text → Option Text
issues_detail [] = none
issues_detail (i ∷ is) = some (join (text ",") (i ∷ is))

refresh_task : ℕ → Option Text → WorkspaceCleanupTask → WorkspaceCleanupTask
refresh_task now detail row = elim (row.status) [
  | WorkspaceCleanupTaskStatus.succeeded ↦ row
  | WorkspaceCleanupTaskStatus.pending ↦ record row {
    detail = or_else detail row.detail;
    status = WorkspaceCleanupTaskStatus.pending;
    updated_at = now;
  }
]

-- A row whose task has succeeded is left as it is.
unfoldable pub ensure_durable_cleanup_task :
    ℕ → ℕ → CleanupScope → List Text → List WorkspaceCleanupTask → List WorkspaceCleanupTask
unfolding refresh_task
ensure_durable_cleanup_task now wid scope issues rows = elim (first (is_task wid scope) rows) [
  | none ↦
      rows
      ++ record {
        workspace_id = wid;
        scope = scope;
        detail = issues_detail issues;
        status = WorkspaceCleanupTaskStatus.pending;
        attempts = 0;
        updated_at = now;
      }
        ∷ []
  | some row ↦ update_where (is_task wid scope) (refresh_task now (issues_detail issues)) rows
]

unfoldable pub health_from_probe : Option Bool → WorkspaceRuntimeHealthStatus
health_from_probe (some true) = WorkspaceRuntimeHealthStatus.healthy
health_from_probe (some false) = WorkspaceRuntimeHealthStatus.unhealthy
health_from_probe none = WorkspaceRuntimeHealthStatus.unknown

unfoldable pub get_or_create_runtime : ℕ → ℕ → Option WorkspaceRuntime → WorkspaceRuntime
get_or_create_runtime now wid none = new_runtime wid now
get_or_create_runtime now wid (some rt) = rt

-- The reservation and the applied limits are released together wherever the code does so.
unfoldable pub release : WorkspaceRuntime → WorkspaceRuntime
release rt = record rt {
  reserved_cpu = 0;
  reserved_memory_mb = 0;
  reserved_disk_mb = 0;
  applied_cpu_limit_cores = none;
  applied_memory_limit_mb = none;
  applied_pids_limit = none;
  applied_security_options = none;
}

reserve : Env → RunningRuntime → WorkspaceRuntime → WorkspaceRuntime
reserve env r rt = record rt {
  reserved_cpu = env.settings.devnest_workspace_required_cpu;
  reserved_memory_mb = env.settings.devnest_workspace_required_memory_mb;
  reserved_disk_mb = env.settings.devnest_workspace_required_disk_mb;
  applied_cpu_limit_cores = r.applied_cpu_limit_cores;
  applied_memory_limit_mb = r.applied_memory_limit_mib;
  applied_pids_limit = r.applied_pids_limit;
  applied_security_options = r.applied_security_options;
}

heartbeat : ℕ → Option Bool → Option ℕ → Option ℕ
heartbeat now (some true) last = some now
heartbeat now _ last = last

-- The finalizers pass no explicit reservation, so that the configured defaults are reserved.
unfoldable pub apply_runtime_bringup_like :
    Env → ℕ → RunningRuntime → Option Text → ℕ → Option WorkspaceRuntime → WorkspaceRuntime
unfolding get_or_create_runtime release reserve heartbeat health_from_probe
apply_runtime_bringup_like env wid r gateway_route_target config_version row =
    let rt = get_or_create_runtime env.now wid row in
    let placed = record rt {
      node_id = r.node_id;
      topology_id = r.topology_id;
      container_id = r.container_id;
      container_state = r.container_state;
      internal_endpoint = r.internal_endpoint;
      gateway_route_target = gateway_route_target;
      config_version = some config_version;
    } in
    let sized = if is_empty (stripped r.node_id) then release placed else reserve env r placed in
    record sized {
      health_status = health_from_probe r.probe_healthy;
      last_heartbeat_at = heartbeat env.now r.probe_healthy sized.last_heartbeat_at;
      updated_at = env.now;
    }

-- `x if x is not None else old`
abbrev pub given : Option Text → Option Text → Option Text
given none old = old
given (some x) old = some x

abbrev pub is_true : Option Bool → Bool
is_true (some true) = true
is_true _ = false

rolled_back :
    ℕ → Option Text → Option Text → Option Text → Option Text → WorkspaceRuntime → WorkspaceRuntime
unfolding release
rolled_back now container_id container_state internal_endpoint gateway_route_target rt =
    record (release rt) {
      container_id = given container_id rt.container_id;
      container_state = given container_state rt.container_state;
      internal_endpoint = internal_endpoint;
      gateway_route_target = gateway_route_target;
      health_status = WorkspaceRuntimeHealthStatus.unknown;
      updated_at = now;
    }

needs_cleanup : ℕ → WorkspaceRuntime → WorkspaceRuntime
needs_cleanup now rt = record rt {
  health_status = WorkspaceRuntimeHealthStatus.cleanup_required;
  updated_at = now;
}

abbrev or_issues : List Text → List Text → List Text
or_issues [] b = b
or_issues (i ∷ is) b = i ∷ is

-- The shared body of the two functions below, for a runtime row that exists.
unfoldable pub sync_row :
    ℕ → Bool → List Text → (WorkspaceRuntime → WorkspaceRuntime) → Txn → WorkspaceRuntime → Txn
unfolding needs_cleanup
sync_row now succeeded issues back t rt =
    if succeeded then record t { runtime = some (back rt) } else record t {
      runtime = some (needs_cleanup now rt);
      cleanup_tasks =
          ensure_durable_cleanup_task now t.ws.workspace_id bringup_rollback issues t.cleanup_tasks;
    }

unfoldable pub sync_runtime_after_failed_bringup :
    ℕ → Bool → Option Bool → List Text → List Text → RunningRuntime → Txn → Txn
unfolding sync_row rolled_back
sync_runtime_after_failed_bringup now attempted succeeded rollback_issues issues r t =
    if attempted
    then (elim (t.runtime) [
      | none ↦ t
      | some rt ↦
          sync_row now (is_true succeeded) (or_issues rollback_issues issues)
            (rolled_back now r.container_id r.container_state r.internal_endpoint
              r.gateway_route_target)
            t rt
    ])
    else t

unfoldable pub sync_runtime_after_bringup_exception : ℕ → Rollback → Txn → Txn
unfolding sync_row rolled_back
sync_runtime_after_bringup_exception now exc t =
    if exc.rollback_attempted
    then (elim (t.runtime) [
      | none ↦ t
      | some rt ↦
          sync_row now (is_true exc.rollback_succeeded) exc.rollback_issues
            (rolled_back now exc.rollback_container_id exc.rollback_container_state none none) t rt
    ])
    else t

abbrev detached : Option Bool → Option ℕ → Option ℕ
detached (some false) topology_id = topology_id
detached _ topology_id = none

unfoldable pub apply_runtime_stop :
    ℕ → ℕ → WorkspaceStopResult → Option WorkspaceRuntime → WorkspaceRuntime
unfolding get_or_create_runtime release
apply_runtime_stop now wid result row =
    let rt = get_or_create_runtime now wid row in
    record (release rt) {
      container_id = given result.container_id rt.container_id;
      container_state = given result.container_state rt.container_state;
      topology_id = detached result.topology_detached rt.topology_id;
      internal_endpoint = none;
      gateway_route_target = none;
      health_status = WorkspaceRuntimeHealthStatus.unknown;
      last_heartbeat_at = none;
      updated_at = now;
    }

-- The row is deleted, if there is one.
unfoldable pub clear_runtime_after_delete : Option WorkspaceRuntime → Option WorkspaceRuntime
clear_runtime_after_delete row = none

abbrev pub has_key : Text → ExecutionNode → Bool
has_key key n = text_eq n.node_key key

-- The node of a key, if the key is not blank.
abbrev pub find_node : Option Text → List ExecutionNode → Option ExecutionNode
find_node key nodes = if is_empty (stripped key) then none else first (has_key (stripped key)) nodes

abbrev node_by_id : Option ℕ → List ExecutionNode → Option ExecutionNode
node_by_id none nodes = none
node_by_id (some i) nodes = first (λ n. n.id == i) nodes

abbrev is_remote_mode : ExecutionNodeExecutionMode → Bool
is_remote_mode ExecutionNodeExecutionMode.local_docker = false
is_remote_mode _ = true

abbrev first_some : {A : Type 0} → Option A → Option A → Option A
first_some none b = b
first_some (some a) b = some a

-- The target, or the message of the `WorkspaceBringUpError` that is raised.
pub data RouteTarget : Type 0 where
  target : Option Text → RouteTarget
  refused : Message → RouteTarget

-- `a or b` on ports: a port 0 is false, so that the second stands for it.
abbrev or_port : Option ℕ → Option ℕ → Option ℕ
or_port none q = q
or_port (some zero) q = q
or_port (some (suc p)) q = some (suc p)

remote_target : Env → ExecutionNode → Option Text → Option Text → RouteTarget
remote_target env node gateway_route_target internal_endpoint =
    if is_empty (stripped node.private_ip)
    then refused no_private_ip
    else (elim (or_port (env.route_target_port gateway_route_target)
        (env.route_target_port internal_endpoint)) [
          | none ↦ refused no_published_port
          | some port ↦ target (some (stripped node.private_ip ++ (text ":" ++ env.show port)))
        ])

unfoldable pub remote_gateway_route_target_for_node :
    Env → List ExecutionNode → Option Text → Option ℕ → Option Text → Option Text → RouteTarget
unfolding remote_target
remote_gateway_route_target_for_node env nodes node_key execution_node_id gateway_route_target
      internal_endpoint =
    elim (first_some (find_node node_key nodes) (node_by_id execution_node_id nodes)) [
      | none ↦ target (nonempty (stripped gateway_route_target))
      | some node ↦
          if is_ec2 node.provider_type || is_remote_mode node.execution_mode
          then remote_target env node gateway_route_target internal_endpoint
          else target (nonempty (stripped gateway_route_target))
    ]
