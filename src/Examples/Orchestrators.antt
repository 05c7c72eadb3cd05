-- ===== src/Examples/Orchestrators.antt =====
-- An orchestrator on an engine that counts the calls that change it, and on a node whose plumbing
-- fails: the bring-up is rolled back. Then a drain of the cleanup task of a workspace.
use devnest.Base.{ℕ, ◌+◌, ◌≡◌, ◌↔◌, refl, true, false, none, some, [], ◌∷◌, text, strip, is_space}
use devnest.Worker.State.{WorkspaceStopResult}
use devnest.Topology.Ensure.{BridgeResult}
use devnest.Topology.Alone.{alone}
use devnest.Topology.Allocate.{KeepLeases}
use devnest.Orchestrator.Adapters.{
  gives, pure, Returns, ContainerInspectionResult, RuntimeAdapter, ProbeRunner, WorkspaceHost,
}
use devnest.Orchestrator.Texts.{parse_topology_workspace_id}
use devnest.Orchestrator.Stop.{Service, stop_workspace_runtime}
use devnest.Orchestrator.StopLaws.{stop_workspace_runtime-SaysWhy}
use devnest.Orchestrator.Rollback.{bring_up_workspace_runtime}
use devnest.Orchestrator.OnTables.{DbTopology, on_tables}
use devnest.Orchestrator.CleanLaws.{Stopped, stop_workspace_runtime-Stopped}
use devnest.Topology.Rows.{Tables, TopologyAttachmentStatus}
use devnest.Orchestrator.Delete.{delete_workspace_runtime}
use devnest.Orchestrator.DeleteLaws.{Deleted, delete_workspace_runtime-Deleted}
use devnest.Orchestrator.Cleaned.{Cleaned, bring_up_workspace_runtime-Cleaned}
use devnest.Model.Enums.{WorkspaceStatus, WorkspaceCleanupTaskStatus, WorkspaceRuntimeHealthStatus}
use devnest.Model.Rows.{CleanupScope}
use devnest.Worker.Db.{Db}
use devnest.Cleanup.{Json, drain_pending_cleanup_tasks}
use devnest.Cleanup.Laws.{Moved, drain-Moved}
use devnest.Examples.Data.{workspace, db_with, reserved_runtime}
use devnest.Examples.Networks.{node_1, tables, detach_host, attach_host, no_lease-IsUnique}

abbrev inspection : ContainerInspectionResult
inspection = record {
  exists = true;
  container_id = some (text "c7");
  container_state = some (text "running");
  pid = some 42;
  labels = [];
  ports = (32000, 8080) ∷ [];
}

abbrev engine : RuntimeAdapter ℕ
engine = record {
  ensure_running_runtime_only = λ r n. (
    gives (record {
      container_id = text "c7";
      container_state = some (text "running");
      pid = 42;
      netns_ref = text "/proc/42/ns/net";
      resolved_ports = (32000, 8080) ∷ [];
    }),
    n + 1,
  );
  get_container_netns_ref = λ c. pure (record { pid = 42; netns_ref = text "/proc/42/ns/net" });
  netns_target_visible = λ r. true;
  fetch_container_log_tail = λ c. pure [];
  inspect_container = λ c. pure inspection;
  stop_container = λ c n. (
    gives (record { success = true; container_state = some (text "exited"); message = none }),
    n + 1,
  );
  delete_container =
      λ c n. (gives (record { success = true; container_state = none; message = none }), n + 1);
}

abbrev probes : ProbeRunner ℕ
probes = record {
  check_service_reachable = λ ip. pure true;
  check_workspace_health = λ i c. pure (record {
    healthy = true;
    container_state = some (text "running");
    workspace_ip = none;
    internal_endpoint = none;
    issues = [];
  });
  check_container_running = λ c. pure (record { healthy = true; issues = [] });
  check_service_http = λ p. pure (record { healthy = true; issues = [] });
}

abbrev host : WorkspaceHost ℕ
host = record {
  ensure_workspace_project_dir = λ i k b. pure (text "/projects/7");
  ide_bind_host_path = λ p m. p;
  code_server_extra_bind_mounts = λ i p m. pure [];
  verify_writable = λ p. pure tt;
  finalize_ownership = λ p. pure tt;
  project_dir_exists = λ i k. pure true;
  has_command_runner = false;
}

abbrev topology : DbTopology
topology = record {
  bridge = record {
    apply_linux_bridge = false;
    bridge_result = λ r. BridgeResult.done;
    bridge_name_for = λ t n. text "dn1";
  };
  attach_host = attach_host;
  detach_host = detach_host;
  others = alone;
  topologies = [];
  now = 500;
  error_text = λ e. text "failed";
}

abbrev service : Service ℕ
service = record {
  probe_runner = probes;
  workspace_host = host;
  settings = record {
    cpu_limit = 1000;
    memory_limit_mb = 512;
    pids_limit = 256;
    workspace_auth_mode = none;
    workspace_password = none;
    security_options = [];
    ide_polls = 3;
  };
  topology_endpoint = λ ip. text "10.128.0.2:8080";
  local_endpoint = λ p. text "127.0.0.1:32000";
  remote_topology_attach_deferred = false;
  skip_linux_topology_attachment = false;
  compose_traefik_upstream_target = λ ports endpoint. endpoint;
  runtime_adapter = engine;
  topology_service = record {
    ensure_node_topology = λ t n. pure tt;
    allocate_workspace_ip = λ t n w. pure 1;
    attach_workspace = λ t n w c r ip. pure ip;
    detach_workspace = λ t n w. pure true;
    release_workspace_ip_lease = λ t n w. pure true;
    delete_topology = λ t n. pure tt;
  };
  topology_id = 1;
  node_id = node_1;
  authoritative_container_ref_required = false;
}

alone-KeepLeases : KeepLeases alone
alone-KeepLeases = record { before_keeps = λ i db u. u; during_keeps = λ i db u. u }

stop_workspace_runtime-SaysWhy_example :
    Returns
      (λ (r : WorkspaceStopResult) w. (r.success ≡ true) ↔ (r.issues ≡ []))
      (stop_workspace_runtime service (text "7") none true 0)
stop_workspace_runtime-SaysWhy_example =
    stop_workspace_runtime-SaysWhy service (text "7") none true 0

stop_workspace_runtime-Stopped_example :
    Returns
      (Stopped topology service 7)
      (stop_workspace_runtime (on_tables topology service) (text "7") none true (tables, 0))
unfolding parse_topology_workspace_id strip is_space
stop_workspace_runtime-Stopped_example =
    stop_workspace_runtime-Stopped topology service (text "7") none 7 (tables, 0) refl refl
      no_lease-IsUnique

bring_up_workspace_runtime-Cleaned_example : Cleaned topology service 7 (
    bring_up_workspace_runtime
      (on_tables topology service)
      (text "7")
      none
      none
      none
      none
      none
      []
      none
      (tables, 0))
unfolding parse_topology_workspace_id strip is_space
bring_up_workspace_runtime-Cleaned_example =
    bring_up_workspace_runtime-Cleaned topology service (text "7") none none none none none [] none
      7 tables 0 alone-KeepLeases (λ i k b e. tt) refl refl no_lease-IsUnique

-- A workspace that is attached is deleted.
abbrev attached_tables : Tables
attached_tables = record tables {
  attachments =
      record {
        topology_id = 1;
        node_id = node_1;
        workspace_id = 7;
        container_id = some (text "c7");
        status = TopologyAttachmentStatus.attached;
        workspace_ip = some 1;
        interface_host = none;
        interface_container = none;
        bridge_name = none;
        gateway_ip = none;
        updated_at = 0;
      }
      ∷ [];
}

delete_workspace_runtime-Deleted_example :
    Returns
      (Deleted topology service 7 attached_tables)
      (delete_workspace_runtime (on_tables topology service) (text "7") none (attached_tables, 0))
unfolding parse_topology_workspace_id strip is_space
delete_workspace_runtime-Deleted_example =
    delete_workspace_runtime-Deleted topology service (text "7") none 7 (attached_tables, 0) refl
      refl

abbrev json : Json
json = record {
  error_detail = λ e n. e;
  incomplete_detail = λ issues n. text "issues";
  deferred_of = λ d. none;
  with_deferred = λ d reason wid extra. reason;
}

abbrev owing_db : Db
owing_db = record (db_with (workspace 1 7 WorkspaceStatus.stopped ∷ []) []) {
  runtimes =
      record reserved_runtime {
        topology_id = some 1;
        node_id = some (text "node-1");
        health_status = WorkspaceRuntimeHealthStatus.cleanup_required;
      }
      ∷ [];
  cleanup_tasks =
      record {
        workspace_id = 1;
        scope = CleanupScope.stop_incomplete;
        detail = none;
        status = WorkspaceCleanupTaskStatus.pending;
        attempts = 0;
        updated_at = 0;
      }
      ∷ [];
}

drain-Moved_example :
    let d =
      drain_pending_cleanup_tasks json 900 (λ i. text "1") (λ n t. gives service) 8 owing_db 0 in
    Moved d.total owing_db.cleanup_tasks d.db.cleanup_tasks
drain-Moved_example = drain-Moved json 900 (λ i. text "1") (λ n t. gives service) 8 owing_db 0
