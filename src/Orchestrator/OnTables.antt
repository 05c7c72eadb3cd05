-- ===== src/Orchestrator/OnTables.antt =====
-- The orchestrator of backend/app/services/orchestrator_service/service.py on the adapter of
-- backend/app/libs/topology/db_topology_adapter.py: the world has the tables of the topology, and the
-- state of all else, which the adapters of the runtime, of the host and of the probes change.
use devnest.Base.{ℕ, List, Text}
use devnest.Topology.Rows.{
  Topology, Tables, TopologyError, Result, ok, err, delete_failed, value_error, os_error,
}
use devnest.Topology.Lease.{
  Others, AllocateWorkspaceIpResult, allocate_workspace_ip, release_workspace_ip_lease,
}
use devnest.Topology.Ensure.{BridgeHost, ensure_node_topology}
use devnest.Topology.Attach.{AttachHost, Attempted, attach_workspace}
use devnest.Topology.Detach.{DetachHost, detach_workspace, delete_topology}
use devnest.Orchestrator.Adapters.{
  Failure, topology_error, topology_delete_error, Outcome, gives, throws, M, RuntimeAdapter,
  TopologyAdapter, ProbeRunner, WorkspaceHost,
}
use devnest.Orchestrator.Stop.{Service}

-- What the adapter is built from, and the texts of its exceptions. The time of a method is one.
pub record DbTopology : Type 0 where
  pub bridge : BridgeHost
  pub attach_host : AttachHost
  pub detach_host : DetachHost
  pub others : Others
  pub topologies : List Topology
  pub now : ℕ
  pub error_text : TopologyError → Text

abbrev pub failure_of : DbTopology → TopologyError → Failure
failure_of p delete_failed = topology_delete_error (p.error_text delete_failed)
failure_of p value_error = devnest.Orchestrator.Adapters.value_error (p.error_text value_error)
failure_of p os_error = devnest.Orchestrator.Adapters.os_error (p.error_text os_error)
failure_of p x = topology_error (p.error_text x)

abbrev pub outcome_of : {A B : Type 0} → DbTopology → (A → B) → Result A → Outcome B
outcome_of p f (ok a) = gives (f a)
outcome_of p f (err x) = throws (failure_of p x)

module _ {E : Type 0} where
  -- An operation that leaves the tables alone.
  abbrev pub beside : {A : Type 0} → M E A → M (Tables × E) A
  beside m (db, e) = ((m e).0, (db, (m e).1))

  abbrev pub answered :
      {A B : Type 0} → DbTopology → (A → B) → E → Result A × Tables → Outcome B × (Tables × E)
  answered p f e (r, db) = (outcome_of p f r, (db, e))

  abbrev pub attempted : DbTopology → E → Attempted → Outcome ℕ × (Tables × E)
  attempted p e a = (outcome_of p (λ ip. ip) a.answer, (a.tables, e))

  unfoldable pub db_topology_adapter : DbTopology → TopologyAdapter (Tables × E)
  db_topology_adapter p = record {
    ensure_node_topology = λ t n (db, e).
        answered p (λ r. tt) e (ensure_node_topology p.bridge p.others p.topologies p.now t n db);
    allocate_workspace_ip = λ t n w (db, e).
        answered p (λ (r : AllocateWorkspaceIpResult). r.workspace_ip) e
          (allocate_workspace_ip p.others p.now t n w db);
    attach_workspace = λ t n w c ref ip (db, e).
        attempted p e
          (attach_workspace p.bridge p.attach_host p.others p.topologies p.now t n w c ref ip db);
    detach_workspace =
        λ t n w (db, e). answered p (λ b. b) e (detach_workspace p.detach_host p.now t n w db);
    release_workspace_ip_lease = λ t n w (db, e). (
      gives (release_workspace_ip_lease p.now t n w db).0,
      ((release_workspace_ip_lease p.now t n w db).1, e),
    );
    delete_topology = λ t n (db, e). answered p (λ u. u) e (delete_topology p.detach_host t n db);
  }

  -- The service whose other adapters work beside the tables.
  abbrev beside_runtime : RuntimeAdapter E → RuntimeAdapter (Tables × E)
  beside_runtime a = record {
    ensure_running_runtime_only = λ r. beside (a.ensure_running_runtime_only r);
    get_container_netns_ref = λ c. beside (a.get_container_netns_ref c);
    netns_target_visible = a.netns_target_visible;
    fetch_container_log_tail = λ c. beside (a.fetch_container_log_tail c);
    inspect_container = λ c. beside (a.inspect_container c);
    stop_container = λ c. beside (a.stop_container c);
    delete_container = λ c. beside (a.delete_container c);
  }

  abbrev beside_probes : ProbeRunner E → ProbeRunner (Tables × E)
  beside_probes a = record {
    check_service_reachable = λ ip. beside (a.check_service_reachable ip);
    check_workspace_health = λ i c. beside (a.check_workspace_health i c);
    check_container_running = λ c. beside (a.check_container_running c);
    check_service_http = λ port. beside (a.check_service_http port);
  }

  abbrev beside_host : WorkspaceHost E → WorkspaceHost (Tables × E)
  beside_host a = record {
    ensure_workspace_project_dir = λ i k b. beside (a.ensure_workspace_project_dir i k b);
    ide_bind_host_path = a.ide_bind_host_path;
    code_server_extra_bind_mounts = λ i q m. beside (a.code_server_extra_bind_mounts i q m);
    verify_writable = λ q. beside (a.verify_writable q);
    finalize_ownership = λ q. beside (a.finalize_ownership q);
    project_dir_exists = λ i k. beside (a.project_dir_exists i k);
    has_command_runner = a.has_command_runner;
  }

  unfoldable pub on_tables : DbTopology → Service E → Service (Tables × E)
  unfolding db_topology_adapter
  on_tables p self = record {
    probe_runner = beside_probes self.probe_runner;
    workspace_host = beside_host self.workspace_host;
    settings = self.settings;
    topology_endpoint = self.topology_endpoint;
    local_endpoint = self.local_endpoint;
    remote_topology_attach_deferred = self.remote_topology_attach_deferred;
    skip_linux_topology_attachment = self.skip_linux_topology_attachment;
    compose_traefik_upstream_target = self.compose_traefik_upstream_target;
    runtime_adapter = beside_runtime self.runtime_adapter;
    topology_service = db_topology_adapter p;
    topology_id = self.topology_id;
    node_id = self.node_id;
    authoritative_container_ref_required = self.authoritative_container_ref_required;
  }
