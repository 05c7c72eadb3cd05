-- ===== src/Orchestrator/Wire.antt =====
-- `_bring_up_attach_topology` and `_bring_up_run_probe` of
-- backend/app/services/orchestrator_service/service.py. A wait polls as often as its time allows at
-- most, which is a number of the model.
use devnest.Base.{
  ℕ, zero, suc, Bool, true, false, not, ◌&&◌, ◌||◌, Option, none, some, List, [], ◌∷◌, ◌++◌,
  if◌then◌else◌, ◌==◌, Text, text, strip, first, or_else,
}
use devnest.Worker.State.{WorkspaceBringUpResult}
use devnest.Orchestrator.Adapters.{
  topology_error, topology_delete_error, adapter_error, container_not_found, message, Outcome,
  gives, throws, M, pure, throw, follow, rethrow, ◌>>=◌, ContainerInspectionResult, NetnsRefResult,
  EnsureRunningRuntimeResult, ProbeResult, WorkspaceHealthResult,
}
use devnest.Orchestrator.Texts.{issues_or_none}
use devnest.Orchestrator.Stop.{Service}
use devnest.Orchestrator.Context.{BringUpContext, refuse}
use devnest.Orchestrator.BringUp.{
  raise_with_tail, exited, is_over, has_pid, bring_up_wait_workspace_alive_for_topology,
}

-- The reference of the network's namespace, and the address where there is one.
pub record Wired : Type 0 where
  pub netns_ref : Text
  pub workspace_ip : Option ℕ

-- A placeholder stands for no reference.
abbrev netns_or : Text → Text
netns_or [] = text "remote-topology-deferred"
netns_or (c ∷ s) = c ∷ s

abbrev ip_or : Option ℕ → Option ℕ → Option ℕ
ip_or none b = b
ip_or (some i) b = some i

module _ {W : Type 0} (self : Service W) where
  abbrev pub checked_netns : EnsureRunningRuntimeResult → NetnsRefResult → M W Text
  checked_netns running netns =
      if self.runtime_adapter.netns_target_visible netns.netns_ref
      then pure netns.netns_ref
      else raise_with_tail self (exited self) running.container_id

  unfoldable pub netns_for_attach : EnsureRunningRuntimeResult → M W Text
  netns_for_attach running =
      if self.skip_linux_topology_attachment
      then pure running.netns_ref
      else bring_up_wait_workspace_alive_for_topology self 25 running >>= λ ins.
          self.runtime_adapter.get_container_netns_ref running.container_id
          >>= checked_netns running

  unfoldable pub attach_tried : BringUpContext → EnsureRunningRuntimeResult → M W Wired
  unfolding netns_for_attach
  attach_tried ctx running =
      bring_up_wait_workspace_alive_for_topology self 21 running >>= λ before.
      self.topology_service.ensure_node_topology self.topology_id self.node_id >>= λ u.
      self.topology_service.allocate_workspace_ip self.topology_id self.node_id ctx.ws_int >>= λ ip.
      bring_up_wait_workspace_alive_for_topology self 100 running >>= λ after.
      netns_for_attach running >>= λ netns_ref.
      self.topology_service.attach_workspace self.topology_id self.node_id ctx.ws_int
        running.container_id netns_ref ip
      >>= λ attached. pure (record { netns_ref = netns_ref; workspace_ip = some attached })

  abbrev pub is_dead : ContainerInspectionResult → Bool
  is_dead ins = not ins.exists || (is_over self ins.container_state || not (has_pid self ins.pid))

  -- A dead container is named before the error of the topology, which is then its symptom.
  abbrev pub topology_failed : Text → EnsureRunningRuntimeResult → M W Wired
  topology_failed e running = self.runtime_adapter.inspect_container running.container_id >>= λ ins.
      self.runtime_adapter.fetch_container_log_tail running.container_id >>= λ tail. throw (
        refuse (
          if is_dead ins
          then exited self ++ (e ++ strip tail)
          else text "topology bring-up failed (after workspace runtime was running): " ++ e))

  abbrev pub not_ready : Text → W → Outcome Wired × W
  not_ready e w = (
    throws (refuse (text "workspace runtime not ready for topology (PID/netns handoff): " ++ e)),
    w,
  )

  unfoldable pub attach_answer : EnsureRunningRuntimeResult → Outcome Wired × W → Outcome Wired × W
  attach_answer running (throws (topology_error e), w) = topology_failed e running w
  attach_answer running (throws (topology_delete_error e), w) = topology_failed e running w
  attach_answer running (throws (adapter_error e), w) = not_ready e w
  attach_answer running (throws (container_not_found e), w) = not_ready e w
  attach_answer running x = x

  unfoldable pub bring_up_attach_topology : BringUpContext → EnsureRunningRuntimeResult → M W Wired
  unfolding attach_answer
  bring_up_attach_topology ctx running w =
      if self.remote_topology_attach_deferred
      then (gives (record { netns_ref = netns_or running.netns_ref; workspace_ip = none }), w)
      else attach_answer running (attach_tried ctx running w)

  -- The IDE's port is tried until it answers or the time is over.
  unfoldable pub tcp_wait : ℕ → ℕ → M W Bool
  tcp_wait zero ip = self.probe_runner.check_service_reachable ip
  tcp_wait (suc tries) ip =
      let rest = tcp_wait tries ip in
      self.probe_runner.check_service_reachable ip >>= λ healthy.
      if healthy then pure true else rest

  abbrev pub tcp_wait_at : Option ℕ → M W Bool
  tcp_wait_at none = pure false
  tcp_wait_at (some ip) = tcp_wait self.settings.ide_polls ip

  abbrev pub result_of :
      EnsureRunningRuntimeResult
      → Bool
      → Option Text
      → Option ℕ
      → Option Text
      → List Text
      → WorkspaceBringUpResult
  result_of running healthy state ip endpoint issues = record {
    success = healthy;
    running = record {
      node_id = some self.node_id;
      topology_id = some self.topology_id;
      container_id = some running.container_id;
      container_state = state;
      workspace_ip = ip;
      internal_endpoint = endpoint;
      gateway_route_target = self.compose_traefik_upstream_target running.resolved_ports endpoint;
      probe_healthy = some healthy;
      applied_cpu_limit_cores = none;
      applied_memory_limit_mib = none;
      applied_pids_limit = none;
      applied_security_options = none;
    };
    issues = issues_or_none issues;
    rollback_attempted = false;
    rollback_succeeded = none;
    rollback_issues = [];
  }

  unfoldable pub http_wait : ℕ → ℕ → M W ProbeResult
  http_wait zero port = self.probe_runner.check_service_http port
  http_wait (suc tries) port =
      let rest = http_wait tries port in
      self.probe_runner.check_service_http port >>= λ (last : ProbeResult).
      if last.healthy then pure last else rest

  abbrev pub published : Option (ℕ × ℕ) → Option ℕ
  published none = none
  published (some (host, container)) = some host

  unfoldable pub service_http : Option ℕ → M W ProbeResult
  unfolding http_wait
  service_http none = pure (record {
    healthy = false;
    issues = text "service:published_port_missing:no published host port" ∷ [];
  })
  service_http (some port) = http_wait self.settings.ide_polls port >>= λ (last : ProbeResult).
      pure (record { healthy = last.healthy; issues = if last.healthy then [] else last.issues })

  unfoldable pub bring_up_run_remote_host_port_probe :
      EnsureRunningRuntimeResult → M W WorkspaceBringUpResult
  unfolding service_http
  bring_up_run_remote_host_port_probe running =
      let host_port = published (first (λ (p : ℕ × ℕ). p.1 == 8080) running.resolved_ports) in
      self.probe_runner.check_container_running running.container_id >>= λ (ctr : ProbeResult).
      service_http host_port >>= λ (service : ProbeResult). pure (
        result_of running (ctr.healthy && service.healthy) running.container_state none
          (elim host_port [ none ↦ none | some p ↦ some (self.local_endpoint p) ])
          (ctr.issues ++ service.issues))

  abbrev attached_endpoint : Option ℕ → Option Text
  attached_endpoint none = some []
  attached_endpoint (some ip) = some (self.topology_endpoint ip)

  abbrev pub health_result :
      EnsureRunningRuntimeResult → Wired → WorkspaceHealthResult → WorkspaceBringUpResult
  health_result running wired health =
      result_of running health.healthy (or_else health.container_state running.container_state)
        (ip_or health.workspace_ip wired.workspace_ip)
        (or_else health.internal_endpoint (attached_endpoint wired.workspace_ip)) health.issues

  -- Everything that goes wrong with a probe is an error of the bring-up.
  unfoldable pub bring_up_run_probe :
      BringUpContext → EnsureRunningRuntimeResult → Wired → M W WorkspaceBringUpResult
  unfolding bring_up_run_remote_host_port_probe tcp_wait
  bring_up_run_probe ctx running wired w =
      if self.remote_topology_attach_deferred
      then bring_up_run_remote_host_port_probe running w
      else follow (λ health. pure (health_result running wired health))
          (rethrow (λ e. refuse (text "probe health check failed: " ++ message e))
            ((tcp_wait_at wired.workspace_ip >>= λ reached.
                self.probe_runner.check_workspace_health ctx.wid running.container_id)
              w))
