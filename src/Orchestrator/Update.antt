-- ===== src/Orchestrator/Update.antt =====
-- `restart_workspace_runtime` and `update_workspace_runtime` of
-- backend/app/services/orchestrator_service/service.py: they compose a stop and a bring-up.
-- A version is a natural number: the code refuses a negative one.
use devnest.Base.{
  ℕ, Bool, true, false, not, ◌&&◌, Option, none, some, List, [], ◌∷◌, ◌++◌, if◌then◌else◌, ◌==◌,
  Text, text, text_eq, is_empty, strip, stripped, lower, or_else,
}
use devnest.Worker.State.{
  RunningRuntime, WorkspaceBringUpResult, WorkspaceStopResult, WorkspaceRestartResult,
  WorkspaceUpdateResult,
}
use devnest.Orchestrator.Adapters.{
  bring_up_error, stop_error, restart_error, update_error, message, Outcome, gives, throws, M, pure,
  follow, rethrow, ContainerInspectionResult, WorkspaceHealthResult,
}
use devnest.Orchestrator.Texts.{int_of, parse_topology_workspace_id, issues_or_none}
use devnest.Orchestrator.Stop.{Service, id_or, container_ref, stop_workspace_runtime}
use devnest.Orchestrator.Rollback.{bring_up_workspace_runtime}

abbrev label_value : Text → List (Text × Text) → Option Text
label_value key [] = none
label_value key ((k, v) ∷ labels) = if text_eq k key then some v else label_value key labels

-- A version that is not a number, or a negative one, counts as 0.
abbrev version_of : Option (Bool × ℕ) → ℕ
version_of none = 0
version_of (some (negative, n)) = if negative then 0 else n

abbrev version_of_label : Option Text → ℕ
version_of_label none = 0
version_of_label (some s) = version_of (int_of (strip s))

unfoldable pub config_version_from_inspection : ContainerInspectionResult → ℕ
unfolding int_of
config_version_from_inspection ins =
    if ins.exists
    then version_of_label (label_value (text "devnest.config_version") ins.labels)
    else 0

module _ {W : Type 0} (self : Service W) where
  -- The runtime that a call without a new container reports.
  abbrev old_runtime : Option Text → Option Text → RunningRuntime
  old_runtime cid state = record {
    node_id = some self.node_id;
    topology_id = some self.topology_id;
    container_id = cid;
    container_state = state;
    workspace_ip = none;
    internal_endpoint = none;
    gateway_route_target = none;
    probe_healthy = none;
    applied_cpu_limit_cores = none;
    applied_memory_limit_mib = none;
    applied_pids_limit = none;
    applied_security_options = none;
  }

  abbrev not_restarted : Bool → WorkspaceStopResult → List Text → WorkspaceRestartResult
  not_restarted stopped r issues = record {
    success = false;
    stop_success = stopped;
    bringup_success = false;
    running = old_runtime r.container_id r.container_state;
    issues = issues_or_none issues;
  }

  abbrev restart_answer :
      WorkspaceStopResult → Outcome WorkspaceBringUpResult × W → Outcome WorkspaceRestartResult × W
  restart_answer stopped (gives r, w) = (
    gives (record {
      success = r.success;
      stop_success = true;
      bringup_success = r.success;
      running = r.running;
      issues = issues_or_none (stopped.issues ++ r.issues);
    }),
    w,
  )
  restart_answer stopped (throws (bring_up_error m rb), w) =
      (gives (not_restarted true stopped (stopped.issues ++ (text "bringup:failed:" ++ m) ∷ [])), w)
  restart_answer stopped (throws e, w) = (throws e, w)

  -- A project directory that exists must not be made again.
  abbrev bring_launch_mode : Bool → Option Text
  bring_launch_mode true = some (text "resume")
  bring_launch_mode false = none

  abbrev restart_stopped :
      Text → Option Text → Option Text → WorkspaceStopResult → M W WorkspaceRestartResult
  restart_stopped wid key version stopped w =
      if not stopped.success
      then (gives (not_restarted false stopped stopped.issues), w)
      else follow
          (λ present v. restart_answer stopped (
            bring_up_workspace_runtime self wid key version none none none []
              (bring_launch_mode present) v))
          (self.workspace_host.project_dir_exists wid key w)

  abbrev restart_stop_answer : Outcome WorkspaceStopResult × W → Outcome WorkspaceStopResult × W
  restart_stop_answer (throws (stop_error m), w) = (throws (restart_error m), w)
  restart_stop_answer x = x

  -- The address is kept over a restart.
  unfoldable pub restart_workspace_runtime :
      Text → Option Text → Option Text → Option Text → M W WorkspaceRestartResult
  unfolding stop_workspace_runtime bring_up_workspace_runtime
  restart_workspace_runtime workspace_id key cid version w =
      let wid = strip workspace_id in
      if is_empty wid
      then (throws (restart_error (text "workspace_id is empty")), w)
      else follow
          (λ n v.
            follow (restart_stopped wid key version)
              (restart_stop_answer (stop_workspace_runtime self wid cid false v)))
          (rethrow (λ e. restart_error (message e)) (parse_topology_workspace_id wid, w))

  abbrev update_result : Bool → ℕ → ℕ → Bool → RunningRuntime → List Text → WorkspaceUpdateResult
  update_result success current requested no_op running issues = record {
    success = success;
    current_config_version = current;
    requested_config_version = requested;
    no_op = no_op;
    running = running;
    issues = issues_or_none issues;
  }

  abbrev healthy_runtime : ContainerInspectionResult → Text → WorkspaceHealthResult → RunningRuntime
  healthy_runtime ins cid health =
      record (old_runtime (some cid) (or_else health.container_state ins.container_state)) {
        workspace_ip = health.workspace_ip;
        internal_endpoint = health.internal_endpoint;
        gateway_route_target =
            self.compose_traefik_upstream_target ins.ports health.internal_endpoint;
        probe_healthy = some health.healthy;
      }

  abbrev noop_checked :
      Text → ℕ → ℕ → ContainerInspectionResult → Option Text → M W WorkspaceUpdateResult
  noop_checked wid current requested ins none w = (
    gives (
        update_result false current requested true (old_runtime none ins.container_state)
          (text "update:noop:container_id_missing" ∷ [])),
    w,
  )
  noop_checked wid current requested ins (some cid) w =
      follow
        (λ (health : WorkspaceHealthResult). pure (
          update_result health.healthy current requested true (healthy_runtime ins cid health)
            health.issues))
        (rethrow (λ e. update_error (text "probe health check failed: " ++ message e))
          (self.probe_runner.check_workspace_health wid cid w))

  -- The state of a container that is not running, as the issue names it.
  abbrev state_name : Text → Text
  state_name [] = text "unknown"
  state_name (c ∷ s) = c ∷ s

  unfoldable pub update_workspace_runtime_noop :
      Text → Text → ℕ → ℕ → ContainerInspectionResult → M W WorkspaceUpdateResult
  update_workspace_runtime_noop wid ref current requested ins w =
      let state = lower (stripped ins.container_state) in
      let cid = id_or ins.container_id ref in
      if not ins.exists
      then (
        gives (
            update_result false current requested true (old_runtime none none)
              (text "update:noop:workspace_runtime_not_found" ∷ [])),
        w,
      )
      else if not (text_eq state (text "running"))
      then (
        gives (
            update_result false current requested true (old_runtime cid ins.container_state)
              ((text "update:noop:container_not_running:" ++ state_name state) ∷ [])),
        w,
      )
      else noop_checked wid current requested ins cid w

  abbrev restart_error_answer :
      Outcome WorkspaceRestartResult × W → Outcome WorkspaceRestartResult × W
  restart_error_answer (throws (restart_error m), w) = (throws (update_error m), w)
  restart_error_answer x = x

  -- The label of the container decides; `label` is the text of the requested version.
  unfoldable pub update_inspected :
      Text
      → Option Text
      → Option Text
      → ℕ
      → Text
      → ContainerInspectionResult
      → M W WorkspaceUpdateResult
  unfolding restart_workspace_runtime update_workspace_runtime_noop config_version_from_inspection
  update_inspected wid key cid requested label ins w =
      let current = config_version_from_inspection ins in
      if current == requested
      then update_workspace_runtime_noop wid (container_ref self wid cid) current requested ins w
      else follow
          (λ (r : WorkspaceRestartResult).
            pure (update_result r.success current requested false r.running r.issues))
          (restart_error_answer (restart_workspace_runtime wid key cid (some label) w))

  unfoldable pub update_workspace_runtime :
      Text → Option Text → Option Text → ℕ → Text → M W WorkspaceUpdateResult
  unfolding update_inspected
  update_workspace_runtime workspace_id key cid requested label w =
      let wid = strip workspace_id in
      if is_empty wid
      then (throws (update_error (text "workspace_id is empty")), w)
      else follow
          (λ n v.
            if self.authoritative_container_ref_required && is_empty (stripped cid)
            then (
              gives (
                  update_result false 0 requested false (old_runtime none none)
                    (text "runtime:authoritative_container_id_required" ∷ [])),
              v,
            )
            else follow (update_inspected wid key cid requested label) (
                rethrow (λ e. update_error (text "inspect_container failed: " ++ message e))
                  (self.runtime_adapter.inspect_container (container_ref self wid cid) v)))
          (rethrow (λ e. update_error (message e)) (parse_topology_workspace_id wid, w))
