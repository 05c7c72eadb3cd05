-- ===== src/Orchestrator/Stop.antt =====
-- `stop_workspace_runtime` of backend/app/services/orchestrator_service/service.py: the topology and
-- the container are let go one after the other, and what goes wrong on the way is collected.
use devnest.Base.{
  ℕ, Bool, true, false, ◌&&◌, Option, none, some, List, [], ◌∷◌, ◌++◌, if◌then◌else◌, Text, text,
  is_empty, strip, stripped, nonempty,
}
use devnest.Worker.State.{WorkspaceStopResult}
use devnest.Orchestrator.Adapters.{
  Failure, topology_error, topology_delete_error, adapter_error, container_not_found, stop_error,
  message, Outcome, gives, throws, M, pure, follow, rethrow, ◌>>=◌, ContainerInspectionResult,
  RuntimeActionResult, RuntimeAdapter, TopologyAdapter, ProbeRunner, WorkspaceHost,
}
use devnest.Orchestrator.Texts.{
  sanitize_container_name, parse_topology_workspace_id, issues_or_none,
  stop_workspace_success_roll_up,
}

-- The settings that a bring-up reads. Limits are positive where they are not 0, which stands for
-- what is not positive; cores are counted in thousandths. `ide_polls` is how many tries of the IDE's
-- port fit in the configured wait after the first.
pub record BringUpSettings : Type 0 where
  pub cpu_limit : ℕ
  pub memory_limit_mb : ℕ
  pub pids_limit : ℕ
  pub workspace_auth_mode : Option Text
  pub workspace_password : Option Text
  pub security_options : Text
  pub ide_polls : ℕ

-- What the service holds, and what it reads of the deployment's settings and environment.
pub record Service (W : Type 0) : Type 0 where
  pub probe_runner : ProbeRunner W
  pub workspace_host : WorkspaceHost W
  pub settings : BringUpSettings
  -- the text of the IDE's endpoint at an address of the topology, and at a port of this host
  pub topology_endpoint : ℕ → Text
  pub local_endpoint : ℕ → Text
  pub remote_topology_attach_deferred : Bool
  pub skip_linux_topology_attachment : Bool
  pub compose_traefik_upstream_target : List (ℕ × ℕ) → Option Text → Option Text
  pub runtime_adapter : RuntimeAdapter W
  pub topology_service : TopologyAdapter W
  pub topology_id : ℕ
  pub node_id : Text
  pub authoritative_container_ref_required : Bool

pub record Inspected : Type 0 where
  pub ws_int : ℕ
  pub container_id : Option Text
  pub container_state_before : Option Text

pub record Detachment : Type 0 where
  pub topology_detached : Option Bool
  pub issues : List Text

pub record Halt : Type 0 where
  pub success : Bool
  pub state : Option Text
  pub issues : List Text

-- `(a or b).strip() or None`
abbrev pub id_or : Option Text → Text → Option Text
id_or none b = nonempty (strip b)
id_or (some []) b = nonempty (strip b)
id_or (some (c ∷ s)) b = nonempty (strip (c ∷ s))

-- `(s or "").strip() or None`
abbrev pub state_of : Option Text → Option Text
state_of s = nonempty (stripped s)

abbrev pub or_text : Option Text → Text → Text
or_text none b = b
or_text (some []) b = b
or_text (some (c ∷ s)) b = c ∷ s

abbrev pub refused_halt : Text → Halt
refused_halt issue = record { success = false; state = none; issues = issue ∷ [] }

abbrev pub first_state : Option Text → Option Text → Option Text
first_state none b = b
first_state (some s) b = some s

module _ {W : Type 0} where
  abbrev pub detached_answer : (Text → Failure) → Outcome Bool × W → Outcome Detachment × W
  detached_answer wrap (gives b, w) =
      (gives (record { topology_detached = some b; issues = [] }), w)
  detached_answer wrap (throws (topology_error e), w) = (
    gives (record {
      topology_detached = some false;
      issues = (text "topology:detach_failed:" ++ e) ∷ [];
    }),
    w,
  )
  detached_answer wrap (throws (topology_delete_error e), w) = (
    gives (record {
      topology_detached = some false;
      issues = (text "topology:detach_failed:" ++ e) ∷ [];
    }),
    w,
  )
  detached_answer wrap (throws e, w) =
      (throws (wrap (text "unexpected detach failure: " ++ message e)), w)

  abbrev pub stop_answer : Outcome RuntimeActionResult × W → Outcome Halt × W
  stop_answer (gives r, w) = (
    gives (record {
      success = r.success;
      state = state_of r.container_state;
      issues =
          if r.success
          then []
          else (text "runtime:stop_failed:"
              ++ or_text r.message (text "stop_container returned success=False"))
            ∷ [];
    }),
    w,
  )
  stop_answer (throws (adapter_error e), w) =
      (gives (refused_halt (text "runtime:stop_failed:" ++ e)), w)
  stop_answer (throws (container_not_found e), w) =
      (gives (refused_halt (text "runtime:stop_failed:" ++ e)), w)
  stop_answer (throws e, w) =
      (throws (stop_error (text "unexpected stop failure: " ++ message e)), w)

  abbrev pub release_answer : Outcome Bool × W → Outcome (List Text) × W
  release_answer (gives b, w) = (gives [], w)
  release_answer (throws (topology_error e), w) =
      (gives ((text "topology:ip_release_failed:" ++ e) ∷ []), w)
  release_answer (throws (topology_delete_error e), w) =
      (gives ((text "topology:ip_release_failed:" ++ e) ∷ []), w)
  release_answer (throws e, w) = (throws e, w)

abbrev pub stop_result : Inspected → Detachment → Halt → List Text → WorkspaceStopResult
stop_result seen det halt released =
    let issues = det.issues ++ (halt.issues ++ released) in
    record {
      success = stop_workspace_success_roll_up halt.success det.topology_detached issues;
      container_id = seen.container_id;
      container_state = first_state halt.state seen.container_state_before;
      topology_detached = det.topology_detached;
      issues = issues_or_none issues;
    }

module _ {W : Type 0} (self : Service W) where
  unfoldable pub stop_load_inspection : Text → Text → M W Inspected
  stop_load_inspection wid container_ref w =
      follow
        (λ ws_int. λ v.
          follow
            (λ (ins : ContainerInspectionResult). pure (record {
              ws_int = ws_int;
              container_id = id_or ins.container_id container_ref;
              container_state_before = state_of ins.container_state;
            }))
            (rethrow (λ e. stop_error (text "inspect_container failed: " ++ message e))
              (self.runtime_adapter.inspect_container container_ref v)))
        (parse_topology_workspace_id wid, w)

  unfoldable pub stop_detach_topology_best_effort : ℕ → M W Detachment
  stop_detach_topology_best_effort ws_int w =
      detached_answer stop_error
        (self.topology_service.detach_workspace self.topology_id self.node_id ws_int w)

  unfoldable pub stop_container_best_effort : Option Text → M W Halt
  stop_container_best_effort none w =
      (gives (refused_halt (text "runtime:container_id_missing")), w)
  stop_container_best_effort (some cid) w = stop_answer (self.runtime_adapter.stop_container cid w)

  -- The address is given back only where the caller asks for it.
  unfoldable pub release_ip_lease_best_effort : Bool → ℕ → M W (List Text)
  release_ip_lease_best_effort false ws_int w = (gives [], w)
  release_ip_lease_best_effort true ws_int w =
      release_answer
        (self.topology_service.release_workspace_ip_lease self.topology_id self.node_id ws_int w)

  unfoldable pub stop_inspected : Bool → Inspected → M W WorkspaceStopResult
  stop_inspected release seen = stop_detach_topology_best_effort seen.ws_int >>= λ det.
      stop_container_best_effort seen.container_id >>= λ halt.
      release_ip_lease_best_effort release seen.ws_int >>= λ released.
      pure (stop_result seen det halt released)

  abbrev pub unreferenced : WorkspaceStopResult
  unreferenced = record {
    success = false;
    container_id = none;
    container_state = none;
    topology_detached = none;
    issues = text "runtime:authoritative_container_id_required" ∷ [];
  }

  -- `cid_in or _sanitize_container_name(wid)`
  abbrev pub container_ref : Text → Option Text → Text
  container_ref wid cid = or_text (state_of cid) (sanitize_container_name wid)

  unfoldable pub stop_workspace_runtime : Text → Option Text → Bool → M W WorkspaceStopResult
  unfolding stop_inspected stop_load_inspection
  stop_workspace_runtime workspace_id container_id release w =
      if is_empty (strip workspace_id)
      then (throws (stop_error (text "workspace_id is empty")), w)
      else if self.authoritative_container_ref_required && is_empty (stripped container_id)
      then (gives unreferenced, w)
      else (stop_load_inspection (strip workspace_id)
              (container_ref (strip workspace_id) container_id)
            >>= stop_inspected release)
          w
