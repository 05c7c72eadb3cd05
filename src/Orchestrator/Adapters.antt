-- ===== src/Orchestrator/Adapters.antt =====
-- The interfaces of the runtime adapter, of the topology adapter and of the probe runner that
-- backend/app/services/orchestrator_service/service.py is built from (libs/runtime/interfaces.py,
-- libs/topology, libs/probes). An operation runs on a world
-- `W`, which it may change also where it raises.
use devnest.Base.{ℕ, Bool, Option, List, Text}
use devnest.Worker.State.{Rollback}

-- The exceptions, by the classes that the `except` clauses tell apart, with their text.
pub data Failure : Type 0 where
  topology_error topology_delete_error adapter_error container_not_found value_error os_error
        other :
      Text → Failure
  bring_up_error : Text → Rollback → Failure
  stop_error delete_error restart_error update_error : Text → Failure

abbrev pub message : Failure → Text
message (topology_error m) = m
message (topology_delete_error m) = m
message (adapter_error m) = m
message (container_not_found m) = m
message (value_error m) = m
message (os_error m) = m
message (other m) = m
message (bring_up_error m r) = m
message (stop_error m) = m
message (delete_error m) = m
message (restart_error m) = m
message (update_error m) = m

pub data Outcome (A : Type 0) : Type 0 where
  gives : A → Outcome A
  throws : Failure → Outcome A

abbrev pub M : Type 0 → Type 0 → Type 0
M W A = W → Outcome A × W

module _ {W A : Type 0} where
  abbrev pub pure : A → M W A
  pure a w = (gives a, w)

  abbrev pub throw : Failure → M W A
  throw e w = (throws e, w)

  abbrev pub follow : {B : Type 0} → (A → M W B) → Outcome A × W → Outcome B × W
  follow f (gives a, w) = f a w
  follow f (throws e, w) = (throws e, w)

  -- `try: m except Exception as e: raise wrap(e)`
  abbrev pub rethrow : (Failure → Failure) → Outcome A × W → Outcome A × W
  rethrow wrap (gives a, w) = (gives a, w)
  rethrow wrap (throws e, w) = (throws (wrap e), w)

-- What holds of the value and the world of a method that returns.
abbrev pub Returns : {W A : Type 0} → (A → W → Type 0) → Outcome A × W → Type 0
Returns P (gives a, w) = P a w
Returns P (throws e, w) = Unit

pub follow-Returns :
    {W A B : Type 0} (P : A → W → Type 0) (Q : B → W → Type 0) (f : A → M W B) (x : Outcome A × W)
    → Returns P x
    → ((a : A) (w : W) → P a w → Returns Q (f a w))
    → Returns Q (follow f x)
follow-Returns P Q f (gives a, w) p q = q a w p
follow-Returns P Q f (throws e, w) p q = tt

infixl 5 ◌>>=◌
abbrev pub ◌>>=◌ : {W A B : Type 0} → M W A → (A → M W B) → M W B
◌>>=◌ m f w = follow f (m w)

pub record ContainerInspectionResult : Type 0 where
  pub exists : Bool
  pub container_id : Option Text
  pub container_state : Option Text
  pub pid : Option ℕ
  pub labels : List (Text × Text)
  pub ports : List (ℕ × ℕ)

-- What stopping and deleting a container answer.
pub record RuntimeActionResult : Type 0 where
  pub success : Bool
  pub container_state : Option Text
  pub message : Option Text

pub record NetnsRefResult : Type 0 where
  pub pid : ℕ
  pub netns_ref : Text

pub record EnsureRunningRuntimeResult : Type 0 where
  pub container_id : Text
  pub container_state : Option Text
  pub pid : ℕ
  pub netns_ref : Text
  pub resolved_ports : List (ℕ × ℕ)

-- What a container is started with: its name, labels, bind mounts and environment, and the limits.
pub record RunRequest : Type 0 where
  pub name : Text
  pub labels : List (Text × Text)
  pub workspace_host_path : Text
  pub extra_bind_mounts : List Text
  pub env : List (Text × Text)
  pub cpu_limit : ℕ
  pub memory_limit_bytes : ℕ
  pub pids_limit : ℕ
  pub skip_netns_resolution : Bool

-- `ensure_running_runtime_only` stands with the adapter that it drives, and
-- `assert_netns_attach_target_visible` with the namespaces that the adapter reports.
pub record RuntimeAdapter (W : Type 0) : Type 0 where
  pub ensure_running_runtime_only : RunRequest → M W EnsureRunningRuntimeResult
  pub get_container_netns_ref : Text → M W NetnsRefResult
  pub netns_target_visible : Text → Bool
  pub fetch_container_log_tail : Text → M W Text
  pub inspect_container : Text → M W ContainerInspectionResult
  pub stop_container : Text → M W RuntimeActionResult
  pub delete_container : Text → M W RuntimeActionResult

-- `detach_workspace` says whether it has detached; an attached workspace has an address.
pub record TopologyAdapter (W : Type 0) : Type 0 where
  pub ensure_node_topology : ℕ → Text → M W (Unit {0})
  pub allocate_workspace_ip : ℕ → Text → ℕ → M W ℕ
  pub attach_workspace : ℕ → Text → ℕ → Text → Text → ℕ → M W ℕ
  pub detach_workspace : ℕ → Text → ℕ → M W Bool
  pub release_workspace_ip_lease : ℕ → Text → ℕ → M W Bool
  pub delete_topology : ℕ → Text → M W (Unit {0})

-- A check of the container or of its service.
pub record ProbeResult : Type 0 where
  pub healthy : Bool
  pub issues : List Text

pub record WorkspaceHealthResult : Type 0 where
  pub healthy : Bool
  pub container_state : Option Text
  pub workspace_ip : Option ℕ
  pub internal_endpoint : Option Text
  pub issues : List Text

pub record ProbeRunner (W : Type 0) : Type 0 where
  pub check_service_reachable : ℕ → M W Bool
  pub check_workspace_health : Text → Text → M W WorkspaceHealthResult
  pub check_container_running : Text → M W ProbeResult
  pub check_service_http : ℕ → M W ProbeResult

-- The directories of the execution host: the project's, those that code-server is given beside it,
-- and the checks that the runtime's user may write there.
pub record WorkspaceHost (W : Type 0) : Type 0 where
  pub ensure_workspace_project_dir : Text → Option Text → Bool → M W Text
  pub ide_bind_host_path : Text → Option Text → Text
  pub code_server_extra_bind_mounts : Text → Text → Text → M W (List Text)
  pub verify_writable : Text → M W (Unit {0})
  pub finalize_ownership : Text → M W (Unit {0})
  pub project_dir_exists : Text → Option Text → M W Bool
  -- `_workspace_host_command_runner` is given
  pub has_command_runner : Bool
