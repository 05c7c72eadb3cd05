-- ===== src/Orchestrator/BringUp.antt =====
-- The steps of `bring_up_workspace_runtime` of
-- backend/app/services/orchestrator_service/service.py: the container is started, the topology is
-- attached and the service is probed. Left out are the attachment id and the details in messages.
-- A wait polls as often as its time allows, which is a number of the model.
use devnest.Base.{
  ℕ, zero, suc, ◌*◌, Bool, false, not, ◌&&◌, ◌||◌, Option, none, some, List, [], ◌∷◌, ◌++◌,
  if◌then◌else◌, ltb, Text, text, text_eq, is_empty, strip,
}
use devnest.Orchestrator.Adapters.{
  adapter_error, container_not_found, os_error, Outcome, gives, throws, M, pure, throw, follow,
  ◌>>=◌, ContainerInspectionResult, EnsureRunningRuntimeResult,
}
use devnest.Orchestrator.Stop.{Service}
use devnest.Orchestrator.Context.{
  BringUpContext, AppliedPolicy, refuse, merged_env, code_server_env,
}

abbrev skip : {W : Type 0} → M W (Unit {0})
skip w = (gives tt, w)

module _ {W : Type 0} (self : Service W) where
  -- The directories are on a remote host, where the checks of this one say nothing.
  abbrev pub is_remote_host : Bool
  is_remote_host = self.remote_topology_attach_deferred && self.workspace_host.has_command_runner

  abbrev pub verify_answer : Outcome (Unit {0}) × W → Outcome (Unit {0}) × W
  verify_answer (throws (os_error e), w) =
      (throws (refuse (text "workspace host path not writable by runtime user " ++ e)), w)
  verify_answer x = x

  unfoldable pub verify_paths : List Text → M W (Unit {0})
  verify_paths [] = skip
  verify_paths (p ∷ ps) =
      let rest = verify_paths ps in
      let checked : M W (Unit {0}) =
        λ w. verify_answer (self.workspace_host.verify_writable (strip p) w) in
      if is_empty (strip p) then rest else (checked >>= λ u. rest)

  -- The mounts, then the project's own path.
  abbrev pub verify_host : BringUpContext → List Text → M W (Unit {0})
  verify_host ctx mounts =
      if is_remote_host then skip else verify_paths (mounts ++ ctx.workspace_host_path ∷ [])

  abbrev pub finalize_host : BringUpContext → M W (Unit {0})
  finalize_host ctx =
      if is_remote_host || is_empty (strip ctx.workspace_host_path)
      then skip
      else self.workspace_host.finalize_ownership (strip ctx.workspace_host_path)

  -- The errors of the adapter, and only these, are made errors of the bring-up.
  abbrev pub adapter_answer : {A : Type 0} → Text → Outcome A × W → Outcome A × W
  adapter_answer prefix (throws (adapter_error e), w) = (throws (refuse (prefix ++ e)), w)
  adapter_answer prefix (throws (container_not_found e), w) = (throws (refuse (prefix ++ e)), w)
  adapter_answer prefix x = x

  abbrev pub started_with :
      BringUpContext
      → AppliedPolicy
      → List (Text × Text)
      → List Text
      → M W EnsureRunningRuntimeResult
  started_with ctx policy env mounts w = adapter_answer (text "runtime bring-up failed: ") (
      (finalize_host ctx >>= λ u. self.runtime_adapter.ensure_running_runtime_only (record {
        name = ctx.container_name;
        labels = ctx.labels;
        workspace_host_path = ctx.workspace_host_path;
        extra_bind_mounts = mounts;
        env = env;
        cpu_limit = policy.cpu_limit_cores;
        memory_limit_bytes = policy.memory_limit_mib * 1048576;
        pids_limit = policy.pids_limit;
        skip_netns_resolution =
            self.skip_linux_topology_attachment || self.remote_topology_attach_deferred;
      }))
        w)

  unfoldable pub bring_up_start_container :
      BringUpContext → AppliedPolicy → List (Text × Text) → M W EnsureRunningRuntimeResult
  unfolding merged_env code_server_env verify_paths
  bring_up_start_container ctx policy env w =
      follow
        (λ (settled : Text × List (Text × Text)).
          self.workspace_host.code_server_extra_bind_mounts ctx.wid ctx.workspace_host_path
            settled.0
          >>= λ mounts. verify_host ctx mounts >>= λ u. started_with ctx policy settled.1 mounts)
        (merged_env (code_server_env self.settings (text "8080") ctx.wid self.node_id) env, w)

  -- The engine is asked for the end of the log before the error is raised.
  abbrev pub raise_with_tail : {A : Type 0} → Text → Text → M W A
  raise_with_tail m cid =
      self.runtime_adapter.fetch_container_log_tail cid >>= λ tail. throw (refuse (m ++ tail))

  abbrev pub exited : Text
  exited = text "workspace runtime exited before topology attach "

  abbrev pub is_over : Option Text → Bool
  is_over none = false
  is_over (some s) = text_eq s (text "exited") || text_eq s (text "dead")

  abbrev pub is_up : Option Text → Bool
  is_up none = false
  is_up (some s) = text_eq s (text "running")

  abbrev pub has_pid : Option ℕ → Bool
  has_pid none = false
  has_pid (some n) = ltb 0 n

  -- One look at the container; `retry` is what follows while time is left.
  abbrev pub looked :
      Text
      → M W ContainerInspectionResult
      → ContainerInspectionResult
      → M W ContainerInspectionResult
  looked cid retry ins =
      if not ins.exists
      then raise_with_tail exited cid
      else if is_over ins.container_state
      then raise_with_tail exited cid
      else if is_up ins.container_state && has_pid ins.pid
      then pure ins
      else retry

  -- `polls` more looks after the first fit in the time.
  unfoldable pub wait_alive : ℕ → Text → M W ContainerInspectionResult
  wait_alive zero cid =
      self.runtime_adapter.inspect_container cid >>= looked cid (raise_with_tail exited cid)
  wait_alive (suc polls) cid =
      self.runtime_adapter.inspect_container cid >>= looked cid (wait_alive polls cid)

  unfoldable pub bring_up_wait_workspace_alive_for_topology :
      ℕ → EnsureRunningRuntimeResult → M W ContainerInspectionResult
  unfolding wait_alive
  bring_up_wait_workspace_alive_for_topology polls running =
      if self.skip_linux_topology_attachment
      then self.runtime_adapter.inspect_container running.container_id
      else wait_alive polls running.container_id
