-- ===== src/Orchestrator/Delete.antt =====
-- `delete_workspace_runtime` of backend/app/services/orchestrator_service/service.py: the attachment,
-- the container and the network of the node are let go one after the other.
use devnest.Base.{
  ℕ, true, false, not, ◌&&◌, Option, none, some, [], ◌∷◌, ◌++◌, if◌then◌else◌, Text, text, is_empty,
  strip, stripped,
}
use devnest.Worker.State.{WorkspaceDeleteResult}
use devnest.Orchestrator.Adapters.{
  topology_delete_error, adapter_error, container_not_found, delete_error, message, Outcome, gives,
  throws, M, pure, follow, rethrow, ◌>>=◌, ContainerInspectionResult, RuntimeActionResult,
}
use devnest.Orchestrator.Texts.{parse_topology_workspace_id, issues_or_none, is_false}
use devnest.Orchestrator.Stop.{
  Service, Inspected, Detachment, Halt, refused_halt, id_or, state_of, or_text, detached_answer,
  container_ref,
}

module _ {W : Type 0} where
  abbrev pub delete_answer : Outcome RuntimeActionResult × W → Outcome Halt × W
  delete_answer (gives r, w) = (
    gives (record {
      success = r.success;
      state = state_of r.container_state;
      issues =
          if r.success
          then []
          else (text "runtime:delete_failed:"
              ++ or_text r.message (text "delete_container returned success=False"))
            ∷ [];
    }),
    w,
  )
  delete_answer (throws (container_not_found e), w) =
      (gives (record { success = true; state = some (text "missing"); issues = [] }), w)
  delete_answer (throws (adapter_error e), w) =
      (gives (refused_halt (text "runtime:delete_failed:" ++ e)), w)
  delete_answer (throws e, w) =
      (throws (delete_error (text "unexpected delete failure: " ++ message e)), w)

  abbrev pub topology_answer : Outcome (Unit {0}) × W → Outcome Detachment × W
  topology_answer (gives u, w) = (gives (record { topology_detached = some true; issues = [] }), w)
  topology_answer (throws (topology_delete_error e), w) = (
    gives (record {
      topology_detached = some false;
      issues = (text "topology:delete_failed:" ++ e) ∷ [];
    }),
    w,
  )
  topology_answer (throws e, w) =
      (throws (delete_error (text "unexpected topology delete failure: " ++ message e)), w)

module _ {W : Type 0} (self : Service W) where
  unfoldable pub delete_load_inspection : Text → Text → M W Inspected
  delete_load_inspection wid ref w =
      follow
        (λ ws_int v.
          follow
            (λ (ins : ContainerInspectionResult). pure (record {
              ws_int = ws_int;
              container_id = id_or ins.container_id ref;
              container_state_before = none;
            }))
            (rethrow (λ e. delete_error (text "inspect_container failed: " ++ message e))
              (self.runtime_adapter.inspect_container ref v)))
        (rethrow (λ e. delete_error (message e)) (parse_topology_workspace_id wid, w))

  unfoldable pub delete_detach_topology_best_effort : ℕ → M W Detachment
  delete_detach_topology_best_effort ws_int w =
      detached_answer delete_error
        (self.topology_service.detach_workspace self.topology_id self.node_id ws_int w)

  unfoldable pub delete_container_best_effort : Option Text → M W Halt
  delete_container_best_effort none w =
      (gives (refused_halt (text "runtime:container_id_missing")), w)
  delete_container_best_effort (some cid) w =
      delete_answer (self.runtime_adapter.delete_container cid w)

  unfoldable pub delete_topology_runtime_best_effort : M W Detachment
  delete_topology_runtime_best_effort w =
      topology_answer (self.topology_service.delete_topology self.topology_id self.node_id w)

  unfoldable pub delete_inspected : Inspected → M W WorkspaceDeleteResult
  delete_inspected seen = delete_detach_topology_best_effort seen.ws_int >>= λ det.
      delete_container_best_effort seen.container_id >>= λ gone.
      delete_topology_runtime_best_effort >>= λ net. pure (record {
        success = gone.success && not (is_false det.topology_detached);
        issues = issues_or_none (det.issues ++ (gone.issues ++ net.issues));
      })

  unfoldable pub delete_workspace_runtime : Text → Option Text → M W WorkspaceDeleteResult
  unfolding delete_inspected delete_load_inspection
  delete_workspace_runtime workspace_id container_id w =
      if is_empty (strip workspace_id)
      then (throws (delete_error (text "workspace_id is empty")), w)
      else if self.authoritative_container_ref_required && is_empty (stripped container_id)
      then (
        gives (record {
          success = false;
          issues = text "runtime:authoritative_container_id_required" ∷ [];
        }),
        w,
      )
      else (delete_load_inspection (strip workspace_id)
              (container_ref self (strip workspace_id) container_id)
            >>= delete_inspected)
          w
