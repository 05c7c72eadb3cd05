-- ===== src/Orchestrator/Kept.antt =====
-- What holds of the world before a method of
-- backend/app/services/orchestrator_service/service.py and after each call of an adapter holds after
-- the method, whichever way it ends.
use devnest.Base.{
  ℕ, Bool, true, false, ◌&&◌, Option, none, some, ◌++◌, Text, text, is_empty, strip, stripped,
  Bool-cases, inl, inr,
}
use devnest.Orchestrator.Adapters.{
  Failure, topology_error, topology_delete_error, adapter_error, container_not_found, stop_error,
  Outcome, gives, throws, M, follow, rethrow, message, RunRequest, RuntimeActionResult,
}
use devnest.Orchestrator.Texts.{parse_topology_workspace_id}
use devnest.Orchestrator.Stop.{
  Service, Inspected, detached_answer, stop_answer, release_answer, stop_load_inspection,
  stop_container_best_effort, release_ip_lease_best_effort, stop_inspected,
  stop_detach_topology_best_effort, stop_workspace_runtime, container_ref,
}

-- What holds of the world at the end of a method.
abbrev pub Ends : {W A : Type 0} → (W → Type 0) → Outcome A × W → Type 0
Ends Inv (gives a, w) = Inv w
Ends Inv (throws e, w) = Inv w

pub Ends-of : {W A : Type 0} (Inv : W → Type 0) (x : Outcome A × W) → Inv x.1 → Ends Inv x
Ends-of Inv (gives a, w) i = i
Ends-of Inv (throws e, w) i = i

module _ {W : Type 0} (Inv : W → Type 0) where
  pub follow-Kept :
      {A B : Type 0} (f : A → M W B) (x : Outcome A × W)
      → Ends Inv x
      → ((a : A) (w : W) → Inv w → Ends Inv (f a w))
      → Ends Inv (follow f x)
  follow-Kept f (gives a, w) i k = k a w i
  follow-Kept f (throws e, w) i k = i

  pub rethrow-Kept :
      {A : Type 0} (wrap : Failure → Failure) (x : Outcome A × W)
      → Ends Inv x
      → Ends Inv (rethrow wrap x)
  rethrow-Kept wrap (gives a, w) i = i
  rethrow-Kept wrap (throws e, w) i = i

  detached_answer-Kept :
      (wrap : Text → Failure) (x : Outcome Bool × W)
      → Ends Inv x
      → Ends Inv (detached_answer wrap x)
  detached_answer-Kept wrap (gives b, w) i = i
  detached_answer-Kept wrap (throws (topology_error e), w) i = i
  detached_answer-Kept wrap (throws (topology_delete_error e), w) i = i
  detached_answer-Kept wrap (throws e, w) i = i

  stop_answer-Kept : (x : Outcome RuntimeActionResult × W) → Ends Inv x → Ends Inv (stop_answer x)
  stop_answer-Kept (gives r, w) i = i
  stop_answer-Kept (throws (adapter_error e), w) i = i
  stop_answer-Kept (throws (container_not_found e), w) i = i
  stop_answer-Kept (throws e, w) i = i

  release_answer-Kept : (x : Outcome Bool × W) → Ends Inv x → Ends Inv (release_answer x)
  release_answer-Kept (gives b, w) i = i
  release_answer-Kept (throws (topology_error e), w) i = i
  release_answer-Kept (throws (topology_delete_error e), w) i = i
  release_answer-Kept (throws e, w) i = i

  -- Every call of an adapter keeps what is invariant.
  pub record AdaptersKeep (self : Service W) : Type 0 where
    pub ensure_running :
        (r : RunRequest) (w : W)
        → Inv w
        → Ends Inv (self.runtime_adapter.ensure_running_runtime_only r w)
    pub netns_ref :
        (c : Text) (w : W) → Inv w → Ends Inv (self.runtime_adapter.get_container_netns_ref c w)
    pub log_tail :
        (c : Text) (w : W) → Inv w → Ends Inv (self.runtime_adapter.fetch_container_log_tail c w)
    pub inspect : (c : Text) (w : W) → Inv w → Ends Inv (self.runtime_adapter.inspect_container c w)
    pub stop : (c : Text) (w : W) → Inv w → Ends Inv (self.runtime_adapter.stop_container c w)
    pub ensure_topology :
        (t : ℕ) (n : Text) (w : W)
        → Inv w
        → Ends Inv (self.topology_service.ensure_node_topology t n w)
    pub allocate :
        (t : ℕ) (n : Text) (i : ℕ) (w : W)
        → Inv w
        → Ends Inv (self.topology_service.allocate_workspace_ip t n i w)
    pub attach :
        (t : ℕ) (n : Text) (i : ℕ) (c r : Text) (ip : ℕ) (w : W)
        → Inv w
        → Ends Inv (self.topology_service.attach_workspace t n i c r ip w)
    pub detach :
        (t : ℕ) (n : Text) (i : ℕ) (w : W)
        → Inv w
        → Ends Inv (self.topology_service.detach_workspace t n i w)
    pub release :
        (t : ℕ) (n : Text) (i : ℕ) (w : W)
        → Inv w
        → Ends Inv (self.topology_service.release_workspace_ip_lease t n i w)
    pub service_reachable :
        (ip : ℕ) (w : W) → Inv w → Ends Inv (self.probe_runner.check_service_reachable ip w)
    pub workspace_health :
        (i c : Text) (w : W) → Inv w → Ends Inv (self.probe_runner.check_workspace_health i c w)
    pub container_running :
        (c : Text) (w : W) → Inv w → Ends Inv (self.probe_runner.check_container_running c w)
    pub service_http : (p : ℕ) (w : W) → Inv w → Ends Inv (self.probe_runner.check_service_http p w)
    pub project_dir :
        (i : Text) (k : Option Text) (b : Bool) (w : W)
        → Inv w
        → Ends Inv (self.workspace_host.ensure_workspace_project_dir i k b w)
    pub mounts :
        (i p m : Text) (w : W)
        → Inv w
        → Ends Inv (self.workspace_host.code_server_extra_bind_mounts i p m w)
    pub writable : (p : Text) (w : W) → Inv w → Ends Inv (self.workspace_host.verify_writable p w)
    pub ownership :
        (p : Text) (w : W) → Inv w → Ends Inv (self.workspace_host.finalize_ownership p w)

  module _ (self : Service W) (k : AdaptersKeep self) where
    stop_container-Kept :
        (cid : Option Text) (w : W) → Inv w → Ends Inv (stop_container_best_effort self cid w)
    unfolding stop_container_best_effort
    stop_container-Kept none w i = i
    stop_container-Kept (some c) w i = stop_answer-Kept _ (k.stop c w i)

    release-Kept :
        (b : Bool) (ws_int : ℕ) (w : W)
        → Inv w
        → Ends Inv (release_ip_lease_best_effort self b ws_int w)
    unfolding release_ip_lease_best_effort
    release-Kept false ws_int w i = i
    release-Kept true ws_int w i =
        release_answer-Kept _ (k.release self.topology_id self.node_id ws_int w i)

    stop_inspected-Kept :
        (b : Bool) (seen : Inspected) (w : W) → Inv w → Ends Inv (stop_inspected self b seen w)
    unfolding stop_inspected stop_detach_topology_best_effort
    stop_inspected-Kept b seen w i =
        follow-Kept _
          (detached_answer stop_error
            (self.topology_service.detach_workspace self.topology_id self.node_id seen.ws_int w))
          (detached_answer-Kept stop_error _
            (k.detach self.topology_id self.node_id seen.ws_int w i))
          (λ det v j.
            follow-Kept _ (stop_container_best_effort self seen.container_id v)
              (stop_container-Kept seen.container_id v j)
              (λ halt u h.
                follow-Kept _ (release_ip_lease_best_effort self b seen.ws_int u)
                  (release-Kept b seen.ws_int u h) (λ r x l. l)))

    pub stop_load-Kept :
        (wid ref : Text) (w : W) → Inv w → Ends Inv (stop_load_inspection self wid ref w)
    unfolding stop_load_inspection
    stop_load-Kept wid ref w i =
        follow-Kept _ (parse_topology_workspace_id wid, w)
          (Ends-of Inv (parse_topology_workspace_id wid, w) i)
          (λ n v j.
            follow-Kept _
              (rethrow (λ e. stop_error (text "inspect_container failed: " ++ message e))
                (self.runtime_adapter.inspect_container ref v))
              (rethrow-Kept _ _ (k.inspect ref v j)) (λ ins u h. h))

    -- A stop keeps what the adapters keep.
    pub stop_workspace_runtime-Kept :
        (wid : Text) (cid : Option Text) (b : Bool) (w : W)
        → Inv w
        → Ends Inv (stop_workspace_runtime self wid cid b w)
    unfolding stop_workspace_runtime
    stop_workspace_runtime-Kept wid cid b w i = elim (Bool-cases (is_empty (strip wid))) [
      | inl e ↦ rw e i
      | inr e ↦
          rw e
            (elim (Bool-cases
              (self.authoritative_container_ref_required && is_empty (stripped cid))) [
                | inl a ↦ rw a i
                | inr a ↦ rw a (
                    follow-Kept _
                      (stop_load_inspection self (strip wid) (container_ref self (strip wid) cid) w)
                      (stop_load-Kept _ _ w i) (λ seen v j. stop_inspected-Kept b seen v j))
              ])
    ]
