-- ===== src/Orchestrator/StopSays.antt =====
-- What the steps of a stop of backend/app/services/orchestrator_service/service.py report.
use devnest.Base.{
  ℕ, Bool, true, false, Option, none, some, List, [], ◌∷◌, ◌++◌, if◌then◌else◌, Text, text,
}
use devnest.Orchestrator.Adapters.{
  Returns, Failure, topology_error, topology_delete_error, adapter_error, container_not_found,
  Outcome, gives, throws, RuntimeActionResult,
}
use devnest.Orchestrator.Stop.{
  Service, Detachment, Halt, refused_halt, state_of, or_text, detached_answer, stop_answer,
  release_answer, stop_container_best_effort, release_ip_lease_best_effort,
}

-- The issues of a stop, by what reports them.
pub data DetachSays : Detachment → Type 0 where
  went : (b : Bool) → DetachSays (record { topology_detached = some b; issues = [] })
  refused :
      (e : Text)
      → DetachSays (record {
        topology_detached = some false;
        issues = (text "topology:detach_failed:" ++ e) ∷ [];
      })

pub data HaltSays : Halt → Type 0 where
  halted : (s : Option Text) → HaltSays (record { success = true; state = s; issues = [] })
  failed :
      (s : Option Text) (e : Text)
      → HaltSays
          (record { success = false; state = s; issues = (text "runtime:stop_failed:" ++ e) ∷ [] })
  nameless : HaltSays (refused_halt (text "runtime:container_id_missing"))

pub data ReleaseSays : List Text → Type 0 where
  quiet : ReleaseSays []
  kept : (e : Text) → ReleaseSays ((text "topology:ip_release_failed:" ++ e) ∷ [])

module _ {W : Type 0} where
  pub detached_answer-Says :
      (wrap : Text → Failure) (x : Outcome Bool × W)
      → Returns (λ d w. DetachSays d) (detached_answer wrap x)
  detached_answer-Says wrap (gives b, w) = went b
  detached_answer-Says wrap (throws (topology_error e), w) = refused e
  detached_answer-Says wrap (throws (topology_delete_error e), w) = refused e
  detached_answer-Says wrap (throws e, w) = tt

  stop_answer-Says :
      (x : Outcome RuntimeActionResult × W) → Returns (λ h w. HaltSays h) (stop_answer x)
  stop_answer-Says (gives r, w) = by_success r.success
    where
      by_success :
          (b : Bool)
          → HaltSays (record {
            success = b;
            state = state_of r.container_state;
            issues =
                if b
                then []
                else (text "runtime:stop_failed:"
                    ++ or_text r.message (text "stop_container returned success=False"))
                  ∷ [];
          })
      by_success true = halted _
      by_success false = failed _ _
  stop_answer-Says (throws (adapter_error e), w) = failed none e
  stop_answer-Says (throws (container_not_found e), w) = failed none e
  stop_answer-Says (throws e, w) = tt

  release_answer-Says : (x : Outcome Bool × W) → Returns (λ i w. ReleaseSays i) (release_answer x)
  release_answer-Says (gives b, w) = quiet
  release_answer-Says (throws (topology_error e), w) = kept e
  release_answer-Says (throws (topology_delete_error e), w) = kept e
  release_answer-Says (throws e, w) = tt

module _ {W : Type 0} (self : Service W) where
  pub container-Says :
      (cid : Option Text) (w : W)
      → Returns (λ h v. HaltSays h) (stop_container_best_effort self cid w)
  unfolding stop_container_best_effort
  container-Says none w = nameless
  container-Says (some cid) w = stop_answer-Says (self.runtime_adapter.stop_container cid w)

  pub release-Says :
      (release : Bool) (ws_int : ℕ) (w : W)
      → Returns (λ i v. ReleaseSays i) (release_ip_lease_best_effort self release ws_int w)
  unfolding release_ip_lease_best_effort
  release-Says false ws_int w = quiet
  release-Says true ws_int w =
      release_answer-Says
        (self.topology_service.release_workspace_ip_lease self.topology_id self.node_id ws_int w)
