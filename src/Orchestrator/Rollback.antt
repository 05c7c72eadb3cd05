-- ===== src/Orchestrator/Rollback.antt =====
-- `bring_up_workspace_runtime` of backend/app/services/orchestrator_service/service.py with its
-- compensating rollback. What a rollback writes to the log is left out, with the reads for it.
use devnest.Base.{
  ℕ, Bool, true, false, Option, none, some, List, [], ◌∷◌, ◌++◌, if◌then◌else◌, Text, text, strip,
  nonempty, join, or_else,
}
use devnest.Worker.State.{WorkspaceBringUpResult, WorkspaceStopResult}
use devnest.Orchestrator.Adapters.{
  Failure, bring_up_error, stop_error, message, Outcome, gives, throws, M, follow, ◌>>=◌,
  EnsureRunningRuntimeResult,
}
use devnest.Orchestrator.Texts.{issues_or_none}
use devnest.Orchestrator.Stop.{Service, stop_workspace_runtime}
use devnest.Orchestrator.Context.{
  BringUpContext, bring_up_build_context, resolve_bringup_runtime_limits_triplet,
  bringup_result_with_applied,
}
use devnest.Orchestrator.BringUp.{bring_up_start_container}
use devnest.Orchestrator.Wire.{bring_up_attach_topology, bring_up_run_probe}

-- Whether a stop has succeeded, what was wrong, and the last stop that returned.
pub record RolledBack : Type 0 where
  pub succeeded : Bool
  pub issues : List Text
  pub last_stop : Option WorkspaceStopResult

abbrev or_no_issues : List Text → List Text
or_no_issues [] = text "no_issues_field" ∷ []
or_no_issues (i ∷ is) = i ∷ is

abbrev incomplete : Text → List Text → Text
incomplete attempt issues =
    text "rollback:stop_incomplete:"
    ++ (attempt ++ (text ":" ++ join (text ",") (or_no_issues issues)))

abbrev stop_id : Option WorkspaceStopResult → Option Text
stop_id none = none
stop_id (some r) = r.container_id

abbrev stop_state : Option WorkspaceStopResult → Option Text
stop_state none = none
stop_state (some r) = r.container_state

abbrev running_id : Option EnsureRunningRuntimeResult → Option Text
running_id none = none
running_id (some r) = some r.container_id

abbrev pub stripped_id : Option EnsureRunningRuntimeResult → Option Text
stripped_id none = none
stripped_id (some r) = nonempty (strip r.container_id)

-- The message of an error that ends a bring-up.
abbrev pub failure_text : Failure → Text
failure_text (bring_up_error m r) = m
failure_text e = text "unexpected bring-up failure: " ++ message e

module _ {W : Type 0} (self : Service W) where
  module _ (wid : Text) (cid : Option Text) where
    -- An attempt ends the rollback, or leaves what was wrong to the next.
    abbrev pub rollback_attempt :
        Text
        → List Text
        → Option WorkspaceStopResult
        → (List Text → Option WorkspaceStopResult → M W RolledBack)
        → Outcome WorkspaceStopResult × W
        → Outcome RolledBack × W
    rollback_attempt attempt issues last next (gives r, w) =
        if r.success
        then (gives (record { succeeded = true; issues = issues; last_stop = some r }), w)
        else next (issues ++ incomplete attempt r.issues ∷ []) (some r) w
    rollback_attempt attempt issues last next (throws (stop_error e), w) =
        next (issues ++ (text "rollback:stop_error:" ++ (attempt ++ (text ":" ++ e))) ∷ []) last w
    rollback_attempt attempt issues last next (throws e, w) = (throws e, w)

    abbrev pub gave_up : List Text → Option WorkspaceStopResult → M W RolledBack
    gave_up issues last w =
        (gives (record { succeeded = false; issues = issues; last_stop = last }), w)

    abbrev pub stop_once : M W WorkspaceStopResult
    stop_once = stop_workspace_runtime self wid cid true

    -- Two attempts; an error that is not one of a stop leaves the rollback.
    unfoldable pub bring_up_compensating_rollback : M W RolledBack
    bring_up_compensating_rollback w =
        rollback_attempt (text "1") [] none
          (λ issues last v. rollback_attempt (text "2") issues last gave_up (stop_once v))
          (stop_once w)

  abbrev pub rolled_error : Text → Option EnsureRunningRuntimeResult → RolledBack → Failure
  rolled_error m running rb = bring_up_error m (record {
    rollback_attempted = true;
    rollback_succeeded = some rb.succeeded;
    rollback_issues = rb.issues;
    rollback_container_id = or_else (stop_id rb.last_stop) (running_id running);
    rollback_container_state = stop_state rb.last_stop;
  })

  unfoldable pub bring_up_failed :
      BringUpContext → Option EnsureRunningRuntimeResult → Failure → M W WorkspaceBringUpResult
  unfolding bring_up_compensating_rollback
  bring_up_failed ctx running e =
      bring_up_compensating_rollback ctx.wid (stripped_id running) >>= λ rb.
      λ w. (throws (rolled_error (failure_text e) running rb), w)

  abbrev unless : {A : Type 0} → Bool → Option A → Option A
  unless true o = none
  unless false o = o

  abbrev pub unhealthy_result : WorkspaceBringUpResult → RolledBack → WorkspaceBringUpResult
  unhealthy_result r rb = record {
    success = false;
    running = record r.running {
      container_id = or_else (stop_id rb.last_stop) r.running.container_id;
      container_state = or_else (stop_state rb.last_stop) r.running.container_state;
      workspace_ip = unless rb.succeeded r.running.workspace_ip;
      internal_endpoint = unless rb.succeeded r.running.internal_endpoint;
      gateway_route_target = unless rb.succeeded r.running.gateway_route_target;
      probe_healthy = some false;
    };
    issues = issues_or_none (r.issues ++ rb.issues);
    rollback_attempted = true;
    rollback_succeeded = some rb.succeeded;
    rollback_issues = issues_or_none rb.issues;
  }

  unfoldable pub bring_up_finished :
      BringUpContext
      → EnsureRunningRuntimeResult
      → WorkspaceBringUpResult
      → M W WorkspaceBringUpResult
  unfolding bring_up_compensating_rollback
  bring_up_finished ctx running r w =
      if r.success
      then (gives r, w)
      else follow (λ rb v. (gives (unhealthy_result r rb), v))
          (bring_up_compensating_rollback ctx.wid (stripped_id (some running)) w)

  -- The end of the `try`: with a result, or with an exception.
  unfoldable pub bring_up_probed :
      BringUpContext
      → EnsureRunningRuntimeResult
      → Outcome WorkspaceBringUpResult × W
      → Outcome WorkspaceBringUpResult × W
  unfolding bring_up_finished bring_up_failed
  bring_up_probed ctx running (gives r, w) = bring_up_finished ctx running r w
  bring_up_probed ctx running (throws e, w) = bring_up_failed ctx (some running) e w

  unfoldable pub bring_up_started :
      BringUpContext → Outcome EnsureRunningRuntimeResult × W → Outcome WorkspaceBringUpResult × W
  unfolding bring_up_probed
  bring_up_started ctx (throws e, w) = bring_up_failed ctx none e w
  bring_up_started ctx (gives running, w) =
      bring_up_probed ctx running
        ((bring_up_attach_topology self ctx running >>= bring_up_run_probe self ctx running) w)

  unfoldable pub bring_up_workspace_runtime :
      Text
      → Option Text
      → Option Text
      → Option ℕ
      → Option ℕ
      → Option ℕ
      → List (Text × Text)
      → Option Text
      → M W WorkspaceBringUpResult
  unfolding bring_up_started
  bring_up_workspace_runtime workspace_id key version cpu mem pids env launch_mode =
      bring_up_build_context self workspace_id key version launch_mode >>= λ ctx. λ v.
        follow
          (λ policy u.
            follow (λ r x. (gives (bringup_result_with_applied policy r), x))
              (bring_up_started ctx (bring_up_start_container self ctx policy env u)))
          (resolve_bringup_runtime_limits_triplet self.settings cpu mem pids, v)
