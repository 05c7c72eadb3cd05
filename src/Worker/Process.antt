-- ===== src/Worker/Process.antt =====
-- The execution of one claimed job: `_execute_job_body`, `_process_claimed_running_job`,
-- `_emit_job_outcome_event` and the part of `_process_next_queued_job_return_id` behind the claim.
use devnest.Base.{
  Bool, true, false, ◌&&◌, none, some, [], ◌∷◌, ◌++◌, if◌then◌else◌, leb, is_some, Text, stripped,
  is_empty, not,
}
use devnest.Model.Enums.{WorkspaceJobType, WorkspaceJobStatus, FailureStage, Code}
use devnest.Model.Logs.{WorkspaceStreamEventType}
use devnest.Model.Env.{Env}
use devnest.Retry.{PlacementError, effective_max_attempts}
use devnest.Worker.State.{
  Txn, Body, done, failed, unsupported, Answer, returned, raised, OrchestratorService,
}
use devnest.Worker.Mark.{mark_job_failed, set_workspace_error, begin_create_bringup_after_placement}
use devnest.Worker.Finalize.{
  finalize_bringup_result, finalize_stop_result, finalize_delete_result, finalize_restart_result,
  finalize_update_result, finalize_delete_runtime_missing_idempotent,
}
use devnest.Worker.Failure.{
  fail_job_from_placement, fail_job_from_orchestrator_binding, handle_orchestrator_exception,
  handle_unsupported_job_type,
}

-- `record_workspace_event` about the job of the transaction.
unfoldable pub record_event : WorkspaceStreamEventType → Txn → Txn
record_event event_type t = record t {
  events =
      t.events
      ++ record {
        workspace_id = t.ws.workspace_id;
        event_type = event_type;
        status = t.ws.status;
        job_id = t.job.workspace_job_id;
      }
        ∷ [];
}

-- An answer of the orchestrator, handed to its finalizer.
unfoldable pub answer : {A : Type 0} → Answer A → (A → Txn → Body) → Txn → Body
answer (returned r) finalize t = finalize r t
answer (raised e) finalize t = failed e t

unfoldable pub bring_up : Env → OrchestratorService → Txn → Body
unfolding answer
bring_up env o t = elim (o.limits_error) [
  | some msg ↦ done (record t {
    job = mark_job_failed env.now t.job msg FailureStage.unknown Code.invalid_runtime_limits;
    ws = set_workspace_error env.now t.ws Code.invalid_runtime_limits msg;
  })
  | none ↦
      answer o.bring_up_workspace_runtime
        (finalize_bringup_result env t.job.requested_config_version) t
]

-- The bodies of REPO_IMPORT, RECONCILE_RUNTIME and the snapshot jobs are handed in.
unfoldable pub dispatch : Env → OrchestratorService → (Txn → Body) → WorkspaceJobType → Txn → Body
unfolding bring_up answer
dispatch env o other WorkspaceJobType.create t = bring_up env o t
dispatch env o other WorkspaceJobType.start t = bring_up env o t
dispatch env o other WorkspaceJobType.stop t =
    answer o.stop_workspace_runtime (λ r u. done (finalize_stop_result env r u)) t
dispatch env o other WorkspaceJobType.delete t =
    answer o.delete_workspace_runtime (λ r u. done (finalize_delete_result env r u)) t
dispatch env o other WorkspaceJobType.restart t =
    answer o.restart_workspace_runtime (finalize_restart_result env t.job.requested_config_version)
      t
dispatch env o other WorkspaceJobType.update t =
    answer o.update_workspace_runtime (finalize_update_result env) t
dispatch env o other WorkspaceJobType.unsupported t = unsupported t
dispatch env o other _ t = other t

unfoldable pub execute_job_body : Env → OrchestratorService → (Txn → Body) → Txn → Body
unfolding dispatch
execute_job_body env o other t = dispatch env o other t.job.job_type t

abbrev is_reconcile : WorkspaceJobType → Bool
is_reconcile WorkspaceJobType.reconcile_runtime = true
is_reconcile _ = false

unfoldable pub also_if : Bool → WorkspaceStreamEventType → Txn → Txn
unfolding record_event
also_if b event_type t = if b then record_event event_type t else t

unfoldable pub outcome_events : Env → WorkspaceJobStatus → Txn → Txn
unfolding record_event also_if
outcome_events env WorkspaceJobStatus.queued t =
    if is_some t.job.next_attempt_after && not (is_empty (stripped t.job.error_msg))
    then also_if (is_reconcile t.job.job_type) WorkspaceStreamEventType.reconcile_retry_scheduled
        (record_event WorkspaceStreamEventType.job_retry_scheduled t)
    else t
outcome_events env WorkspaceJobStatus.succeeded t =
    record_event WorkspaceStreamEventType.job_succeeded t
outcome_events env WorkspaceJobStatus.failed t =
    also_if (is_reconcile t.job.job_type) WorkspaceStreamEventType.reconcile_failed_terminal (
      record_event WorkspaceStreamEventType.job_failed (
        also_if (leb (effective_max_attempts env t.job) t.job.attempt)
          WorkspaceStreamEventType.job_retry_exhausted t))
outcome_events env _ t = t

unfoldable pub emit_job_outcome_event : Env → Txn → Txn
unfolding outcome_events
emit_job_outcome_event env t = outcome_events env t.job.status t

unfoldable pub settle : Env → OrchestratorService → Body → Txn
settle env o (done t) = t
settle env o (failed e t) = handle_orchestrator_exception env o.node_id e t
settle env o (unsupported t) = handle_unsupported_job_type env t

unfoldable pub process_claimed_running_job : Env → OrchestratorService → (Txn → Body) → Txn → Txn
unfolding record_event settle
process_claimed_running_job env o other t = emit_job_outcome_event env (
    settle env o
      (execute_job_body env o other (record_event WorkspaceStreamEventType.job_running t)))

-- What `get_orchestrator` gives, from the placement service.
pub data Binding : Type 0 where
  bound : OrchestratorService → Binding
  placement_failed : PlacementError → Binding
  binding_failed : Text → Binding

unfoldable pub bind_and_run : Env → Binding → (Txn → Body) → Txn → Txn
bind_and_run env (bound o) other t =
    process_claimed_running_job env o other (begin_create_bringup_after_placement env.now t)
bind_and_run env (placement_failed e) other t =
    emit_job_outcome_event env (fail_job_from_placement env e t)
bind_and_run env (binding_failed m) other t =
    emit_job_outcome_event env (fail_job_from_orchestrator_binding env m t)

abbrev pub is_delete : WorkspaceJobType → Bool
is_delete WorkspaceJobType.delete = true
is_delete _ = false

-- The claimed job is run. A DELETE whose runtime row is gone is done at once.
unfoldable pub process_claimed : Env → Binding → (Txn → Body) → Txn → Txn
unfolding bind_and_run
process_claimed env b other t =
    if is_delete t.job.job_type && not (is_some t.runtime)
    then emit_job_outcome_event env (finalize_delete_runtime_missing_idempotent env t)
    else bind_and_run env b other t
