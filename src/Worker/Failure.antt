-- ===== src/Worker/Failure.antt =====
-- What becomes of a job that fails before or outside the orchestrator's results: placement, the
-- binding of the orchestrator, and exceptions (worker.py).
use devnest.Base.{
  ℕ, Bool, true, false, ◌&&◌, Option, none, some, List, [], ◌∷◌, ◌++◌, if◌then◌else◌, ◌==◌, Text,
  text, update_where,
}
use devnest.Model.Enums.{
  WorkspaceStatus, WorkspaceJobType, WorkspaceSnapshotStatus, FailureStage, Code,
}
use devnest.Model.Rows.{WorkspaceJob, WorkspaceSnapshot}
use devnest.Model.Env.{Env}
use devnest.Retry.{
  PlacementError, no_schedulable_node, other_placement_error, classify_placement_error,
  orchestrator_binding_retryable, orchestrator_exception_retryable,
  try_schedule_workspace_job_retry, try_schedule_capacity_retry, try_schedule_node_readiness_retry,
  capacity_wait_timed_out,
}
use devnest.Worker.State.{
  Txn, Message, render, capacity_wait, capacity_timeout, preparing_capacity, node_readiness_wait,
  node_readiness_timeout, waiting_for_node, unsupported_type, OrchestratorError, bring_up_error,
  stop_error, delete_error, restart_error, update_error, snapshot_error,
}
use devnest.Worker.Mark.{
  mark_job_failed, touch_workspace, set_workspace_error, clear_runtime_capacity_reservation,
  format_issues, is_node_readiness_error, node_readiness_retry_allowed,
  mark_node_not_ready_for_retry,
}
use devnest.Worker.Runtime.{sync_runtime_after_bringup_exception}

-- The job fails for good, its workspace is in ERROR, and the reservation is released: the
-- statements with which the failure paths of this file end.
unfoldable pub fail_terminally : ℕ → Text → FailureStage → Code → Code → Txn → Txn
fail_terminally now message stage failure_code error_code t = record t {
  job = mark_job_failed now t.job message stage failure_code;
  ws = set_workspace_error now t.ws error_code message;
  runtime = clear_runtime_capacity_reservation now t.runtime;
}

-- The workspace waits, in PENDING.
unfoldable pub wait_pending : ℕ → WorkspaceJob → Message → Message → Txn → Txn
wait_pending now job' message reason t = record t {
  job = job';
  ws = touch_workspace now (record (t.ws) {
    status = WorkspaceStatus.pending;
    last_error_message = some (render message);
    last_error_code = none;
    status_reason = some (render reason);
  });
}

unfoldable pub fail_job_from_placement : Env → PlacementError → Txn → Txn
unfolding fail_terminally wait_pending classify_placement_error
fail_job_from_placement env (no_schedulable_node m) t =
    elim (try_schedule_capacity_retry env t.job (render capacity_wait)) [
      | some job' ↦ wait_pending env.now job' capacity_wait preparing_capacity t
      | none ↦
          fail_terminally env.now
            (if capacity_wait_timed_out env t.job then render capacity_timeout else m)
            (classify_placement_error (no_schedulable_node m)).0 Code.no_schedulable_node
            Code.placement_failed t
    ]
fail_job_from_placement env (other_placement_error m) t =
    let stage = (classify_placement_error (other_placement_error m)).0 in
    elim (try_schedule_workspace_job_retry env t.job m stage (some Code.placement)) [
      | some job' ↦ record t { job = job'; ws = touch_workspace env.now t.ws }
      | none ↦ fail_terminally env.now m stage Code.placement Code.placement_failed t
    ]

-- The wait for a node that is still starting up, or its end.
unfoldable pub wait_for_node : Env → Option Text → Text → Code → Txn → Txn
unfolding fail_terminally wait_pending
wait_for_node env node_key reason error_code t =
    let t1 = record t { nodes = mark_node_not_ready_for_retry env.now node_key reason t.nodes } in
    elim (try_schedule_node_readiness_retry env t1.job (render node_readiness_wait)) [
      | some job' ↦ wait_pending env.now job' node_readiness_wait waiting_for_node t1
      | none ↦
          fail_terminally env.now (render node_readiness_timeout) FailureStage.capacity
            Code.node_readiness error_code t1
    ]

unfoldable pub fail_job_from_orchestrator_binding : Env → Text → Txn → Txn
unfolding wait_for_node orchestrator_binding_retryable
fail_job_from_orchestrator_binding env message t =
    if node_readiness_retry_allowed t.job.job_type && is_node_readiness_error message
    then wait_for_node env (env.node_key_from_error_message message) message
        Code.orchestrator_binding_failed t
    else (let stage = orchestrator_binding_retryable.0 in
        elim (try_schedule_workspace_job_retry env t.job message stage
          (some Code.orchestrator_binding)) [
            | some job' ↦ record t { job = job'; ws = touch_workspace env.now t.ws }
            | none ↦
                fail_terminally env.now message stage Code.orchestrator_binding
                  Code.orchestrator_binding_failed t
          ])

rollback_text : Text → Option Bool → List Text → Text
rollback_text m (some false) issues = elim (format_issues issues) [
  | none ↦ m
  | some [] ↦ m
  | some (c ∷ rb) ↦ m ++ (text "; rollback_failed: " ++ c ∷ rb)
]
rollback_text m _ issues = m

-- The message that is stored.
unfoldable pub failure_text : OrchestratorError → Text
unfolding rollback_text
failure_text (bring_up_error m r) = rollback_text m r.rollback_succeeded r.rollback_issues
failure_text (stop_error m) = m
failure_text (delete_error m) = m
failure_text (restart_error m) = m
failure_text (update_error m) = m
failure_text (snapshot_error m) = m

unfoldable pub may_retry : OrchestratorError → WorkspaceJobType → Bool
may_retry (stop_error m) job_type = false
may_retry (delete_error m) job_type = false
may_retry _ job_type = orchestrator_exception_retryable job_type

unfoldable pub sync_after_exception : ℕ → OrchestratorError → Txn → Txn
sync_after_exception now (bring_up_error m r) t = sync_runtime_after_bringup_exception now r t
sync_after_exception now _ t = t

abbrev pub is_snapshot_job : WorkspaceJobType → Bool
is_snapshot_job WorkspaceJobType.snapshot_create = true
is_snapshot_job WorkspaceJobType.snapshot_restore = true
is_snapshot_job _ = false

fail_creating : WorkspaceSnapshot → WorkspaceSnapshot
fail_creating s = elim (s.status) [
  | WorkspaceSnapshotStatus.creating ↦ record s { status = WorkspaceSnapshotStatus.failed }
  | other ↦ s
]

abbrev is_snapshot : Option ℕ → WorkspaceSnapshot → Bool
is_snapshot none s = false
is_snapshot (some i) s = s.workspace_snapshot_id == i

settle_snapshots : WorkspaceJobType → Option ℕ → List WorkspaceSnapshot → List WorkspaceSnapshot
unfolding fail_creating
settle_snapshots WorkspaceJobType.snapshot_create i rows =
    update_where (is_snapshot i) fail_creating rows
settle_snapshots WorkspaceJobType.snapshot_restore i rows =
    update_where (is_snapshot i) (λ s. record s { status = WorkspaceSnapshotStatus.available }) rows
settle_snapshots _ i rows = rows

unfoldable pub fail_after_exception : Env → Text → FailureStage → Txn → Txn
unfolding fail_terminally settle_snapshots
fail_after_exception env message stage t =
    if is_snapshot_job t.job.job_type
    then record t {
      job = mark_job_failed env.now t.job message stage Code.orchestrator_exception;
      snapshots = settle_snapshots t.job.job_type t.job.workspace_snapshot_id t.snapshots;
      ws = touch_workspace env.now t.ws;
    }
    else fail_terminally env.now message stage Code.orchestrator_exception
        Code.orchestrator_exception t

abbrev pub exception_stage : WorkspaceJobType → FailureStage
exception_stage jt = if is_snapshot_job jt then FailureStage.storage else FailureStage.container

-- The handler of `_ORCHESTRATOR_EXCEPTIONS` in `_process_claimed_running_job`. `node_id` is that of
-- the orchestrator.
unfoldable pub handle_orchestrator_exception : Env → Option Text → OrchestratorError → Txn → Txn
unfolding sync_after_exception failure_text may_retry wait_for_node fail_after_exception
handle_orchestrator_exception env node_id e t =
    let t1 = sync_after_exception env.now e t in
    let msg = failure_text e in
    let stage = exception_stage t.job.job_type in
    if node_readiness_retry_allowed t.job.job_type && is_node_readiness_error msg
    then wait_for_node env node_id msg Code.orchestrator_exception t1
    else if may_retry e t.job.job_type
    then (elim (try_schedule_workspace_job_retry env t1.job msg stage
        (some Code.orchestrator_exception)) [
          | some job' ↦ record t1 { job = job'; ws = touch_workspace env.now t1.ws }
          | none ↦ fail_after_exception env msg stage t1
        ])
    else fail_after_exception env msg stage t1

unfoldable pub handle_unsupported_job_type : Env → Txn → Txn
unfolding fail_terminally
handle_unsupported_job_type env t =
    fail_terminally env.now (render unsupported_type) FailureStage.unknown Code.workspace_job_failed
      Code.workspace_job_failed t
