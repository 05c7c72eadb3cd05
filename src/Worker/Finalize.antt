-- ===== src/Worker/Finalize.antt =====
-- What a result of the orchestrator leads to: the finalizers of worker.py.
use devnest.Base.{
  ℕ, ◌-◌, Bool, true, false, ◌&&◌, Option, none, some, List, [], ◌∷◌, ◌++◌, if◌then◌else◌, ◌==◌,
  Text, text, truncate, or_else,
}
use devnest.Model.Enums.{WorkspaceStatus, WorkspaceRuntimeHealthStatus, FailureStage, Code}
use devnest.Model.Rows.{Workspace, WorkspaceRuntime, ExecutionNode, stop_incomplete}
use devnest.Model.Logs.{AuditAction, AuditActorType, AuditOutcome, UsageEventType}
use devnest.Model.Env.{Env}
use devnest.Retry.{try_schedule_workspace_job_retry, lifecycle_result_failure_retryable}
use devnest.Session.{revoke_all_workspace_sessions}
use devnest.Worker.State.{
  Txn, Body, done, failed, RunningRuntime, WorkspaceBringUpResult, WorkspaceStopResult,
  WorkspaceDeleteResult, WorkspaceRestartResult, WorkspaceUpdateResult, bring_up_error, Rollback,
  render, bringup_unsuccessful, stop_unsuccessful, restart_unsuccessful, update_unsuccessful,
}
use devnest.Worker.Mark.{
  mark_job_succeeded, mark_job_failed, workspace_clear_errors, touch_workspace, set_workspace_error,
  clear_runtime_capacity_reservation, format_issues, update_noop_issues_imply_stopped_workspace,
}
use devnest.Worker.Runtime.{
  apply_runtime_bringup_like, sync_runtime_after_failed_bringup, apply_runtime_stop,
  clear_runtime_after_delete, ensure_durable_cleanup_task, get_or_create_runtime, release,
  find_node, remote_gateway_route_target_for_node, target, refused,
}

-- `record_audit` by the worker, about the workspace of the transaction.
unfoldable pub record_audit : AuditAction → AuditOutcome → Option Text → Txn → Txn
record_audit action outcome node_id t = record t {
  audits =
      t.audits
      ++ record {
        action = action;
        actor_user_id = some t.job.requested_by_user_id;
        actor_type = AuditActorType.system;
        outcome = outcome;
        workspace_id = some t.ws.workspace_id;
        job_id = some t.job.workspace_job_id;
        node_id = node_id;
      }
        ∷ [];
}

unfoldable pub record_usage : ℕ → UsageEventType → ℕ → Option Text → Txn → Txn
record_usage now event_type quantity node_id t = record t {
  usages =
      t.usages
      ++ record {
        workspace_id = t.ws.workspace_id;
        owner_user_id = t.ws.owner_user_id;
        event_type = event_type;
        quantity = quantity;
        node_id = node_id;
        job_id = some t.job.workspace_job_id;
        created_at = now;
      }
        ∷ [];
}

unfoldable pub finalize_job_failed_workspace_error : ℕ → Text → FailureStage → Txn → Txn
unfolding record_audit record_usage
finalize_job_failed_workspace_error now message stage t =
    let t1 = record t {
      job = mark_job_failed now t.job message stage (Code.stage stage);
      ws = set_workspace_error now t.ws Code.workspace_job_failed message;
      runtime = clear_runtime_capacity_reservation now t.runtime;
    } in
    record_usage now UsageEventType.workspace_job_failed 1 none
      (record_audit AuditAction.workspace_job_failed AuditOutcome.failure none t1)

unfoldable pub resolve_orchestrator_result_failure : Env → Text → FailureStage → Bool → Txn → Txn
unfolding finalize_job_failed_workspace_error
resolve_orchestrator_result_failure env message stage retryable t =
    if retryable
    then (elim (try_schedule_workspace_job_retry env t.job message stage
        (some (Code.stage stage))) [
          | some job' ↦ record t { job = job'; ws = touch_workspace env.now t.ws }
          | none ↦ finalize_job_failed_workspace_error env.now message stage t
        ])
    else finalize_job_failed_workspace_error env.now message stage t

unfoldable pub sync_workspace_execution_node_id :
    Option Text → List ExecutionNode → Workspace → Workspace
sync_workspace_execution_node_id node_id nodes ws = elim (find_node node_id nodes) [
  | none ↦ ws
  | some node ↦ record ws { execution_node_id = some node.id }
]

-- `revoke_all_workspace_sessions` on the rows of the transaction.
unfoldable pub revoke_sessions : ℕ → Txn → Txn
revoke_sessions now t =
    let (ws', sessions') = revoke_all_workspace_sessions now t.ws t.sessions in
    record t { ws = ws'; sessions = sessions' }

unfoldable pub running_success : Env → ℕ → RunningRuntime → Option Text → Txn → Txn
unfolding sync_workspace_execution_node_id revoke_sessions record_audit record_usage
running_success env config_version r route t =
    let ws1 = sync_workspace_execution_node_id r.node_id t.nodes t.ws in
    let ws2 = workspace_clear_errors (record ws1 { status = WorkspaceStatus.running }) in
    let ws3 = record ws2 {
      endpoint_ref = or_else route (or_else r.internal_endpoint ws2.endpoint_ref);
      last_started = some env.now;
    } in
    let t1 = record t {
      runtime =
          some (apply_runtime_bringup_like env t.ws.workspace_id r route config_version t.runtime);
      job = mark_job_succeeded env.now t.job;
      ws = touch_workspace env.now ws3;
    } in
    record_usage env.now UsageEventType.workspace_started 1 r.node_id (
      record_audit AuditAction.workspace_job_succeeded AuditOutcome.success r.node_id
        (revoke_sessions env.now t1))

abbrev pub no_rollback : Rollback
no_rollback = record {
  rollback_attempted = false;
  rollback_succeeded = none;
  rollback_issues = [];
  rollback_container_id = none;
  rollback_container_state = none;
}

-- A refused route target is an exception, raised before anything is written.
unfoldable pub finalize_runtime_running_success : Env → ℕ → RunningRuntime → Txn → Body
unfolding running_success
finalize_runtime_running_success env config_version r t =
    elim (remote_gateway_route_target_for_node env t.nodes r.node_id t.ws.execution_node_id
      r.gateway_route_target r.internal_endpoint) [
        | target route ↦ done (running_success env config_version r route t)
        | refused m ↦ failed (bring_up_error (render m) no_rollback) t
      ]

abbrev or_text : Option Text → Text → Text
or_text none d = d
or_text (some []) d = d
or_text (some (c ∷ s)) d = c ∷ s

bringup_message : WorkspaceBringUpResult → Text
bringup_message result =
    let base = or_text (format_issues result.issues) (render bringup_unsuccessful) in
    elim (result.rollback_succeeded) [
      | none ↦ base
      | some true ↦ base
      | some false ↦ elim (or_else (format_issues result.rollback_issues) none) [
        | none ↦ base
        | some rb ↦ base ++ (text "; rollback_failed: " ++ rb)
      ]
    ]

unfoldable pub finalize_bringup_result : Env → ℕ → WorkspaceBringUpResult → Txn → Body
unfolding bringup_message
finalize_bringup_result env config_version result t =
    if result.success
    then finalize_runtime_running_success env config_version result.running t
    else done (
        resolve_orchestrator_result_failure env (bringup_message result) FailureStage.container
          (lifecycle_result_failure_retryable t.job.job_type)
          (sync_runtime_after_failed_bringup env.now result.rollback_attempted
            result.rollback_succeeded result.rollback_issues result.issues result.running t))

-- Seconds since the start; a start in the future counts 0.
abbrev runtime_seconds : ℕ → Option ℕ → ℕ
runtime_seconds now none = 0
runtime_seconds now (some started) = now - started

unfoldable pub finalize_stop_result : Env → WorkspaceStopResult → Txn → Txn
unfolding revoke_sessions record_audit record_usage
finalize_stop_result env result t =
    if result.success
    then (let ws1 = workspace_clear_errors (record (t.ws) { status = WorkspaceStatus.stopped }) in
        let t1 = record t {
          runtime = some (apply_runtime_stop env.now t.ws.workspace_id result t.runtime);
          job = mark_job_succeeded env.now t.job;
          ws = touch_workspace env.now (record ws1 { last_stopped = some env.now });
        } in
        let t2 =
          record_audit AuditAction.workspace_job_succeeded AuditOutcome.success none
            (revoke_sessions env.now t1) in
        record_usage env.now UsageEventType.workspace_stopped
          (runtime_seconds env.now t2.ws.last_started) none t2)
    else resolve_orchestrator_result_failure env
        (or_text (format_issues result.issues) (render stop_unsuccessful)) FailureStage.container
        false
        (record t {
          cleanup_tasks =
              ensure_durable_cleanup_task env.now t.ws.workspace_id stop_incomplete result.issues
                t.cleanup_tasks;
        })

-- DELETE succeeds whatever the orchestrator reports.
unfoldable pub finalize_delete_result : Env → WorkspaceDeleteResult → Txn → Txn
unfolding revoke_sessions record_audit record_usage
finalize_delete_result env result t =
    let t1 = record t {
      job = mark_job_succeeded env.now t.job;
      ws =
          touch_workspace env.now
            (workspace_clear_errors (record (t.ws) { status = WorkspaceStatus.deleted }));
      runtime = clear_runtime_after_delete t.runtime;
    } in
    record_usage env.now UsageEventType.workspace_deleted 1 none (
      record_audit AuditAction.workspace_job_succeeded AuditOutcome.success none
        (revoke_sessions env.now t1))

-- The same, where the row of the runtime was gone before.
unfoldable pub finalize_delete_runtime_missing_idempotent : Env → Txn → Txn
unfolding revoke_sessions record_audit record_usage
finalize_delete_runtime_missing_idempotent env t =
    let t1 = record t {
      job = mark_job_succeeded env.now t.job;
      ws =
          touch_workspace env.now
            (workspace_clear_errors (record (t.ws) { status = WorkspaceStatus.deleted }));
    } in
    record_usage env.now UsageEventType.workspace_deleted 1 none (
      record_audit AuditAction.workspace_job_succeeded AuditOutcome.success none
        (revoke_sessions env.now t1))

unfoldable pub finalize_restart_result : Env → ℕ → WorkspaceRestartResult → Txn → Body
finalize_restart_result env config_version result t =
    if result.success
    then finalize_runtime_running_success env config_version result.running t
    else done (
        resolve_orchestrator_result_failure env
          (or_text (format_issues result.issues) (render restart_unsuccessful))
          FailureStage.container (lifecycle_result_failure_retryable t.job.job_type) t)

unfoldable pub stopped_runtime :
    Env → ℕ → RunningRuntime → ℕ → Option WorkspaceRuntime → WorkspaceRuntime
stopped_runtime env wid r config_version row =
    record (release (get_or_create_runtime env.now wid row)) {
      node_id = r.node_id;
      topology_id = r.topology_id;
      container_id = r.container_id;
      container_state = r.container_state;
      internal_endpoint = r.internal_endpoint;
      gateway_route_target = r.gateway_route_target;
      config_version = some config_version;
      health_status = WorkspaceRuntimeHealthStatus.unknown;
      last_heartbeat_at = none;
      updated_at = env.now;
    }

-- `result.requested_config_version or job.requested_config_version`
abbrev requested_version : ℕ → ℕ → ℕ
requested_version v w = if v == 0 then w else v

unfoldable pub settle_stopped : Env → WorkspaceUpdateResult → ℕ → Text → Txn → Txn
unfolding revoke_sessions stopped_runtime
settle_stopped env result config_version message t =
    let ws1 = workspace_clear_errors (record (t.ws) { status = WorkspaceStatus.stopped }) in
    revoke_sessions env.now (record t {
      runtime =
          some (stopped_runtime env t.ws.workspace_id result.running config_version t.runtime);
      job = mark_job_succeeded env.now t.job;
      ws = touch_workspace env.now (record ws1 { status_reason = truncate (some message) 1024 });
    })

unfoldable pub finalize_update_result : Env → WorkspaceUpdateResult → Txn → Body
unfolding settle_stopped
finalize_update_result env result t =
    let cfg_v = requested_version result.requested_config_version t.job.requested_config_version in
    let msg = or_text (format_issues result.issues) (render update_unsuccessful) in
    if result.success
    then finalize_runtime_running_success env cfg_v result.running t
    else if result.no_op && update_noop_issues_imply_stopped_workspace result.issues
    then done (settle_stopped env result cfg_v msg t)
    else done (
        resolve_orchestrator_result_failure env msg FailureStage.container
          (lifecycle_result_failure_retryable t.job.job_type) t)
