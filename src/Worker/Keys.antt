-- ===== src/Worker/Keys.antt =====
-- The execution of a job keeps the keys of its rows (worker.py).
mod Errors
pub mod Run
use devnest.Base.{
  ℕ, ◌≡◌, refl, inl, inr, Bool, true, false, Option, none, some, arith, Text, if◌then◌else◌, List,
  ◌&&◌, not, is_some, ◌∙◌, ap, Option-cases, Bool-cases,
}
use devnest.Model.Enums.{WorkspaceStatus, WorkspaceJobType, WorkspaceJobStatus, FailureStage, Code}
use devnest.Model.Env.{Env}
use devnest.Retry.{
  PlacementError, no_schedulable_node, other_placement_error, try_schedule_workspace_job_retry,
  try_schedule_capacity_retry, try_schedule_node_readiness_retry, requeue,
}
use devnest.Session.{revoke_all_workspace_sessions, reconcile_workspace_active_session_count}
use devnest.Worker.State.{
  Txn, Body, done, failed, unsupported, Answer, returned, raised, OrchestratorService,
  RunningRuntime, WorkspaceStopResult, WorkspaceDeleteResult, WorkspaceUpdateResult,
  WorkspaceRestartResult, WorkspaceBringUpResult, OrchestratorError, bring_up_error, render,
}
use devnest.Worker.Mark.{
  mark_job_succeeded, mark_job_failed, workspace_clear_errors, workspace_set_error,
  set_workspace_error, update_noop_issues_imply_stopped_workspace, touch_workspace,
  begin_create_bringup_after_placement,
}
use devnest.Model.Rows.{Workspace, WorkspaceRuntime, WorkspaceCleanupTask, ExecutionNode}
use devnest.Model.Logs.{AuditAction, AuditOutcome, UsageEventType}
use devnest.Worker.Runtime.{
  find_node, RouteTarget, target, refused, remote_gateway_route_target_for_node,
  sync_runtime_after_failed_bringup, sync_row,
}
use devnest.Worker.Finalize.{
  revoke_sessions, record_audit, record_usage, running_success, finalize_runtime_running_success,
  finalize_bringup_result, finalize_stop_result, finalize_delete_result, finalize_restart_result,
  finalize_update_result, finalize_delete_runtime_missing_idempotent, settle_stopped, no_rollback,
  finalize_job_failed_workspace_error, resolve_orchestrator_result_failure,
  sync_workspace_execution_node_id,
}

-- The keys of a transaction's rows: the job's id, its workspace and type, and the workspace's id.
unfoldable pub keys : Txn → ℕ × ℕ × WorkspaceJobType × ℕ
keys t = (t.job.workspace_job_id, t.job.workspace_id, t.job.job_type, t.ws.workspace_id)

abbrev rows_of : Body → Txn
rows_of (done t) = t
rows_of (failed e t) = t
rows_of (unsupported t) = t

keys-revoke_sessions : (now : ℕ) (t : Txn) → keys (revoke_sessions now t) ≡ keys t
unfolding keys revoke_sessions revoke_all_workspace_sessions
    reconcile_workspace_active_session_count
keys-revoke_sessions now t = ground arith

-- What is recorded after the sessions are revoked changes no key.
keys-closed :
    (now now' q : ℕ) (u : UsageEventType) (a : AuditAction) (o : AuditOutcome) (n k : Option Text)
    (t : Txn)
    → keys (record_usage now' u q n (record_audit a o k (revoke_sessions now t))) ≡ keys t
unfolding keys record_usage record_audit
keys-closed now now' q u a o n k t = keys-revoke_sessions now t

keys-marked :
    (now : ℕ) (rt : Option WorkspaceRuntime) (w : Workspace) (t : Txn)
    → w.workspace_id ≡ t.ws.workspace_id
    → keys (record t { runtime = rt; job = mark_job_succeeded now t.job; ws = w }) ≡ keys t
unfolding keys mark_job_succeeded
keys-marked now rt w t h =
    ap (λ x. (t.job.workspace_job_id, t.job.workspace_id, t.job.job_type, x)) h

keys-cleanup :
    (tasks : List WorkspaceCleanupTask) (t : Txn)
    → keys (record t { cleanup_tasks = tasks }) ≡ keys t
unfolding keys
keys-cleanup tasks t = refl

keys-resolve :
    (env : Env) (m : Text) (s : FailureStage) (b : Bool) (t : Txn)
    → keys (resolve_orchestrator_result_failure env m s b t) ≡ keys t
unfolding keys resolve_orchestrator_result_failure try_schedule_workspace_job_retry requeue
    touch_workspace finalize_job_failed_workspace_error mark_job_failed set_workspace_error
    record_audit record_usage workspace_set_error
keys-resolve env m s b t = ground arith

keys-stop :
    (env : Env) (r : WorkspaceStopResult) (t : Txn) → keys (finalize_stop_result env r t) ≡ keys t
unfolding finalize_stop_result touch_workspace workspace_clear_errors
keys-stop env r t = elim (Bool-cases r.success) [
  | inl e ↦
      rw (e, finalize_stop_result) (keys-closed _ _ _ _ _ _ _ _ _ ∙ keys-marked env.now _ _ t refl)
  | inr e ↦
      rw (e, finalize_stop_result)
        (keys-resolve env _ FailureStage.container false _ ∙ keys-cleanup _ t)
]

keys-delete :
    (env : Env) (r : WorkspaceDeleteResult) (t : Txn)
    → keys (finalize_delete_result env r t) ≡ keys t
unfolding finalize_delete_result touch_workspace workspace_clear_errors
keys-delete env r t = keys-closed _ _ _ _ _ _ _ _ _ ∙ keys-marked env.now _ _ t refl

keys-delete_missing :
    (env : Env) (t : Txn) → keys (finalize_delete_runtime_missing_idempotent env t) ≡ keys t
unfolding finalize_delete_runtime_missing_idempotent touch_workspace workspace_clear_errors
keys-delete_missing env t = keys-closed _ _ _ _ _ _ _ _ _ ∙ keys-marked env.now t.runtime _ t refl

sync_node_same :
    (node_id : Option Text) (nodes : List ExecutionNode) (ws : Workspace)
    → (sync_workspace_execution_node_id node_id nodes ws).workspace_id ≡ ws.workspace_id
unfolding sync_workspace_execution_node_id
sync_node_same node_id nodes ws = elim (Option-cases (find_node node_id nodes)) [
  | inl e ↦ rw (e, sync_workspace_execution_node_id) refl
  | inr (n, e) ↦ rw (e, sync_workspace_execution_node_id) refl
]

keys-running :
    (env : Env) (v : ℕ) (r : RunningRuntime) (route : Option Text) (t : Txn)
    → keys (running_success env v r route t) ≡ keys t
unfolding running_success touch_workspace workspace_clear_errors
keys-running env v r route t =
    keys-closed _ _ _ _ _ _ _ _ _
    ∙ keys-marked env.now _ _ t (sync_node_same r.node_id t.nodes t.ws)

keys-finalize_running :
    (env : Env) (v : ℕ) (r : RunningRuntime) (t : Txn)
    → keys (rows_of (finalize_runtime_running_success env v r t)) ≡ keys t
unfolding finalize_runtime_running_success
keys-finalize_running env v r t = by_route (
    remote_gateway_route_target_for_node env t.nodes r.node_id t.ws.execution_node_id
      r.gateway_route_target r.internal_endpoint)
  where
    by_route :
        (x : RouteTarget)
        → keys (
            rows_of (elim x [
              | target route ↦ done (running_success env v r route t)
              | refused m ↦ failed (bring_up_error (render m) no_rollback) t
            ]))
          ≡ keys t
    by_route (target route) = keys-running env v r route t
    by_route (refused m) = refl

keys-settle_stopped :
    (env : Env) (r : WorkspaceUpdateResult) (v : ℕ) (m : Text) (t : Txn)
    → keys (settle_stopped env r v m t) ≡ keys t
unfolding settle_stopped touch_workspace workspace_clear_errors
keys-settle_stopped env r v m t = keys-revoke_sessions env.now _ ∙ keys-marked env.now _ _ t refl

keys-update :
    (env : Env) (r : WorkspaceUpdateResult) (t : Txn)
    → keys (rows_of (finalize_update_result env r t)) ≡ keys t
unfolding finalize_update_result
keys-update env r t = elim (Bool-cases r.success) [
  | inl e ↦ rw (e, finalize_update_result) (keys-finalize_running env _ r.running t)
  | inr e ↦
      rw (e, finalize_update_result)
        (elim (Bool-cases (r.no_op && update_noop_issues_imply_stopped_workspace r.issues)) [
          | inl n ↦ rw n (keys-settle_stopped env r _ _ t)
          | inr n ↦ rw n (keys-resolve env _ FailureStage.container _ t)
        ])
]

keys-restart :
    (env : Env) (v : ℕ) (r : WorkspaceRestartResult) (t : Txn)
    → keys (rows_of (finalize_restart_result env v r t)) ≡ keys t
unfolding finalize_restart_result
keys-restart env v r t = elim (Bool-cases r.success) [
  | inl e ↦ rw (e, finalize_restart_result) (keys-finalize_running env v r.running t)
  | inr e ↦ rw (e, finalize_restart_result) (keys-resolve env _ FailureStage.container _ t)
]

keys-bring_up_sync :
    (now : ℕ) (a : Bool) (b : Option Bool) (i j : List Text) (r : RunningRuntime) (t : Txn)
    → keys (sync_runtime_after_failed_bringup now a b i j r t) ≡ keys t
unfolding keys sync_runtime_after_failed_bringup sync_row
keys-bring_up_sync now a b i j r t = ground arith

keys-bring_up :
    (env : Env) (v : ℕ) (r : WorkspaceBringUpResult) (t : Txn)
    → keys (rows_of (finalize_bringup_result env v r t)) ≡ keys t
unfolding finalize_bringup_result
keys-bring_up env v r t = elim (Bool-cases r.success) [
  | inl e ↦ rw (e, finalize_bringup_result) (keys-finalize_running env v r.running t)
  | inr e ↦
      rw (e, finalize_bringup_result)
        (keys-resolve env _ FailureStage.container _ _ ∙ keys-bring_up_sync env.now _ _ _ _ _ t)
]
