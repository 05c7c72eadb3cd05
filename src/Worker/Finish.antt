-- ===== src/Worker/Finish.antt =====
-- The finalizers and the whole execution of a claimed lifecycle job end in one of the ways that
-- Worker.Outcome states.
use devnest.Base.{
  ℕ, ◌≡◌, refl, inl, inr, Bool, true, false, Option, none, arith, Text, if◌then◌else◌, List, ◌&&◌,
}
use devnest.Model.Enums.{WorkspaceStatus, WorkspaceJobType, WorkspaceJobStatus, is_busy}
use devnest.Model.Rows.{WorkspaceRuntime}
use mathlib.Core.Bool.{false≢true}
use devnest.Model.Env.{Env}
use devnest.Session.{revoke_all_workspace_sessions, reconcile_workspace_active_session_count}
use devnest.Worker.State.{
  Txn, Body, done, failed, unsupported, Answer, returned, raised, OrchestratorService,
  RunningRuntime, WorkspaceStopResult, WorkspaceDeleteResult, WorkspaceUpdateResult,
  WorkspaceRestartResult, WorkspaceBringUpResult, bring_up_error, render,
}
use devnest.Worker.Mark.{
  mark_job_succeeded, workspace_clear_errors, touch_workspace,
  update_noop_issues_imply_stopped_workspace,
}
use devnest.Worker.Runtime.{
  RouteTarget, target, refused, apply_runtime_stop, release, clear_runtime_after_delete,
  sync_runtime_after_failed_bringup, remote_gateway_route_target_for_node,
}
use devnest.Worker.Finalize.{
  revoke_sessions, record_audit, record_usage, running_success, finalize_runtime_running_success,
  finalize_bringup_result, finalize_stop_result, finalize_delete_result, finalize_restart_result,
  finalize_update_result, finalize_delete_runtime_missing_idempotent, settle_stopped, no_rollback,
}
use devnest.Worker.Queue.{is_lifecycle}
use devnest.Worker.Outcome.{Reached, EndsIn, resolve-EndsIn, if_cases}
use devnest.Model.Logs.{AuditAction, AuditOutcome, UsageEventType}
use devnest.Worker.Process.{dispatch, bring_up, answer}

-- Revoking the sessions leaves the job, the runtime and the workspace's status alone.
pub revoke_sessions_same :
    (now : ℕ) (t : Txn)
    → ((revoke_sessions now t).job ≡ t.job)
      × ((revoke_sessions now t).runtime ≡ t.runtime)
      × ((revoke_sessions now t).ws.status ≡ t.ws.status)
unfolding revoke_sessions revoke_all_workspace_sessions reconcile_workspace_active_session_count
revoke_sessions_same now t = ground arith

-- The end of a job, read from its rows.
pub by_rows :
    (jt : WorkspaceJobType) (t u : Txn)
    → (u.job ≡ t.job) × (u.runtime ≡ t.runtime) × (u.ws.status ≡ t.ws.status)
    → EndsIn jt t
    → EndsIn jt u
unfolding EndsIn
by_rows jt t u same h = rw (same.0, same.1, same.2) h

revoked-EndsIn :
    (jt : WorkspaceJobType) (now : ℕ) (t : Txn) → EndsIn jt t → EndsIn jt (revoke_sessions now t)
revoked-EndsIn jt now t h = by_rows jt t (revoke_sessions now t) (revoke_sessions_same now t) h

-- The audit row and the usage record leave the rows alone.
recorded-EndsIn :
    (jt : WorkspaceJobType) (now : ℕ) (a : AuditAction) (o : AuditOutcome) (m k : Option Text)
    (u : UsageEventType) (q : ℕ) (t : Txn)
    → EndsIn jt t
    → EndsIn jt (record_usage now u q k (record_audit a o m t))
unfolding EndsIn record_usage record_audit
recorded-EndsIn jt now a o m k u q t h = h

succeeded-EndsIn :
    (jt : WorkspaceJobType) (t : Txn)
    → t.job.status ≡ WorkspaceJobStatus.succeeded
    → Reached jt t.ws.status t.runtime
    → EndsIn jt t
unfolding EndsIn
succeeded-EndsIn jt t e h = rw e h

-- The types of job that may end with a running workspace.
abbrev Starts : WorkspaceJobType → Type 0
Starts jt = (rt : Option WorkspaceRuntime) → Reached jt WorkspaceStatus.running rt

running_success-EndsIn :
    (jt : WorkspaceJobType) (env : Env) (v : ℕ) (r : RunningRuntime) (route : Option Text) (t : Txn)
    → Starts jt
    → EndsIn jt (running_success env v r route t)
unfolding running_success mark_job_succeeded touch_workspace workspace_clear_errors
running_success-EndsIn jt env v r route t h =
    recorded-EndsIn jt env.now _ _ _ _ _ _ _
      (revoked-EndsIn jt env.now _ (succeeded-EndsIn jt _ refl (h _)))

-- What a body leads to, once the worker has handled it.
abbrev pub BodyEnds : WorkspaceJobType → Body → Type 0
BodyEnds jt (done t) = EndsIn jt t
BodyEnds jt (failed e t) = (t.job.job_type ≡ jt) × (is_busy t.ws.status ≡ true)
BodyEnds jt (unsupported t) = ⊥

finalize_running-BodyEnds :
    (jt : WorkspaceJobType) (env : Env) (v : ℕ) (r : RunningRuntime) (t : Txn)
    → Starts jt
    → t.job.job_type ≡ jt
    → is_busy t.ws.status ≡ true
    → BodyEnds jt (finalize_runtime_running_success env v r t)
unfolding finalize_runtime_running_success
finalize_running-BodyEnds jt env v r t h e b = by_target (
    remote_gateway_route_target_for_node env t.nodes r.node_id t.ws.execution_node_id
      r.gateway_route_target r.internal_endpoint)
  where
    by_target :
        (x : RouteTarget)
        → BodyEnds jt (elim x [
          | target route ↦ done (running_success env v r route t)
          | refused m ↦ failed (bring_up_error (render m) no_rollback) t
        ])
    by_target (target route) = running_success-EndsIn jt env v r route t h
    by_target (refused m) = (e, b)

bring_up_sync_same :
    (now : ℕ) (a : Bool) (s : Option Bool) (ri is : List Text) (r : RunningRuntime) (t : Txn)
    → ((sync_runtime_after_failed_bringup now a s ri is r t).ws ≡ t.ws)
unfolding sync_runtime_after_failed_bringup
bring_up_sync_same now a s ri is r t = ground arith

body_if :
    (jt : WorkspaceJobType) (b : Bool) (x y : Body)
    → BodyEnds jt x
    → BodyEnds jt y
    → BodyEnds jt (if b then x else y)
body_if jt true x y hx hy = hx
body_if jt false x y hx hy = hy

bring_up-BodyEnds :
    (jt : WorkspaceJobType) (env : Env) (v : ℕ) (r : WorkspaceBringUpResult) (t : Txn)
    → Starts jt
    → t.job.job_type ≡ jt
    → is_busy t.ws.status ≡ true
    → BodyEnds jt (finalize_bringup_result env v r t)
unfolding finalize_bringup_result
bring_up-BodyEnds jt env v r t h e b =
    body_if jt r.success _ _ (finalize_running-BodyEnds jt env v r.running t h e b) (
      resolve-EndsIn jt env _ _ _ _ (
        rw
          (bring_up_sync_same env.now r.rollback_attempted r.rollback_succeeded r.rollback_issues
            r.issues r.running t)
          b))

restart-BodyEnds :
    (jt : WorkspaceJobType) (env : Env) (v : ℕ) (r : WorkspaceRestartResult) (t : Txn)
    → Starts jt
    → t.job.job_type ≡ jt
    → is_busy t.ws.status ≡ true
    → BodyEnds jt (finalize_restart_result env v r t)
unfolding finalize_restart_result
restart-BodyEnds jt env v r t h e b =
    body_if jt r.success _ _ (finalize_running-BodyEnds jt env v r.running t h e b)
      (resolve-EndsIn jt env _ _ _ t b)

stop-EndsIn :
    (env : Env) (r : WorkspaceStopResult) (t : Txn)
    → is_busy t.ws.status ≡ true
    → EndsIn WorkspaceJobType.stop (finalize_stop_result env r t)
unfolding finalize_stop_result mark_job_succeeded touch_workspace workspace_clear_errors
    apply_runtime_stop
stop-EndsIn env r t b =
    if_cases WorkspaceJobType.stop r.success _ _
      (recorded-EndsIn WorkspaceJobType.stop env.now _ _ _ _ _ _ _ (
        revoked-EndsIn WorkspaceJobType.stop env.now _
          (succeeded-EndsIn WorkspaceJobType.stop _ refl (refl, (refl, refl, refl)))))
      (resolve-EndsIn WorkspaceJobType.stop env _ _ false _ b)

delete-EndsIn :
    (env : Env) (r : WorkspaceDeleteResult) (t : Txn)
    → EndsIn WorkspaceJobType.delete (finalize_delete_result env r t)
unfolding finalize_delete_result mark_job_succeeded touch_workspace workspace_clear_errors
    clear_runtime_after_delete
delete-EndsIn env r t = recorded-EndsIn WorkspaceJobType.delete env.now _ _ _ _ _ _ _ (
    revoked-EndsIn WorkspaceJobType.delete env.now _
      (succeeded-EndsIn WorkspaceJobType.delete _ refl (refl, refl)))

pub delete_missing-EndsIn :
    (env : Env) (t : Txn)
    → t.runtime ≡ none
    → EndsIn WorkspaceJobType.delete (finalize_delete_runtime_missing_idempotent env t)
unfolding finalize_delete_runtime_missing_idempotent mark_job_succeeded touch_workspace
    workspace_clear_errors
delete_missing-EndsIn env t h = recorded-EndsIn WorkspaceJobType.delete env.now _ _ _ _ _ _ _ (
    revoked-EndsIn WorkspaceJobType.delete env.now _
      (succeeded-EndsIn WorkspaceJobType.delete _ refl (refl, h)))

settle_stopped-EndsIn :
    (env : Env) (r : WorkspaceUpdateResult) (v : ℕ) (m : Text) (t : Txn)
    → EndsIn WorkspaceJobType.update (settle_stopped env r v m t)
unfolding settle_stopped mark_job_succeeded touch_workspace workspace_clear_errors release
settle_stopped-EndsIn env r v m t =
    revoked-EndsIn WorkspaceJobType.update env.now _
      (succeeded-EndsIn WorkspaceJobType.update _ refl (inr (refl, (refl, refl, refl))))

update-BodyEnds :
    (env : Env) (r : WorkspaceUpdateResult) (t : Txn)
    → t.job.job_type ≡ WorkspaceJobType.update
    → is_busy t.ws.status ≡ true
    → BodyEnds WorkspaceJobType.update (finalize_update_result env r t)
unfolding finalize_update_result
update-BodyEnds env r t e b =
    body_if WorkspaceJobType.update r.success _ _
      (finalize_running-BodyEnds WorkspaceJobType.update env _ r.running t (λ rt. inl refl) e b)
      (body_if WorkspaceJobType.update
        (r.no_op && update_noop_issues_imply_stopped_workspace r.issues) _ _
        (settle_stopped-EndsIn env r _ _ t) (resolve-EndsIn WorkspaceJobType.update env _ _ _ t b))

-- The body of a job of each lifecycle type. What the type of an answer is does not matter: an
-- exception leaves the transaction as it was.
answer-BodyEnds :
    {A : Type 0} (jt : WorkspaceJobType) (x : Answer A) (f : A → Txn → Body) (t : Txn)
    → ((r : A) → BodyEnds jt (f r t))
    → t.job.job_type ≡ jt
    → is_busy t.ws.status ≡ true
    → BodyEnds jt (answer x f t)
unfolding answer
answer-BodyEnds jt (returned r) f t h e b = h r
answer-BodyEnds jt (raised x) f t h e b = (e, b)

bring_up_job-BodyEnds :
    (jt : WorkspaceJobType) (env : Env) (o : OrchestratorService) (t : Txn)
    → Starts jt
    → o.limits_error ≡ none
    → t.job.job_type ≡ jt
    → is_busy t.ws.status ≡ true
    → BodyEnds jt (bring_up env o t)
unfolding bring_up
bring_up_job-BodyEnds jt env o t h l e b =
    rw (l, bring_up)
      (answer-BodyEnds jt o.bring_up_workspace_runtime _ t
        (λ r. bring_up-BodyEnds jt env t.job.requested_config_version r t h e b) e b)

pub dispatch-BodyEnds :
    (jt : WorkspaceJobType) (env : Env) (o : OrchestratorService) (other : Txn → Body) (t : Txn)
    → is_lifecycle jt ≡ true
    → o.limits_error ≡ none
    → t.job.job_type ≡ jt
    → is_busy t.ws.status ≡ true
    → BodyEnds jt (dispatch env o other jt t)
unfolding dispatch
dispatch-BodyEnds WorkspaceJobType.create env o other t h l e b =
    bring_up_job-BodyEnds WorkspaceJobType.create env o t (λ rt. refl) l e b
dispatch-BodyEnds WorkspaceJobType.start env o other t h l e b =
    bring_up_job-BodyEnds WorkspaceJobType.start env o t (λ rt. refl) l e b
dispatch-BodyEnds WorkspaceJobType.stop env o other t h l e b =
    answer-BodyEnds WorkspaceJobType.stop o.stop_workspace_runtime _ t (λ r. stop-EndsIn env r t b)
      e b
dispatch-BodyEnds WorkspaceJobType.delete env o other t h l e b =
    answer-BodyEnds WorkspaceJobType.delete o.delete_workspace_runtime _ t
      (λ r. delete-EndsIn env r t) e b
dispatch-BodyEnds WorkspaceJobType.restart env o other t h l e b =
    answer-BodyEnds WorkspaceJobType.restart o.restart_workspace_runtime _ t
      (λ r. restart-BodyEnds WorkspaceJobType.restart env _ r t (λ rt. refl) e b) e b
dispatch-BodyEnds WorkspaceJobType.update env o other t h l e b =
    answer-BodyEnds WorkspaceJobType.update o.update_workspace_runtime _ t
      (λ r. update-BodyEnds env r t e b) e b
dispatch-BodyEnds WorkspaceJobType.unsupported env o other t h l e b = absurd (false≢true h)
dispatch-BodyEnds _ env o other t h l e b = absurd (false≢true h)
