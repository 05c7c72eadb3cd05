-- ===== src/Worker/Outcome.antt =====
-- Every way in which the execution of a lifecycle job ends, in the rows of the job, the workspace
-- and the runtime (worker.py).
use devnest.Base.{
  ℕ, ◌≡◌, refl, ◌⊎◌, Bool, true, false, Option, none, some, arith, Text, if◌then◌else◌, ◌&&◌,
}
use devnest.Model.Enums.{
  WorkspaceStatus, WorkspaceJobType, WorkspaceJobStatus, FailureStage, Code, is_busy,
}
use devnest.Model.Rows.{WorkspaceJob, WorkspaceRuntime}
use devnest.Model.Env.{Env}
use devnest.Retry.{
  PlacementError, no_schedulable_node, other_placement_error, requeue,
  try_schedule_workspace_job_retry, try_schedule_capacity_retry, try_schedule_node_readiness_retry,
}
use devnest.Worker.State.{
  Txn, Message, OrchestratorError, render, capacity_wait, preparing_capacity, node_readiness_wait,
  waiting_for_node,
}
use devnest.Worker.Mark.{
  mark_job_failed, clear_runtime_capacity_reservation, touch_workspace, set_workspace_error,
  mark_node_not_ready_for_retry, node_readiness_retry_allowed, is_node_readiness_error,
}
use devnest.Worker.Failure.{
  fail_terminally, wait_pending, fail_job_from_placement, fail_job_from_orchestrator_binding,
  handle_orchestrator_exception, wait_for_node, fail_after_exception, sync_after_exception,
  is_snapshot_job, failure_text, may_retry, exception_stage,
}
use devnest.Worker.Finalize.{
  resolve_orchestrator_result_failure, finalize_job_failed_workspace_error,
}
use devnest.Worker.Queue.{is_lifecycle}
use devnest.Worker.Runtime.{sync_runtime_after_bringup_exception}

-- No capacity is reserved.
abbrev pub Released : Option WorkspaceRuntime → Type 0
Released none = Unit
Released (some rt) = (rt.reserved_cpu ≡ 0) × (rt.reserved_memory_mb ≡ 0) × (rt.reserved_disk_mb ≡ 0)

-- Where a job that succeeds leaves its workspace, and what of the runtime.
abbrev pub Reached : WorkspaceJobType → WorkspaceStatus → Option WorkspaceRuntime → Type 0
Reached WorkspaceJobType.stop w rt = (w ≡ WorkspaceStatus.stopped) × Released rt
Reached WorkspaceJobType.delete w rt = (w ≡ WorkspaceStatus.deleted) × (rt ≡ none)
Reached WorkspaceJobType.update w rt =
    (w ≡ WorkspaceStatus.running) ⊎ ((w ≡ WorkspaceStatus.stopped) × Released rt)
Reached _ w rt = w ≡ WorkspaceStatus.running

-- How a job ends: it waits in the queue and its workspace stays busy, it has succeeded, or it has
-- failed and its workspace is in ERROR with nothing reserved.
abbrev pub Ends :
    WorkspaceJobType → WorkspaceJobStatus → WorkspaceStatus → Option WorkspaceRuntime → Type 0
Ends jt WorkspaceJobStatus.queued w rt = is_busy w ≡ true
Ends jt WorkspaceJobStatus.succeeded w rt = Reached jt w rt
Ends jt WorkspaceJobStatus.failed w rt = (w ≡ WorkspaceStatus.error) × Released rt
Ends jt WorkspaceJobStatus.running w rt = ⊥
Ends jt WorkspaceJobStatus.cancelled w rt = ⊥

unfoldable pub EndsIn : WorkspaceJobType → Txn → Type 0
EndsIn jt t = Ends jt t.job.status t.ws.status t.runtime

pub clear-Released :
    (now : ℕ) (rt : Option WorkspaceRuntime) → Released (clear_runtime_capacity_reservation now rt)
unfolding clear_runtime_capacity_reservation
clear-Released now none = tt
clear-Released now (some rt) = ground arith

retry-queued :
    (env : Env) (job : WorkspaceJob) (m : Text) (s : FailureStage) (c : Option Code)
    {job' : WorkspaceJob}
    → try_schedule_workspace_job_retry env job m s c ≡ some job'
    → job'.status ≡ WorkspaceJobStatus.queued
unfolding try_schedule_workspace_job_retry requeue
retry-queued env job m s c h = ground arith

capacity_retry-queued :
    (env : Env) (job : WorkspaceJob) (m : Text) {job' : WorkspaceJob}
    → try_schedule_capacity_retry env job m ≡ some job'
    → job'.status ≡ WorkspaceJobStatus.queued
unfolding try_schedule_capacity_retry requeue
capacity_retry-queued env job m h = ground arith

readiness_retry-queued :
    (env : Env) (job : WorkspaceJob) (m : Text) {job' : WorkspaceJob}
    → try_schedule_node_readiness_retry env job m ≡ some job'
    → job'.status ≡ WorkspaceJobStatus.queued
unfolding try_schedule_node_readiness_retry requeue
readiness_retry-queued env job m h = ground arith

fail_terminally-EndsIn :
    (jt : WorkspaceJobType) (now : ℕ) (m : Text) (s : FailureStage) (c d : Code) (t : Txn)
    → EndsIn jt (fail_terminally now m s c d t)
unfolding EndsIn fail_terminally mark_job_failed set_workspace_error
fail_terminally-EndsIn jt now m s c d t = (refl, clear-Released now t.runtime)

pub finalize_failed-EndsIn :
    (jt : WorkspaceJobType) (now : ℕ) (m : Text) (s : FailureStage) (t : Txn)
    → EndsIn jt (finalize_job_failed_workspace_error now m s t)
unfolding EndsIn finalize_job_failed_workspace_error mark_job_failed set_workspace_error
finalize_failed-EndsIn jt now m s t = (refl, clear-Released now t.runtime)

queued-Ends :
    (jt : WorkspaceJobType) (s : WorkspaceJobStatus) (w : WorkspaceStatus)
    (rt : Option WorkspaceRuntime)
    → s ≡ WorkspaceJobStatus.queued
    → is_busy w ≡ true
    → Ends jt s w rt
queued-Ends jt s w rt h b = rw h b

-- The job is back in the queue, and its workspace is only touched.
pub requeued-EndsIn :
    (jt : WorkspaceJobType) (now : ℕ) (j : WorkspaceJob) (t : Txn)
    → j.status ≡ WorkspaceJobStatus.queued
    → is_busy t.ws.status ≡ true
    → EndsIn jt (record t { job = j; ws = touch_workspace now t.ws })
unfolding EndsIn touch_workspace
requeued-EndsIn jt now j t h b = queued-Ends jt j.status t.ws.status t.runtime h b

-- The branches of a try to schedule the job again.
retry_cases :
    (jt : WorkspaceJobType) (o : Option WorkspaceJob) (f : WorkspaceJob → Txn) (g : Txn)
    → ((j : WorkspaceJob) → o ≡ some j → EndsIn jt (f j))
    → EndsIn jt g
    → EndsIn jt (elim o [ some j ↦ f j | none ↦ g ])
retry_cases jt none f g hf hg = hg
retry_cases jt (some j) f g hf hg = hf j refl

pub resolve-EndsIn :
    (jt : WorkspaceJobType) (env : Env) (m : Text) (s : FailureStage) (r : Bool) (t : Txn)
    → is_busy t.ws.status ≡ true
    → EndsIn jt (resolve_orchestrator_result_failure env m s r t)
unfolding resolve_orchestrator_result_failure
resolve-EndsIn jt env m s false t b = finalize_failed-EndsIn jt env.now m s t
resolve-EndsIn jt env m s true t b =
    retry_cases jt (try_schedule_workspace_job_retry env t.job m s (some (Code.stage s))) _ _
      (λ j e. requeued-EndsIn jt env.now j t (retry-queued env t.job m s _ e) b)
      (finalize_failed-EndsIn jt env.now m s t)

wait_pending-EndsIn :
    (jt : WorkspaceJobType) (now : ℕ) (job' : WorkspaceJob) (m r : Message) (t : Txn)
    → job'.status ≡ WorkspaceJobStatus.queued
    → EndsIn jt (wait_pending now job' m r t)
unfolding EndsIn wait_pending touch_workspace
wait_pending-EndsIn jt now job' m r t h = queued-Ends jt job'.status _ t.runtime h refl

pub placement-EndsIn :
    (jt : WorkspaceJobType) (env : Env) (e : PlacementError) (t : Txn)
    → is_busy t.ws.status ≡ true
    → EndsIn jt (fail_job_from_placement env e t)
unfolding fail_job_from_placement
placement-EndsIn jt env (no_schedulable_node m) t b =
    retry_cases jt (try_schedule_capacity_retry env t.job (render capacity_wait)) _ _
      (λ j e.
        wait_pending-EndsIn jt env.now j capacity_wait preparing_capacity t
          (capacity_retry-queued env t.job _ e))
      (fail_terminally-EndsIn jt env.now _ _ _ _ t)
placement-EndsIn jt env (other_placement_error m) t b =
    retry_cases jt
      (try_schedule_workspace_job_retry env t.job m FailureStage.placement (some Code.placement)) _
      _ (λ j e. requeued-EndsIn jt env.now j t (retry-queued env t.job _ _ _ e) b)
      (fail_terminally-EndsIn jt env.now _ _ _ _ t)

wait_for_node-EndsIn :
    (jt : WorkspaceJobType) (env : Env) (key : Option Text) (m : Text) (c : Code) (t : Txn)
    → EndsIn jt (wait_for_node env key m c t)
unfolding wait_for_node
wait_for_node-EndsIn jt env key m c t =
    let t1 = record t { nodes = mark_node_not_ready_for_retry env.now key m t.nodes } in
    retry_cases jt (try_schedule_node_readiness_retry env t.job (render node_readiness_wait)) _ _
      (λ j e.
        wait_pending-EndsIn jt env.now j node_readiness_wait waiting_for_node t1
          (readiness_retry-queued env t.job _ e))
      (fail_terminally-EndsIn jt env.now _ _ _ _ t1)

pub if_cases :
    (jt : WorkspaceJobType) (b : Bool) (t u : Txn)
    → EndsIn jt t
    → EndsIn jt u
    → EndsIn jt (if b then t else u)
if_cases jt true t u ht hu = ht
if_cases jt false t u ht hu = hu

pub binding-EndsIn :
    (jt : WorkspaceJobType) (env : Env) (m : Text) (t : Txn)
    → is_busy t.ws.status ≡ true
    → EndsIn jt (fail_job_from_orchestrator_binding env m t)
unfolding fail_job_from_orchestrator_binding
binding-EndsIn jt env m t b =
    if_cases jt (node_readiness_retry_allowed t.job.job_type && is_node_readiness_error m) _ _
      (wait_for_node-EndsIn jt env (env.node_key_from_error_message m) m
        Code.orchestrator_binding_failed t)
      (retry_cases jt
        (try_schedule_workspace_job_retry env t.job m FailureStage.network
          (some Code.orchestrator_binding))
        _ _ (λ j e. requeued-EndsIn jt env.now j t (retry-queued env t.job m _ _ e) b)
        (fail_terminally-EndsIn jt env.now m FailureStage.network Code.orchestrator_binding
          Code.orchestrator_binding_failed t))

-- The runtime's row may change after an exception, and the job and the workspace do not.
pub sync_exception_same :
    (now : ℕ) (e : OrchestratorError) (t : Txn)
    → ((sync_after_exception now e t).job ≡ t.job) × ((sync_after_exception now e t).ws ≡ t.ws)
unfolding sync_after_exception sync_runtime_after_bringup_exception
sync_exception_same now e t = ground arith

lifecycle_no_snapshot :
    (jt : WorkspaceJobType) → is_lifecycle jt ≡ true → is_snapshot_job jt ≡ false
lifecycle_no_snapshot jt h = ground arith

fail_after_exception-EndsIn :
    (jt : WorkspaceJobType) (env : Env) (m : Text) (s : FailureStage) (t : Txn)
    → is_lifecycle t.job.job_type ≡ true
    → EndsIn jt (fail_after_exception env m s t)
unfolding fail_after_exception
fail_after_exception-EndsIn jt env m s t h =
    rw (lifecycle_no_snapshot t.job.job_type h, fail_after_exception)
      (fail_terminally-EndsIn jt env.now m s _ _ t)

pub exception-EndsIn :
    (jt : WorkspaceJobType) (env : Env) (n : Option Text) (e : OrchestratorError) (t : Txn)
    → is_lifecycle t.job.job_type ≡ true
    → is_busy t.ws.status ≡ true
    → EndsIn jt (handle_orchestrator_exception env n e t)
unfolding handle_orchestrator_exception
exception-EndsIn jt env n e t h b =
    let t1 = sync_after_exception env.now e t in
    let m = failure_text e in
    let same = sync_exception_same env.now e t in
    let lifecycle : is_lifecycle t1.job.job_type ≡ true = rw same.0 h in
    let busy : is_busy t1.ws.status ≡ true = rw same.1 b in
    if_cases jt (node_readiness_retry_allowed t.job.job_type && is_node_readiness_error m) _ _
      (wait_for_node-EndsIn jt env n m Code.orchestrator_exception t1)
      (if_cases jt (may_retry e t.job.job_type) _ _
        (retry_cases jt
          (try_schedule_workspace_job_retry env t1.job m (exception_stage t.job.job_type)
            (some Code.orchestrator_exception))
          _ _ (λ j q. requeued-EndsIn jt env.now j t1 (retry-queued env t1.job m _ _ q) busy)
          (fail_after_exception-EndsIn jt env m (exception_stage t.job.job_type) t1 lifecycle))
        (fail_after_exception-EndsIn jt env m (exception_stage t.job.job_type) t1 lifecycle))
