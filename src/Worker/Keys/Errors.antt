-- ===== src/Worker/Keys/Errors.antt =====
-- The keys of the rows through the error paths of a job (worker.py).
use devnest.Base.{
  ℕ, ◌≡◌, refl, Bool, true, false, Option, none, some, arith, Text, if◌then◌else◌, ◌&&◌, ◌∙◌, ap,
  List,
}
use devnest.Model.Enums.{WorkspaceJobType, FailureStage, Code}
use devnest.Model.Rows.{WorkspaceJob, ExecutionNode}
use devnest.Model.Env.{Env}
use devnest.Retry.{
  PlacementError, no_schedulable_node, other_placement_error, try_schedule_workspace_job_retry,
  try_schedule_capacity_retry, try_schedule_node_readiness_retry, requeue,
}
use devnest.Worker.State.{
  Txn, OrchestratorError, Message, render, capacity_wait, preparing_capacity, node_readiness_wait,
  waiting_for_node,
}
use devnest.Worker.Mark.{
  mark_job_failed, set_workspace_error, touch_workspace, workspace_set_error,
  mark_node_not_ready_for_retry, node_readiness_retry_allowed, is_node_readiness_error,
}
use devnest.Worker.Failure.{
  fail_terminally, wait_pending, fail_job_from_placement, fail_job_from_orchestrator_binding,
  handle_orchestrator_exception, wait_for_node, fail_after_exception, sync_after_exception,
  is_snapshot_job, failure_text, may_retry, exception_stage,
}
use devnest.Worker.Outcome.{sync_exception_same}
use devnest.Worker.Keys.{keys}

abbrev job_keys : WorkspaceJob → ℕ × ℕ × WorkspaceJobType
job_keys j = (j.workspace_job_id, j.workspace_id, j.job_type)

retry-job_keys :
    (env : Env) (job : WorkspaceJob) (m : Text) (s : FailureStage) (c : Option Code)
    {j : WorkspaceJob}
    → try_schedule_workspace_job_retry env job m s c ≡ some j
    → job_keys j ≡ job_keys job
unfolding try_schedule_workspace_job_retry requeue
retry-job_keys env job m s c h = ground arith

capacity_retry-job_keys :
    (env : Env) (job : WorkspaceJob) (m : Text) {j : WorkspaceJob}
    → try_schedule_capacity_retry env job m ≡ some j
    → job_keys j ≡ job_keys job
unfolding try_schedule_capacity_retry requeue
capacity_retry-job_keys env job m h = ground arith

readiness_retry-job_keys :
    (env : Env) (job : WorkspaceJob) (m : Text) {j : WorkspaceJob}
    → try_schedule_node_readiness_retry env job m ≡ some j
    → job_keys j ≡ job_keys job
unfolding try_schedule_node_readiness_retry requeue
readiness_retry-job_keys env job m h = ground arith

pub keys_if :
    (b : Bool) (t u v : Txn)
    → keys t ≡ keys v
    → keys u ≡ keys v
    → keys (if b then t else u) ≡ keys v
keys_if true t u v ht hu = ht
keys_if false t u v ht hu = hu

keys_retry :
    (o : Option WorkspaceJob) (f : WorkspaceJob → Txn) (d v : Txn)
    → ((j : WorkspaceJob) → o ≡ some j → keys (f j) ≡ keys v)
    → keys d ≡ keys v
    → keys (elim o [ some j ↦ f j | none ↦ d ]) ≡ keys v
keys_retry none f d v hf hd = hd
keys_retry (some j) f d v hf hd = hf j refl

pub keys-fail_terminally :
    (now : ℕ) (m : Text) (s : FailureStage) (c d : Code) (t : Txn)
    → keys (fail_terminally now m s c d t) ≡ keys t
unfolding keys fail_terminally mark_job_failed set_workspace_error workspace_set_error
    touch_workspace
keys-fail_terminally now m s c d t = refl

keys-wait_pending :
    (now : ℕ) (j : WorkspaceJob) (m r : Message) (t : Txn)
    → job_keys j ≡ job_keys t.job
    → keys (wait_pending now j m r t) ≡ keys t
unfolding keys wait_pending touch_workspace
keys-wait_pending now j m r t h = ap (λ k. (k.0, k.1, k.2, t.ws.workspace_id)) h

keys-requeued :
    (now : ℕ) (j : WorkspaceJob) (t : Txn)
    → job_keys j ≡ job_keys t.job
    → keys (record t { job = j; ws = touch_workspace now t.ws }) ≡ keys t
unfolding keys touch_workspace
keys-requeued now j t h = ap (λ k. (k.0, k.1, k.2, t.ws.workspace_id)) h

keys-nodes : (t : Txn) (nodes : List ExecutionNode) → keys (record t { nodes = nodes }) ≡ keys t
unfolding keys
keys-nodes t nodes = refl

pub keys-placement :
    (env : Env) (e : PlacementError) (t : Txn) → keys (fail_job_from_placement env e t) ≡ keys t
unfolding fail_job_from_placement
keys-placement env (no_schedulable_node m) t =
    keys_retry (try_schedule_capacity_retry env t.job (render capacity_wait)) _ _ t
      (λ j e.
        keys-wait_pending env.now j capacity_wait preparing_capacity t
          (capacity_retry-job_keys env t.job _ e))
      (keys-fail_terminally env.now _ _ _ _ t)
keys-placement env (other_placement_error m) t =
    keys_retry
      (try_schedule_workspace_job_retry env t.job m FailureStage.placement (some Code.placement)) _
      _ t (λ j e. keys-requeued env.now j t (retry-job_keys env t.job _ _ _ e))
      (keys-fail_terminally env.now _ _ _ _ t)

keys-wait_for_node :
    (env : Env) (key : Option Text) (m : Text) (c : Code) (t : Txn)
    → keys (wait_for_node env key m c t) ≡ keys t
unfolding wait_for_node
keys-wait_for_node env key m c t =
    let t1 = record t { nodes = mark_node_not_ready_for_retry env.now key m t.nodes } in
    keys_retry (try_schedule_node_readiness_retry env t.job (render node_readiness_wait)) _ _ t1
      (λ j e.
        keys-wait_pending env.now j node_readiness_wait waiting_for_node t1
          (readiness_retry-job_keys env t.job _ e))
      (keys-fail_terminally env.now _ _ _ _ t1)
    ∙ keys-nodes t _

pub keys-binding :
    (env : Env) (m : Text) (t : Txn) → keys (fail_job_from_orchestrator_binding env m t) ≡ keys t
unfolding fail_job_from_orchestrator_binding
keys-binding env m t =
    keys_if (node_readiness_retry_allowed t.job.job_type && is_node_readiness_error m) _ _ t
      (keys-wait_for_node env (env.node_key_from_error_message m) m Code.orchestrator_binding_failed
        t)
      (keys_retry
        (try_schedule_workspace_job_retry env t.job m FailureStage.network
          (some Code.orchestrator_binding))
        _ _ t (λ j e. keys-requeued env.now j t (retry-job_keys env t.job m _ _ e))
        (keys-fail_terminally env.now m FailureStage.network Code.orchestrator_binding
          Code.orchestrator_binding_failed t))

keys-fail_after_exception :
    (env : Env) (m : Text) (s : FailureStage) (t : Txn)
    → keys (fail_after_exception env m s t) ≡ keys t
unfolding keys fail_after_exception fail_terminally mark_job_failed set_workspace_error
    workspace_set_error touch_workspace
keys-fail_after_exception env m s t = keys_if (is_snapshot_job t.job.job_type) _ _ t refl refl

keys-sync :
    (now : ℕ) (e : OrchestratorError) (t : Txn) → keys (sync_after_exception now e t) ≡ keys t
unfolding keys
keys-sync now e t = let same = sync_exception_same now e t in rw (same.0, same.1) refl

pub keys-exception :
    (env : Env) (n : Option Text) (e : OrchestratorError) (t : Txn)
    → keys (handle_orchestrator_exception env n e t) ≡ keys t
unfolding handle_orchestrator_exception
keys-exception env n e t =
    let t1 = sync_after_exception env.now e t in
    let m = failure_text e in
    keys_if (node_readiness_retry_allowed t.job.job_type && is_node_readiness_error m) _ _ t1
      (keys-wait_for_node env n m Code.orchestrator_exception t1)
      (keys_if (may_retry e t.job.job_type) _ _ t1
        (keys_retry
          (try_schedule_workspace_job_retry env t1.job m (exception_stage t.job.job_type)
            (some Code.orchestrator_exception))
          _ _ t1 (λ j q. keys-requeued env.now j t1 (retry-job_keys env t1.job m _ _ q))
          (keys-fail_after_exception env m (exception_stage t.job.job_type) t1))
        (keys-fail_after_exception env m (exception_stage t.job.job_type) t1))
    ∙ keys-sync env.now e t
