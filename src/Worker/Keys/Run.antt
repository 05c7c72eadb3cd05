-- ===== src/Worker/Keys/Run.antt =====
-- The keys of the rows through the whole execution of a job (worker.py).
use devnest.Base.{ℕ, ◌≡◌, refl, true, Option, none, some, arith, Text, ◌&&◌, not, is_some, ◌∙◌}
use devnest.Model.Enums.{WorkspaceJobType, FailureStage, Code}
use devnest.Model.Logs.{WorkspaceStreamEventType}
use devnest.Model.Env.{Env}
use devnest.Worker.State.{
  Txn, Body, done, failed, unsupported, Answer, returned, raised, OrchestratorService,
}
use devnest.Worker.Mark.{
  mark_job_failed, set_workspace_error, touch_workspace, workspace_set_error,
  begin_create_bringup_after_placement,
}
use devnest.Worker.Failure.{handle_unsupported_job_type}
use devnest.Worker.Queue.{is_lifecycle}
use mathlib.Core.Bool.{false≢true}
use devnest.Worker.Finalize.{finalize_bringup_result}
use devnest.Worker.Process.{
  Binding, bound, placement_failed, binding_failed, process_claimed, process_claimed_running_job,
  execute_job_body, dispatch, bring_up, settle, emit_job_outcome_event, record_event, bind_and_run,
  is_delete, answer,
}
use devnest.Worker.Keys.{
  keys, rows_of, keys-bring_up, keys-stop, keys-delete, keys-restart, keys-update,
  keys-delete_missing,
}
use devnest.Worker.Keys.Errors.{
  keys_if, keys-fail_terminally, keys-placement, keys-binding, keys-exception,
}

answer_case :
    {A : Type 0} (a : Answer A) (f : A → Txn → Body) (t : Txn)
    → ((r : A) → keys (rows_of (f r t)) ≡ keys t)
    → keys (rows_of (answer a f t)) ≡ keys t
unfolding answer
answer_case (returned r) f t h = h r
answer_case (raised e) f t h = refl

keys-limits :
    (now : ℕ) (m : Text) (c : Code) (d : Code) (s : FailureStage) (t : Txn)
    → keys
        (record t { job = mark_job_failed now t.job m s c; ws = set_workspace_error now t.ws d m })
      ≡ keys t
unfolding keys mark_job_failed set_workspace_error workspace_set_error touch_workspace
keys-limits now m c d s t = refl

keys-bring_up_job :
    (env : Env) (o : OrchestratorService) (t : Txn) → keys (rows_of (bring_up env o t)) ≡ keys t
unfolding bring_up
keys-bring_up_job env o t = by_limits (o.limits_error)
  where
    by_limits :
        (l : Option Text)
        → keys (
            rows_of (elim l [
              | some msg ↦ done (record t {
                job =
                    mark_job_failed env.now t.job msg FailureStage.unknown
                      Code.invalid_runtime_limits;
                ws = set_workspace_error env.now t.ws Code.invalid_runtime_limits msg;
              })
              | none ↦
                  answer o.bring_up_workspace_runtime
                    (finalize_bringup_result env t.job.requested_config_version)
                    t
            ]))
          ≡ keys t
    by_limits (some msg) = keys-limits env.now msg _ _ _ t
    by_limits none =
        answer_case o.bring_up_workspace_runtime _ t
          (λ r. keys-bring_up env t.job.requested_config_version r t)

keys-dispatch :
    (env : Env) (o : OrchestratorService) (other : Txn → Body) (jt : WorkspaceJobType) (t : Txn)
    → is_lifecycle jt ≡ true
    → keys (rows_of (dispatch env o other jt t)) ≡ keys t
unfolding dispatch
keys-dispatch env o other WorkspaceJobType.create t l = keys-bring_up_job env o t
keys-dispatch env o other WorkspaceJobType.start t l = keys-bring_up_job env o t
keys-dispatch env o other WorkspaceJobType.stop t l =
    answer_case o.stop_workspace_runtime _ t (λ r. keys-stop env r t)
keys-dispatch env o other WorkspaceJobType.delete t l =
    answer_case o.delete_workspace_runtime _ t (λ r. keys-delete env r t)
keys-dispatch env o other WorkspaceJobType.restart t l =
    answer_case o.restart_workspace_runtime _ t
      (λ r. keys-restart env t.job.requested_config_version r t)
keys-dispatch env o other WorkspaceJobType.update t l =
    answer_case o.update_workspace_runtime _ t (λ r. keys-update env r t)
keys-dispatch env o other WorkspaceJobType.reconcile_runtime t l = absurd (false≢true l)
keys-dispatch env o other WorkspaceJobType.snapshot_create t l = absurd (false≢true l)
keys-dispatch env o other WorkspaceJobType.snapshot_restore t l = absurd (false≢true l)
keys-dispatch env o other WorkspaceJobType.repo_import t l = absurd (false≢true l)
keys-dispatch env o other WorkspaceJobType.unsupported t l = absurd (false≢true l)

keys-unsupported : (env : Env) (t : Txn) → keys (handle_unsupported_job_type env t) ≡ keys t
unfolding handle_unsupported_job_type
keys-unsupported env t = keys-fail_terminally env.now _ _ _ _ t

keys-settle :
    (env : Env) (o : OrchestratorService) (x : Body) → keys (settle env o x) ≡ keys (rows_of x)
unfolding settle
keys-settle env o (done t) = refl
keys-settle env o (failed e t) = keys-exception env o.node_id e t
keys-settle env o (unsupported t) = keys-unsupported env t

keys-record_event : (x : WorkspaceStreamEventType) (t : Txn) → keys (record_event x t) ≡ keys t
unfolding keys record_event
keys-record_event x t = refl

keys-emit : (env : Env) (t : Txn) → keys (emit_job_outcome_event env t) ≡ keys t
unfolding keys emit_job_outcome_event
keys-emit env t = ground arith

keys-run :
    (env : Env) (o : OrchestratorService) (other : Txn → Body) (t : Txn)
    → is_lifecycle t.job.job_type ≡ true
    → keys (process_claimed_running_job env o other t) ≡ keys t
unfolding process_claimed_running_job execute_job_body
keys-run env o other t l =
    let t1 = record_event WorkspaceStreamEventType.job_running t in
    keys-emit env _
    ∙ keys-settle env o (dispatch env o other t1.job.job_type t1)
    ∙ keys-dispatch env o other t1.job.job_type t1 (event_lifecycle t l)
    ∙ keys-record_event WorkspaceStreamEventType.job_running t
  where
    event_lifecycle :
        (t : Txn)
        → is_lifecycle t.job.job_type ≡ true
        → is_lifecycle (record_event WorkspaceStreamEventType.job_running t).job.job_type ≡ true
    event_lifecycle t l = l

keys-begin : (now : ℕ) (t : Txn) → keys (begin_create_bringup_after_placement now t) ≡ keys t
unfolding keys begin_create_bringup_after_placement
keys-begin now t = ground arith

-- The execution of a lifecycle job ends with the rows that it started with.
pub keys-process_claimed :
    (env : Env) (x : Binding) (other : Txn → Body) (t : Txn)
    → is_lifecycle t.job.job_type ≡ true
    → keys (process_claimed env x other t) ≡ keys t
unfolding process_claimed bind_and_run begin_create_bringup_after_placement
keys-process_claimed env x other t l =
    keys_if (is_delete t.job.job_type && not (is_some t.runtime)) _ _ t
      (keys-emit env _ ∙ keys-delete_missing env t) (by_binding x)
  where
    by_binding : (x : Binding) → keys (bind_and_run env x other t) ≡ keys t
    by_binding (bound o) =
        keys-run env o other (begin_create_bringup_after_placement env.now t) l
        ∙ keys-begin env.now t
    by_binding (placement_failed e) = keys-emit env _ ∙ keys-placement env e t
    by_binding (binding_failed m) = keys-emit env _ ∙ keys-binding env m t
