-- ===== src/Worker/Lifecycle.antt =====
-- The whole execution of a claimed lifecycle job: how it ends for every answer of the placement and
-- of the orchestrator, and which sessions are left.
use devnest.Base.{
  ℕ, ◌≡◌, refl, inl, inr, true, Option, none, arith, ◌∙◌, sym, ap, ◌&&◌, not, is_some, Bool-cases,
}
use devnest.Model.Enums.{WorkspaceJobType, is_busy}
use devnest.Model.Rows.{WorkspaceRuntime}
use devnest.Model.Logs.{WorkspaceStreamEventType}
use mathlib.Core.Path.{subst}
use devnest.Worker.Finalize.{finalize_delete_runtime_missing_idempotent}
use devnest.Model.Env.{Env}
use devnest.Worker.State.{Txn, Body, done, failed, unsupported, OrchestratorService}
use devnest.Worker.Mark.{begin_create_bringup_after_placement}
use devnest.Worker.Process.{
  Binding, bound, placement_failed, binding_failed, process_claimed, process_claimed_running_job,
  emit_job_outcome_event, record_event, execute_job_body, settle, bind_and_run, is_delete,
}
use devnest.Worker.Queue.{is_lifecycle}
use devnest.Worker.Outcome.{EndsIn, placement-EndsIn, binding-EndsIn, exception-EndsIn}
use devnest.Worker.Finish.{BodyEnds, by_rows, dispatch-BodyEnds, delete_missing-EndsIn}

-- The limits that the workspace's configuration sets are readable.
abbrev pub LimitsOk : Binding → Type 0
LimitsOk (bound o) = o.limits_error ≡ none
LimitsOk (placement_failed e) = Unit
LimitsOk (binding_failed m) = Unit

pub emit_same :
    (env : Env) (t : Txn)
    → ((emit_job_outcome_event env t).job ≡ t.job)
      × ((emit_job_outcome_event env t).runtime ≡ t.runtime)
      × ((emit_job_outcome_event env t).ws.status ≡ t.ws.status)
unfolding emit_job_outcome_event
emit_same env t = ground arith

emitted-EndsIn :
    (jt : WorkspaceJobType) (env : Env) (t : Txn)
    → EndsIn jt t
    → EndsIn jt (emit_job_outcome_event env t)
emitted-EndsIn jt env t h = by_rows jt t (emit_job_outcome_event env t) (emit_same env t) h

settle-EndsIn :
    (jt : WorkspaceJobType) (env : Env) (o : OrchestratorService) (x : Body)
    → is_lifecycle jt ≡ true
    → BodyEnds jt x
    → EndsIn jt (settle env o x)
unfolding settle
settle-EndsIn jt env o (done t) l h = h
settle-EndsIn jt env o (failed e t) l h =
    exception-EndsIn jt env o.node_id e t (ap is_lifecycle h.0 ∙ l) h.1
settle-EndsIn jt env o (unsupported t) l h = absurd h

run-EndsIn :
    (env : Env) (o : OrchestratorService) (other : Txn → Body) (t : Txn)
    → is_lifecycle t.job.job_type ≡ true
    → is_busy t.ws.status ≡ true
    → o.limits_error ≡ none
    → EndsIn t.job.job_type (process_claimed_running_job env o other t)
unfolding process_claimed_running_job execute_job_body record_event
run-EndsIn env o other t l b h =
    let t1 = record_event WorkspaceStreamEventType.job_running t in
    emitted-EndsIn t.job.job_type env _ (
      settle-EndsIn t.job.job_type env o _ l
        (dispatch-BodyEnds t.job.job_type env o other t1 l h refl b))

begin_create_same :
    (now : ℕ) (t : Txn)
    → is_busy t.ws.status ≡ true
    → ((begin_create_bringup_after_placement now t).job ≡ t.job)
      × (is_busy (begin_create_bringup_after_placement now t).ws.status ≡ true)
unfolding begin_create_bringup_after_placement
begin_create_same now t b = ground arith

bind_and_run-EndsIn :
    (env : Env) (x : Binding) (other : Txn → Body) (t : Txn)
    → is_lifecycle t.job.job_type ≡ true
    → is_busy t.ws.status ≡ true
    → LimitsOk x
    → EndsIn t.job.job_type (bind_and_run env x other t)
unfolding bind_and_run begin_create_bringup_after_placement
bind_and_run-EndsIn env (bound o) other t l b h =
    let t1 = begin_create_bringup_after_placement env.now t in
    let same = begin_create_same env.now t b in run-EndsIn env o other t1 l same.1 h
bind_and_run-EndsIn env (placement_failed e) other t l b h =
    emitted-EndsIn t.job.job_type env _ (placement-EndsIn t.job.job_type env e t b)
bind_and_run-EndsIn env (binding_failed m) other t l b h =
    emitted-EndsIn t.job.job_type env _ (binding-EndsIn t.job.job_type env m t b)

missing_runtime :
    (jt : WorkspaceJobType) (rt : Option WorkspaceRuntime)
    → is_delete jt && not (is_some rt) ≡ true
    → (jt ≡ WorkspaceJobType.delete) × (rt ≡ none)
missing_runtime jt rt h = ground arith

-- A claimed lifecycle job of a busy workspace never stays RUNNING. It waits in the queue again and
-- the workspace stays busy; or it has succeeded and the workspace has the status that the job was
-- to reach, with no runtime row after a DELETE and nothing reserved after a STOP or where an
-- UPDATE settles to STOPPED; or it has failed, the workspace is in ERROR, and nothing is reserved.
-- This holds for every answer of the placement and of the orchestrator, where the configured
-- limits can be read.
pub process_claimed-EndsIn :
    (env : Env) (x : Binding) (other : Txn → Body) (t : Txn)
    → is_lifecycle t.job.job_type ≡ true
    → is_busy t.ws.status ≡ true
    → LimitsOk x
    → EndsIn t.job.job_type (process_claimed env x other t)
unfolding process_claimed
process_claimed-EndsIn env x other t l b h =
    elim (Bool-cases (is_delete t.job.job_type && not (is_some t.runtime))) [
      | inl e ↦
          (let gone = missing_runtime t.job.job_type t.runtime e in
            let t' = finalize_delete_runtime_missing_idempotent env t in
            rw (e, process_claimed)
              (subst (λ jt. EndsIn jt (emit_job_outcome_event env t')) (sym gone.0)
                (emitted-EndsIn WorkspaceJobType.delete env t'
                  (delete_missing-EndsIn env t gone.1))))
      | inr e ↦ rw (e, process_claimed) (bind_and_run-EndsIn env x other t l b h)
    ]
