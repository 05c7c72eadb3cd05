-- ===== src/Orchestrator/StartKept.antt =====
-- What the steps of `bring_up_workspace_runtime` of
-- backend/app/services/orchestrator_service/service.py keep, whichever way they end.
use devnest.Base.{
  Bool, true, false, ◌||◌, List, [], ◌∷◌, ◌++◌, if◌then◌else◌, Text, text, is_empty, strip,
  Bool-cases, inl, inr,
}
use devnest.Orchestrator.Adapters.{
  topology_error, adapter_error, container_not_found, os_error, Outcome, gives, throws, M,
}
use devnest.Orchestrator.Stop.{Service}
use devnest.Orchestrator.Context.{BringUpContext, AppliedPolicy, merged_env, code_server_env}
use devnest.Orchestrator.BringUp.{
  verify_paths, verify_answer, verify_host, is_remote_host, finalize_host, adapter_answer,
  started_with, bring_up_start_container,
}
use devnest.Orchestrator.Kept.{Ends, Ends-of, AdaptersKeep, follow-Kept}

module _ {W : Type 0} (Inv : W → Type 0) (self : Service W) (k : AdaptersKeep Inv self) where
  pub if-Kept :
      {A : Type 0} (b : Bool) (m n : M W A) (w : W)
      → Ends Inv (m w)
      → Ends Inv (n w)
      → Ends Inv ((if b then m else n) w)
  if-Kept true m n w i j = i
  if-Kept false m n w i j = j

  pub test-Kept :
      {A : Type 0} (b : Bool) (x y : Outcome A × W)
      → Ends Inv x
      → Ends Inv y
      → Ends Inv (if b then x else y)
  test-Kept true x y i j = i
  test-Kept false x y i j = j

  verify_answer-Kept : (x : Outcome (Unit {0}) × W) → Ends Inv x → Ends Inv (verify_answer self x)
  verify_answer-Kept (throws (os_error e), w) i = i
  verify_answer-Kept (throws (topology_error e), w) i = i
  verify_answer-Kept (throws e, w) i = i
  verify_answer-Kept (gives a, w) i = i

  adapter_answer-Kept :
      {A : Type 0} (p : Text) (x : Outcome A × W) → Ends Inv x → Ends Inv (adapter_answer self p x)
  adapter_answer-Kept p (throws (adapter_error e), w) i = i
  adapter_answer-Kept p (throws (container_not_found e), w) i = i
  adapter_answer-Kept p (throws e, w) i = i
  adapter_answer-Kept p (gives a, w) i = i

  verify_paths-Kept : (ps : List Text) (w : W) → Inv w → Ends Inv (verify_paths self ps w)
  unfolding verify_paths
  verify_paths-Kept [] w i = i
  verify_paths-Kept (p ∷ ps) w i = elim (Bool-cases (is_empty (strip p))) [
    | inl e ↦ rw e (verify_paths-Kept ps w i)
    | inr e ↦ rw e (
        follow-Kept Inv (λ u. verify_paths self ps)
          (verify_answer self (self.workspace_host.verify_writable (strip p) w))
          (verify_answer-Kept _ (k.writable (strip p) w i)) (λ u v j. verify_paths-Kept ps v j))
  ]

  verify_host-Kept :
      (ctx : BringUpContext) (mounts : List Text) (w : W)
      → Inv w
      → Ends Inv (verify_host self ctx mounts w)
  verify_host-Kept ctx mounts w i = elim (Bool-cases (is_remote_host self)) [
    | inl e ↦ rw e i
    | inr e ↦ rw e (verify_paths-Kept (mounts ++ ctx.workspace_host_path ∷ []) w i)
  ]

  finalize_host-Kept : (ctx : BringUpContext) (w : W) → Inv w → Ends Inv (finalize_host self ctx w)
  finalize_host-Kept ctx w i =
      elim (Bool-cases (is_remote_host self || is_empty (strip ctx.workspace_host_path))) [
        | inl e ↦ rw e i
        | inr e ↦ rw e (k.ownership (strip ctx.workspace_host_path) w i)
      ]

  started_with-Kept :
      (ctx : BringUpContext) (policy : AppliedPolicy) (env : List (Text × Text))
      (mounts : List Text) (w : W)
      → Inv w
      → Ends Inv (started_with self ctx policy env mounts w)
  started_with-Kept ctx policy env mounts w i =
      adapter_answer-Kept (text "runtime bring-up failed: ") _ (
        follow-Kept Inv _ (finalize_host self ctx w) (finalize_host-Kept ctx w i)
          (λ u v j. k.ensure_running _ v j))

  pub bring_up_start_container-Kept :
      (ctx : BringUpContext) (policy : AppliedPolicy) (env : List (Text × Text)) (w : W)
      → Inv w
      → Ends Inv (bring_up_start_container self ctx policy env w)
  unfolding bring_up_start_container
  bring_up_start_container-Kept ctx policy env w i =
      let settled =
        merged_env (code_server_env self.settings (text "8080") ctx.wid self.node_id) env in
      follow-Kept Inv _ (settled, w) (Ends-of Inv (settled, w) i)
        (λ (s : Text × List (Text × Text)) v j.
          follow-Kept Inv _
            (self.workspace_host.code_server_extra_bind_mounts ctx.wid ctx.workspace_host_path s.0
              v)
            (k.mounts ctx.wid ctx.workspace_host_path s.0 v j)
            (λ mounts v1 j1.
              follow-Kept Inv _ (verify_host self ctx mounts v1) (verify_host-Kept ctx mounts v1 j1)
                (λ u v2 j2. started_with-Kept ctx policy s.1 mounts v2 j2)))
