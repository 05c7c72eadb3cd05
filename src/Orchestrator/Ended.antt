-- ===== src/Orchestrator/Ended.antt =====
-- How a bring-up of backend/app/services/orchestrator_service/service.py ends, and what it reports of
-- its rollback.
use devnest.Base.{
  ℕ, ◌≡◌, refl, Bool, true, false, Option, none, some, List, if◌then◌else◌, Text, strip, Bool-cases,
  inl, inr,
}
use mathlib.Core.Path.{subst}
use devnest.Worker.State.{WorkspaceBringUpResult}
use devnest.Orchestrator.Adapters.{
  Failure, Outcome, gives, throws, Returns, follow, EnsureRunningRuntimeResult,
}
use devnest.Orchestrator.Stop.{Service}
use devnest.Orchestrator.Context.{
  BringUpContext, AppliedPolicy, bring_up_build_context, resolve_bringup_runtime_limits_triplet,
  bringup_result_with_applied,
}
use devnest.Orchestrator.BringUp.{bring_up_start_container}
use devnest.Orchestrator.Wire.{Wired, bring_up_attach_topology, bring_up_run_probe}
use devnest.Orchestrator.Rollback.{
  RolledBack, bring_up_compensating_rollback, bring_up_failed, bring_up_finished, bring_up_probed,
  bring_up_started, bring_up_workspace_runtime, stripped_id, rolled_error, unhealthy_result,
  failure_text,
}
use devnest.Orchestrator.Kept.{Ends, AdaptersKeep}
use devnest.Orchestrator.Plain.{
  RaisesPlain, AdaptersPlain, bring_up_build_context-RaisesPlain, limits-RaisesPlain,
}
use devnest.Orchestrator.StartKept.{bring_up_start_container-Kept}
use devnest.Orchestrator.WireKept.{bring_up_attach_topology-Kept}
use devnest.Orchestrator.ProbeKept.{
  Probed, Built, bring_up_run_probe-Kept, bring_up_run_probe-Probed, bring_up_build_context-Built,
}
use devnest.Orchestrator.Undone.{
  RolledEnds, Reported, BringUpEnds, reported_plain, rollback-Ends, reported,
}

module _ {W : Type 0} (Inv : W → Type 0) (self : Service W) (k : AdaptersKeep Inv self)
    (plain : AdaptersPlain self) where
  failed-Ends :
      (ctx : BringUpContext) (running : Option EnsureRunningRuntimeResult) (e : Failure) (w : W)
      → Inv w
      → BringUpEnds Inv self ctx.wid (bring_up_failed self ctx running e w)
  unfolding bring_up_failed
  failed-Ends ctx running e w i =
      by_rollback (bring_up_compensating_rollback self ctx.wid (stripped_id running) w)
        (rollback-Ends Inv self k plain ctx.wid (stripped_id running) w i)
    where
      by_rollback :
          (x : Outcome RolledBack × W)
          → RolledEnds Inv self ctx.wid x
          → BringUpEnds Inv self ctx.wid
              (follow (λ rb. λ v. (throws (rolled_error self (failure_text e) running rb), v)) x)
      by_rollback (gives rb, v) h = reported Inv self k plain ctx.wid rb.succeeded v h
      by_rollback (throws f, v) h = reported_plain Inv self ctx.wid f v h

  finished-Ends :
      (ctx : BringUpContext) (running : EnsureRunningRuntimeResult) (r : WorkspaceBringUpResult)
      (w : W)
      → r.rollback_succeeded ≡ none
      → Inv w
      → BringUpEnds Inv self ctx.wid (bring_up_finished self ctx running r w)
  unfolding bring_up_finished
  finished-Ends ctx running r w fresh i = elim (Bool-cases r.success) [
    | inl e ↦ test_true r.success _ _ e (inl e, none_reported r.rollback_succeeded fresh)
    | inr e ↦ test_false r.success _ _ e (
        by_rollback (bring_up_compensating_rollback self ctx.wid (stripped_id (some running)) w)
          (rollback-Ends Inv self k plain ctx.wid (stripped_id (some running)) w i))
  ]
    where
      test_true :
          (b : Bool) (x y : Outcome WorkspaceBringUpResult × W)
          → b ≡ true
          → BringUpEnds Inv self ctx.wid x
          → BringUpEnds Inv self ctx.wid (if b then x else y)
      test_true true x y e h = h
      test_true false x y e h = absurd (cc)

      test_false :
          (b : Bool) (x y : Outcome WorkspaceBringUpResult × W)
          → b ≡ false
          → BringUpEnds Inv self ctx.wid y
          → BringUpEnds Inv self ctx.wid (if b then x else y)
      test_false true x y e h = absurd (cc)
      test_false false x y e h = h

      none_reported : (o : Option Bool) → o ≡ none → Reported Inv self ctx.wid o w
      none_reported none e = tt
      none_reported (some b) e = absurd (cc)

      by_rollback :
          (x : Outcome RolledBack × W)
          → RolledEnds Inv self ctx.wid x
          → BringUpEnds Inv self ctx.wid
              (follow (λ rb v. (gives (unhealthy_result self r rb), v)) x)
      by_rollback (gives rb, v) h = (inr refl, reported Inv self k plain ctx.wid rb.succeeded v h)
      by_rollback (throws f, v) h = reported_plain Inv self ctx.wid f v h

  -- A result that is fresh and an exception are both followed by the rest.
  Probed-Ends :
      (ctx : BringUpContext) (running : EnsureRunningRuntimeResult)
      (x : Outcome WorkspaceBringUpResult × W)
      → Returns (Probed Inv self k) x
      → Ends Inv x
      → BringUpEnds Inv self ctx.wid (bring_up_probed self ctx running x)
  unfolding bring_up_probed
  Probed-Ends ctx running (gives r, w) p i = finished-Ends ctx running r w p.0 p.1
  Probed-Ends ctx running (throws e, w) p i = failed-Ends ctx (some running) e w i

  attached-Probed :
      (ctx : BringUpContext) (running : EnsureRunningRuntimeResult) (x : Outcome Wired × W)
      → Ends Inv x
      → Returns (Probed Inv self k) (follow (bring_up_run_probe self ctx running) x)
        × Ends Inv (follow (bring_up_run_probe self ctx running) x)
  attached-Probed ctx running (gives wired, w) i = (
    bring_up_run_probe-Probed Inv self k ctx running wired w i,
    bring_up_run_probe-Kept Inv self k ctx running wired w i,
  )
  attached-Probed ctx running (throws e, w) i = (tt, i)

  started-Ends :
      (ctx : BringUpContext) (x : Outcome EnsureRunningRuntimeResult × W)
      → Ends Inv x
      → BringUpEnds Inv self ctx.wid (bring_up_started self ctx x)
  unfolding bring_up_started
  started-Ends ctx (throws e, w) i = failed-Ends ctx none e w i
  started-Ends ctx (gives running, w) i =
      let probed =
        attached-Probed ctx running (bring_up_attach_topology self ctx running w)
          (bring_up_attach_topology-Kept Inv self k ctx running w i) in
      Probed-Ends ctx running
        (follow (bring_up_run_probe self ctx running) (bring_up_attach_topology self ctx running w))
        probed.0 probed.1

  applied-Ends :
      (wid : Text) (policy : AppliedPolicy) (x : Outcome WorkspaceBringUpResult × W)
      → BringUpEnds Inv self wid x
      → BringUpEnds Inv self wid
          (follow (λ r v. (gives (bringup_result_with_applied policy r), v)) x)
  unfolding bringup_result_with_applied
  applied-Ends wid policy (gives r, w) h = h
  applied-Ends wid policy (throws e, w) h = h

  limited-Ends :
      (ctx : BringUpContext) (env : List (Text × Text)) (x : Outcome AppliedPolicy) (w : W)
      → RaisesPlain (x, w)
      → Inv w
      → BringUpEnds Inv self ctx.wid (
          follow
            (λ policy u.
              follow
                (λ r v. (gives (bringup_result_with_applied policy r), v))
                (bring_up_started self ctx (bring_up_start_container self ctx policy env u)))
            (x, w))
  limited-Ends ctx env (gives policy) w p i =
      applied-Ends ctx.wid policy
        (bring_up_started self ctx (bring_up_start_container self ctx policy env w))
        (started-Ends ctx (bring_up_start_container self ctx policy env w)
          (bring_up_start_container-Kept Inv self k ctx policy env w i))
  limited-Ends ctx env (throws e) w p i = reported_plain Inv self ctx.wid e w p

  in_context :
      (wid : Text) (cpu mem pids : Option ℕ) (env : List (Text × Text))
      (x : Outcome BringUpContext × W)
      → Returns (Built Inv self k wid) x
      → RaisesPlain x
      → BringUpEnds Inv self wid (
          follow
            (λ ctx v.
              follow
                (λ policy u.
                  follow
                    (λ r y. (gives (bringup_result_with_applied policy r), y))
                    (bring_up_started self ctx (bring_up_start_container self ctx policy env u)))
                (resolve_bringup_runtime_limits_triplet self.settings cpu mem pids, v))
            x)
  in_context wid cpu mem pids env (throws e, w) b p = reported_plain Inv self wid e w p
  in_context wid cpu mem pids env (gives ctx, w) b p =
      subst
        (λ (t : Text). BringUpEnds Inv self t (
          follow
            (λ policy u.
              follow (λ r y. (gives (bringup_result_with_applied policy r), y))
                (bring_up_started self ctx (bring_up_start_container self ctx policy env u)))
            (resolve_bringup_runtime_limits_triplet self.settings cpu mem pids, w)))
        b.0
        (limited-Ends ctx env (resolve_bringup_runtime_limits_triplet self.settings cpu mem pids) w
          (limits-RaisesPlain self.settings cpu mem pids w) b.1)

  -- A bring-up that returns has succeeded or has attempted a rollback. One that reports a
  -- successful rollback, in its result or in its exception, has ended with a stop that succeeded,
  -- was asked to give the address back, and began where the invariant held.
  pub bring_up_workspace_runtime-Ends :
      (workspace_id : Text) (key version : Option Text) (cpu mem pids : Option ℕ)
      (env : List (Text × Text)) (launch_mode : Option Text) (w : W)
      → Inv w
      → BringUpEnds Inv self
          (strip workspace_id)
          (bring_up_workspace_runtime self workspace_id key version cpu mem pids env launch_mode w)
  unfolding bring_up_workspace_runtime
  bring_up_workspace_runtime-Ends workspace_id key version cpu mem pids env launch_mode w i =
      in_context (strip workspace_id) cpu mem pids env
        (bring_up_build_context self workspace_id key version launch_mode w)
        (bring_up_build_context-Built Inv self k workspace_id key version launch_mode w i)
        (bring_up_build_context-RaisesPlain self plain workspace_id key version launch_mode w)
