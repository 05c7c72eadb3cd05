-- ===== src/Orchestrator/ProbeKept.antt =====
-- What the probe of `bring_up_workspace_runtime` of
-- backend/app/services/orchestrator_service/service.py and the building of its context keep.
use devnest.Base.{
  ℕ, zero, suc, ◌≡◌, refl, Bool, true, false, Option, none, some, ◌++◌, if◌then◌else◌, Text, text,
  is_empty, strip, Bool-cases, inl, inr, first, ◌==◌,
}
use devnest.Worker.State.{WorkspaceBringUpResult}
use devnest.Orchestrator.Adapters.{
  value_error, message, Outcome, gives, throws, pure, follow, follow-Returns, Returns, rethrow,
  ◌>>=◌, ProbeResult, EnsureRunningRuntimeResult, WorkspaceHealthResult,
}
use devnest.Orchestrator.Texts.{parse_topology_workspace_id}
use devnest.Orchestrator.Stop.{Service}
use devnest.Orchestrator.Context.{
  BringUpContext, refuse, bring_up_build_context, bundle_answer, launch_mode_of,
}
use devnest.Orchestrator.Wire.{
  Wired, tcp_wait, tcp_wait_at, http_wait, service_http, published, health_result,
  bring_up_run_remote_host_port_probe, bring_up_run_probe,
}
use devnest.Orchestrator.Kept.{Ends, Ends-of, AdaptersKeep, follow-Kept, rethrow-Kept}
use devnest.Orchestrator.StartKept.{if-Kept, test-Kept}

module _ {W : Type 0} (Inv : W → Type 0) (self : Service W) (k : AdaptersKeep Inv self) where
  tcp_wait-Kept : (tries ip : ℕ) (w : W) → Inv w → Ends Inv (tcp_wait self tries ip w)
  unfolding tcp_wait
  tcp_wait-Kept zero ip w i = k.service_reachable ip w i
  tcp_wait-Kept (suc tries) ip w i =
      follow-Kept Inv _ (self.probe_runner.check_service_reachable ip w)
        (k.service_reachable ip w i)
        (λ healthy v j.
          if-Kept Inv self k healthy (pure true) (tcp_wait self tries ip) v j
            (tcp_wait-Kept tries ip v j))

  tcp_wait_at-Kept : (o : Option ℕ) (w : W) → Inv w → Ends Inv (tcp_wait_at self o w)
  tcp_wait_at-Kept none w i = i
  tcp_wait_at-Kept (some ip) w i = tcp_wait-Kept self.settings.ide_polls ip w i

  http_wait-Kept : (tries p : ℕ) (w : W) → Inv w → Ends Inv (http_wait self tries p w)
  unfolding http_wait
  http_wait-Kept zero p w i = k.service_http p w i
  http_wait-Kept (suc tries) p w i =
      follow-Kept Inv _ (self.probe_runner.check_service_http p w) (k.service_http p w i)
        (λ (last : ProbeResult) v j.
          if-Kept Inv self k last.healthy (pure last) (http_wait self tries p) v j
            (http_wait-Kept tries p v j))

  service_http-Kept : (o : Option ℕ) (w : W) → Inv w → Ends Inv (service_http self o w)
  unfolding service_http
  service_http-Kept none w i = i
  service_http-Kept (some p) w i =
      follow-Kept Inv _ (http_wait self self.settings.ide_polls p w)
        (http_wait-Kept self.settings.ide_polls p w i) (λ last v j. j)

  remote_probe-Kept :
      (running : EnsureRunningRuntimeResult) (w : W)
      → Inv w
      → Ends Inv (bring_up_run_remote_host_port_probe self running w)
  unfolding bring_up_run_remote_host_port_probe
  remote_probe-Kept running w i =
      let port = published self (first (λ (p : ℕ × ℕ). p.1 == 8080) running.resolved_ports) in
      follow-Kept Inv _ (self.probe_runner.check_container_running running.container_id w)
        (k.container_running running.container_id w i)
        (λ ctr v j.
          follow-Kept Inv _ (service_http self port v) (service_http-Kept port v j)
            (λ service u h. h))

  pub bring_up_run_probe-Kept :
      (ctx : BringUpContext) (running : EnsureRunningRuntimeResult) (wired : Wired) (w : W)
      → Inv w
      → Ends Inv (bring_up_run_probe self ctx running wired w)
  unfolding bring_up_run_probe
  bring_up_run_probe-Kept ctx running wired w i =
      let probed : Outcome WorkspaceHealthResult × W =
        rethrow (λ e. refuse (text "probe health check failed: " ++ message e))
          ((tcp_wait_at self wired.workspace_ip >>= λ reached.
              self.probe_runner.check_workspace_health ctx.wid running.container_id)
            w) in
      test-Kept Inv self k self.remote_topology_attach_deferred
        (bring_up_run_remote_host_port_probe self running w)
        (follow (λ health. pure (health_result self running wired health)) probed)
        (remote_probe-Kept running w i)
        (follow-Kept Inv _ probed
          (rethrow-Kept Inv _ _ (
            follow-Kept Inv _ (tcp_wait_at self wired.workspace_ip w)
              (tcp_wait_at-Kept wired.workspace_ip w i)
              (λ reached v j. k.workspace_health ctx.wid running.container_id v j)))
          (λ health v j. j))

  anything : {A : Type 0} (x : Outcome A × W) → Returns (λ a w. Unit) x
  anything (gives a, w) = tt
  anything (throws e, w) = tt

  -- The result of a probe reports no rollback.
  abbrev Fresh : WorkspaceBringUpResult → W → Type 0
  Fresh r w = r.rollback_succeeded ≡ none

  Fresh-remote :
      (running : EnsureRunningRuntimeResult) (w : W)
      → Returns Fresh (bring_up_run_remote_host_port_probe self running w)
  unfolding bring_up_run_remote_host_port_probe
  Fresh-remote running w =
      let port = published self (first (λ (p : ℕ × ℕ). p.1 == 8080) running.resolved_ports) in
      follow-Returns (λ c v. Unit) Fresh _
        (self.probe_runner.check_container_running running.container_id w) (anything _)
        (λ ctr v t.
          follow-Returns (λ c u. Unit) Fresh _ (service_http self port v) (anything _)
            (λ service u h. refl))

  test-Returns :
      (b : Bool) (x y : Outcome WorkspaceBringUpResult × W)
      → Returns Fresh x
      → Returns Fresh y
      → Returns Fresh (if b then x else y)
  test-Returns true x y i j = i
  test-Returns false x y i j = j

  Fresh-probe :
      (ctx : BringUpContext) (running : EnsureRunningRuntimeResult) (wired : Wired) (w : W)
      → Returns Fresh (bring_up_run_probe self ctx running wired w)
  unfolding bring_up_run_probe
  Fresh-probe ctx running wired w =
      let probed : Outcome WorkspaceHealthResult × W =
        rethrow (λ e. refuse (text "probe health check failed: " ++ message e))
          ((tcp_wait_at self wired.workspace_ip >>= λ reached.
              self.probe_runner.check_workspace_health ctx.wid running.container_id)
            w) in
      test-Returns self.remote_topology_attach_deferred
        (bring_up_run_remote_host_port_probe self running w)
        (follow (λ health. pure (health_result self running wired health)) probed)
        (Fresh-remote running w)
        (follow-Returns (λ c v. Unit) Fresh _ probed (anything probed) (λ health v t. refl))

  abbrev pub Probed : WorkspaceBringUpResult → W → Type 0
  Probed r w = (r.rollback_succeeded ≡ none) × Inv w

  Probed-both :
      (x : Outcome WorkspaceBringUpResult × W) → Returns Fresh x → Ends Inv x → Returns Probed x
  Probed-both (gives r, w) f i = (f, i)
  Probed-both (throws e, w) f i = tt

  pub bring_up_run_probe-Probed :
      (ctx : BringUpContext) (running : EnsureRunningRuntimeResult) (wired : Wired) (w : W)
      → Inv w
      → Returns Probed (bring_up_run_probe self ctx running wired w)
  bring_up_run_probe-Probed ctx running wired w i =
      Probed-both (bring_up_run_probe self ctx running wired w) (Fresh-probe ctx running wired w)
        (bring_up_run_probe-Kept ctx running wired w i)

  bundle_answer-Kept :
      {A : Type 0} (x : Outcome A × W) → Ends Inv x → Ends Inv (bundle_answer self x)
  bundle_answer-Kept (throws (value_error e), w) i = i
  bundle_answer-Kept (throws e, w) i = i
  bundle_answer-Kept (gives a, w) i = i

  -- The context has the stripped id, and the world is as good as before.
  abbrev pub Built : Text → BringUpContext → W → Type 0
  Built wid ctx w = (ctx.wid ≡ wid) × Inv w

  both : {A : Type 0} (x : Outcome A × W) → Ends Inv x → Returns (λ a w. Inv w) x
  both (gives a, w) i = i
  both (throws e, w) i = tt

  pub bring_up_build_context-Built :
      (wid : Text) (key version mode : Option Text) (w : W)
      → Inv w
      → Returns (Built (strip wid)) (bring_up_build_context self wid key version mode w)
  unfolding bring_up_build_context
  bring_up_build_context-Built wid key version mode w i = elim (Bool-cases (is_empty (strip wid))) [
    | inl e ↦ rw e tt
    | inr e ↦ rw e (
        follow-Returns (λ n v. Inv v) _ _ (parse_topology_workspace_id (strip wid), w)
          (both _ (Ends-of Inv (parse_topology_workspace_id (strip wid), w) i))
          (λ n v j.
            follow-Returns (λ b u. Inv u) _ _
              (bundle_answer self (
                self.workspace_host.ensure_workspace_project_dir (strip wid) key
                  (launch_mode_of mode).1 v))
              (both _
                (bundle_answer-Kept _ (k.project_dir (strip wid) key (launch_mode_of mode).1 v j)))
              (λ b u h. (refl, h))))
  ]
