-- ===== src/Orchestrator/WireKept.antt =====
-- What the waits and the attachment of a bring-up of
-- backend/app/services/orchestrator_service/service.py keep, whichever way they end.
use devnest.Base.{ℕ, zero, suc, not, ◌&&◌, Text, Bool-cases, inl, inr}
use devnest.Orchestrator.Adapters.{
  topology_error, topology_delete_error, adapter_error, container_not_found, Outcome, gives, throws,
  M, pure, NetnsRefResult, ◌>>=◌, ContainerInspectionResult, EnsureRunningRuntimeResult,
}
use devnest.Orchestrator.Stop.{Service}
use devnest.Orchestrator.Context.{BringUpContext}
use devnest.Orchestrator.BringUp.{
  raise_with_tail, exited, looked, is_over, is_up, has_pid, wait_alive,
  bring_up_wait_workspace_alive_for_topology,
}
use devnest.Orchestrator.Wire.{
  Wired, checked_netns, netns_for_attach, topology_failed, attach_tried, attach_answer,
  bring_up_attach_topology,
}
use devnest.Orchestrator.Kept.{Ends, AdaptersKeep, follow-Kept}
use devnest.Orchestrator.StartKept.{if-Kept, test-Kept}

module _ {W : Type 0} (Inv : W → Type 0) (self : Service W) (k : AdaptersKeep Inv self) where
  raise_with_tail-Kept :
      (A : Type 0) (m cid : Text) (w : W) → Inv w → Ends Inv (raise_with_tail self {A = A} m cid w)
  raise_with_tail-Kept A m cid w i =
      follow-Kept Inv _ (self.runtime_adapter.fetch_container_log_tail cid w) (k.log_tail cid w i)
        (λ tail v j. j)

  looked-Kept :
      (cid : Text) (retry : M W ContainerInspectionResult) (ins : ContainerInspectionResult) (w : W)
      → Inv w
      → Ends Inv (retry w)
      → Ends Inv (looked self cid retry ins w)
  looked-Kept cid retry ins w i r = elim (Bool-cases (not ins.exists)) [
    | inl e ↦ rw e (raise_with_tail-Kept _ (exited self) cid w i)
    | inr e ↦ rw e (elim (Bool-cases (is_over self ins.container_state)) [
      | inl o ↦ rw o (raise_with_tail-Kept _ (exited self) cid w i)
      | inr o ↦ rw o (elim (Bool-cases (is_up self ins.container_state && has_pid self ins.pid)) [
        | inl u ↦ rw u i
        | inr u ↦ rw u r
      ])
    ])
  ]

  wait_alive-Kept :
      (polls : ℕ) (cid : Text) (w : W) → Inv w → Ends Inv (wait_alive self polls cid w)
  unfolding wait_alive
  wait_alive-Kept zero cid w i =
      follow-Kept Inv _ (self.runtime_adapter.inspect_container cid w) (k.inspect cid w i)
        (λ ins v j. looked-Kept cid _ ins v j (raise_with_tail-Kept _ (exited self) cid v j))
  wait_alive-Kept (suc polls) cid w i =
      follow-Kept Inv _ (self.runtime_adapter.inspect_container cid w) (k.inspect cid w i)
        (λ ins v j. looked-Kept cid _ ins v j (wait_alive-Kept polls cid v j))

  wait-Kept :
      (polls : ℕ) (running : EnsureRunningRuntimeResult) (w : W)
      → Inv w
      → Ends Inv (bring_up_wait_workspace_alive_for_topology self polls running w)
  unfolding bring_up_wait_workspace_alive_for_topology
  wait-Kept polls running w i =
      if-Kept Inv self k self.skip_linux_topology_attachment
        (self.runtime_adapter.inspect_container running.container_id)
        (wait_alive self polls running.container_id) w (k.inspect running.container_id w i)
        (wait_alive-Kept polls running.container_id w i)

  checked_netns-Kept :
      (running : EnsureRunningRuntimeResult) (netns : NetnsRefResult) (w : W)
      → Inv w
      → Ends Inv (checked_netns self running netns w)
  checked_netns-Kept running netns w i =
      if-Kept Inv self k (self.runtime_adapter.netns_target_visible netns.netns_ref)
        (pure netns.netns_ref) (raise_with_tail self (exited self) running.container_id) w i
        (raise_with_tail-Kept _ (exited self) running.container_id w i)

  netns-Kept :
      (running : EnsureRunningRuntimeResult) (w : W)
      → Inv w
      → Ends Inv (netns_for_attach self running w)
  unfolding netns_for_attach
  netns-Kept running w i =
      if-Kept Inv self k self.skip_linux_topology_attachment (pure running.netns_ref)
        (bring_up_wait_workspace_alive_for_topology self 25 running >>= λ ins.
          self.runtime_adapter.get_container_netns_ref running.container_id
          >>= checked_netns self running)
        w i
        (follow-Kept Inv _ (bring_up_wait_workspace_alive_for_topology self 25 running w)
          (wait-Kept 25 running w i)
          (λ ins v j.
            follow-Kept Inv _ (self.runtime_adapter.get_container_netns_ref running.container_id v)
              (k.netns_ref running.container_id v j)
              (λ netns u h. checked_netns-Kept running netns u h)))

  attach_tried-Kept :
      (ctx : BringUpContext) (running : EnsureRunningRuntimeResult) (w : W)
      → Inv w
      → Ends Inv (attach_tried self ctx running w)
  unfolding attach_tried
  attach_tried-Kept ctx running w i =
      follow-Kept Inv _ (bring_up_wait_workspace_alive_for_topology self 21 running w)
        (wait-Kept 21 running w i)
        (λ b w1 i1.
          follow-Kept Inv _
            (self.topology_service.ensure_node_topology self.topology_id self.node_id w1)
            (k.ensure_topology self.topology_id self.node_id w1 i1)
            (λ u w2 i2.
              follow-Kept Inv _
                (self.topology_service.allocate_workspace_ip self.topology_id self.node_id
                  ctx.ws_int w2)
                (k.allocate self.topology_id self.node_id ctx.ws_int w2 i2)
                (λ ip w3 i3.
                  follow-Kept Inv _ (bring_up_wait_workspace_alive_for_topology self 100 running w3)
                    (wait-Kept 100 running w3 i3)
                    (λ a w4 i4.
                      follow-Kept Inv _ (netns_for_attach self running w4)
                        (netns-Kept running w4 i4)
                        (λ ref w5 i5.
                          follow-Kept Inv _
                            (self.topology_service.attach_workspace self.topology_id self.node_id
                              ctx.ws_int running.container_id ref ip w5)
                            (k.attach self.topology_id self.node_id ctx.ws_int running.container_id
                              ref ip w5 i5)
                            (λ x w6 i6. i6))))))

  topology_failed-Kept :
      (e : Text) (running : EnsureRunningRuntimeResult) (w : W)
      → Inv w
      → Ends Inv (topology_failed self e running w)
  topology_failed-Kept e running w i =
      follow-Kept Inv _ (self.runtime_adapter.inspect_container running.container_id w)
        (k.inspect running.container_id w i)
        (λ ins v j.
          follow-Kept Inv _ (self.runtime_adapter.fetch_container_log_tail running.container_id v)
            (k.log_tail running.container_id v j) (λ tail u h. h))

  attach_answer-Kept :
      (running : EnsureRunningRuntimeResult) (x : Outcome Wired × W)
      → Ends Inv x
      → Ends Inv (attach_answer self running x)
  unfolding attach_answer
  attach_answer-Kept running (throws (topology_error e), w) i = topology_failed-Kept e running w i
  attach_answer-Kept running (throws (topology_delete_error e), w) i =
      topology_failed-Kept e running w i
  attach_answer-Kept running (throws (adapter_error e), w) i = i
  attach_answer-Kept running (throws (container_not_found e), w) i = i
  attach_answer-Kept running (throws e, w) i = i
  attach_answer-Kept running (gives a, w) i = i

  pub bring_up_attach_topology-Kept :
      (ctx : BringUpContext) (running : EnsureRunningRuntimeResult) (w : W)
      → Inv w
      → Ends Inv (bring_up_attach_topology self ctx running w)
  unfolding bring_up_attach_topology
  bring_up_attach_topology-Kept ctx running w i =
      test-Kept Inv self k self.remote_topology_attach_deferred (gives _, w)
        (attach_answer self running (attach_tried self ctx running w)) i
        (attach_answer-Kept running (attach_tried self ctx running w)
          (attach_tried-Kept ctx running w i))
