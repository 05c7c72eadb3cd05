-- ===== src/Orchestrator/CleanLaws.antt =====
-- A stop of backend/app/services/orchestrator_service/service.py that succeeds and gives the address
-- back leaves nothing of the workspace in the tables of
-- backend/app/libs/topology/db_topology_adapter.py, and neither does a rollback that succeeds.
use devnest.Base.{
  starts_with, first, ℕ, ◌≡◌, ◌⊎◌, refl, ap, sym, ◌∙◌, Bool, true, false, ◌&&◌, Option, none, some,
  [], ◌∷◌, ◌++◌, Text, text, is_empty, strip, stripped, Bool-cases, inl, inr,
}
use mathlib.Core.Path.{subst}
use devnest.Worker.State.{WorkspaceStopResult}
use devnest.Topology.Rows.{
  Tables, attachment_of, runtime_create, runtime_not_found, ip_allocation, attachment_failed,
  detach_failed, delete_failed, value_error, os_error, Result, ok, err, node_name,
}
use devnest.Topology.Lease.{release_workspace_ip_lease}
use devnest.Topology.LeaseLaws.{IsUnique}
use devnest.Topology.Release.{release-active_self, release-attachments}
use devnest.Topology.Detach.{detach_workspace, holds_attached, attached_row}
use devnest.Topology.Unique.{detach_workspace-IsUnique}
use devnest.Orchestrator.Adapters.{
  adapter_error, container_not_found, stop_error, rethrow, message, ContainerInspectionResult,
  Failure, Outcome, gives, throws, Returns, follow-Returns, RuntimeActionResult,
}
use devnest.Orchestrator.Texts.{parse_topology_workspace_id}
use devnest.Orchestrator.Stop.{
  Service, Inspected, Detachment, Halt, detached_answer, stop_answer, stop_result, container_ref,
  stop_load_inspection, stop_container_best_effort, stop_inspected,
  stop_detach_topology_best_effort, release_ip_lease_best_effort, stop_workspace_runtime,
}
use devnest.Orchestrator.StopLaws.{detach_stays, roll_up-detach}
use devnest.Orchestrator.OnTables.{DbTopology, on_tables, answered, beside}
use devnest.Orchestrator.Clean.{IsClean, Unattached, detach_workspace-Unattached}

module _ {E : Type 0} (p : DbTopology) (self : Service E) where
  -- After the detach: the workspace is not attached, or the failure is on the record.
  data DetachEnds (ws_int : ℕ) (db : Tables) : Detachment → Type 0 where
    went :
        (b : Bool)
        → holds_attached self.topology_id (node_name self.node_id) ws_int db ≡ false
        → DetachEnds ws_int db (record { topology_detached = some b; issues = [] })
    refused :
        (e : Text)
        → DetachEnds ws_int db (record {
          topology_detached = some false;
          issues = (text "topology:detach_failed:" ++ e) ∷ [];
        })

  abbrev Detached : ℕ → Detachment → Tables × E → Type 0
  Detached ws_int det (db, e) = IsUnique db.allocations × DetachEnds ws_int db det

  detached_answer-Ends :
      (ws_int : ℕ) (wrap : Text → Failure) (x : Result Bool × Tables) (e : E)
      → IsUnique x.1.allocations
      → Unattached self.topology_id (node_name self.node_id) ws_int x
      → Returns (Detached ws_int) (detached_answer wrap (answered p (λ b. b) e x))
  detached_answer-Ends ws_int wrap (ok b, db) e u h = (u, went b h)
  detached_answer-Ends ws_int wrap (err runtime_create, db) e u h = (u, refused _)
  detached_answer-Ends ws_int wrap (err runtime_not_found, db) e u h = (u, refused _)
  detached_answer-Ends ws_int wrap (err ip_allocation, db) e u h = (u, refused _)
  detached_answer-Ends ws_int wrap (err attachment_failed, db) e u h = (u, refused _)
  detached_answer-Ends ws_int wrap (err detach_failed, db) e u h = (u, refused _)
  detached_answer-Ends ws_int wrap (err delete_failed, db) e u h = (u, refused _)
  detached_answer-Ends ws_int wrap (err value_error, db) e u h = tt
  detached_answer-Ends ws_int wrap (err os_error, db) e u h = tt

  -- The container's stop does not touch the tables.
  same_tables :
      (db : Tables) (e : E) (x : Outcome RuntimeActionResult)
      → Returns (λ h (w : Tables × E). w.0 ≡ db) (stop_answer (x, (db, e)))
  same_tables db e (gives r) = refl
  same_tables db e (throws (adapter_error m)) = refl
  same_tables db e (throws (container_not_found m)) = refl
  same_tables db e (throws f) = tt

  stop_container-same :
      (cid : Option Text) (w : Tables × E)
      → Returns
          (λ h (v : Tables × E). v.0 ≡ w.0)
          (stop_container_best_effort (on_tables p self) cid w)
  unfolding stop_container_best_effort on_tables
  stop_container-same none w = refl
  stop_container-same (some cid) w =
      same_tables w.0 (self.runtime_adapter.stop_container cid w.1).1
        (self.runtime_adapter.stop_container cid w.1).0

  -- A stop that asks for the address fails, or leaves nothing.
  abbrev pub Stopped : ℕ → WorkspaceStopResult → Tables × E → Type 0
  Stopped ws_int r (db, e) = (r.success ≡ false) ⊎ IsClean self.topology_id self.node_id ws_int db

  released-Clean :
      (ws_int : ℕ) (db : Tables)
      → IsUnique db.allocations
      → holds_attached self.topology_id (node_name self.node_id) ws_int db ≡ false
      → IsClean self.topology_id self.node_id ws_int
          (release_workspace_ip_lease p.now self.topology_id self.node_id ws_int db).1
  unfolding release_workspace_ip_lease
  released-Clean ws_int db u h = record {
    unleased = release-active_self p.now self.topology_id (node_name self.node_id) ws_int db u;
    unattached =
        ap
          (λ rows.
            attached_row
              (first (attachment_of self.topology_id (node_name self.node_id) ws_int) rows))
          (release-attachments p.now self.topology_id (node_name self.node_id) ws_int db)
        ∙ h;
  }

  rolled-Stopped :
      (seen : Inspected) (det : Detachment) (halt : Halt) (db : Tables) (e : E)
      → IsUnique db.allocations
      → DetachEnds seen.ws_int db det
      → Stopped seen.ws_int
          (stop_result seen det halt [])
          ((release_workspace_ip_lease p.now self.topology_id self.node_id seen.ws_int db).1, e)
  unfolding starts_with
  rolled-Stopped seen det halt db e u (went b h) = inr (released-Clean seen.ws_int db u h)
  rolled-Stopped seen det halt db e u (refused m) =
      let (m', q) = detach_stays m in
      inl (
        roll_up-detach halt.success ((text "topology:detach_failed:" ++ m) ∷ (halt.issues ++ []))
          (rw q refl))

  stop_inspected-Stopped :
      (seen : Inspected) (w : Tables × E)
      → IsUnique w.0.allocations
      → Returns (Stopped seen.ws_int) (stop_inspected (on_tables p self) true seen w)
  unfolding stop_inspected stop_detach_topology_best_effort on_tables release_ip_lease_best_effort
  stop_inspected-Stopped seen w u =
      let t = self.topology_id in
      let n = self.node_id in
      let x = detach_workspace p.detach_host p.now t n seen.ws_int w.0 in
      follow-Returns (Detached seen.ws_int) _ _
        (detached_answer stop_error (answered p (λ b. b) w.1 x))
        (detached_answer-Ends seen.ws_int stop_error x w.1
          (detach_workspace-IsUnique p.detach_host p.now t n seen.ws_int w.0 u)
          (detach_workspace-Unattached p.detach_host p.now t n seen.ws_int w.0))
        (λ det w1 d.
          follow-Returns (λ h (v : Tables × E). v.0 ≡ w1.0) _ _
            (stop_container_best_effort (on_tables p self) seen.container_id w1)
            (stop_container-same seen.container_id w1)
            (λ halt w2 same.
              let ends : IsUnique w2.0.allocations × DetachEnds seen.ws_int w2.0 det =
                subst (λ db. IsUnique db.allocations × DetachEnds seen.ws_int db det) (sym same)
                  d in
              rolled-Stopped seen det halt w2.0 w2.1 ends.0 ends.1))

  -- The inspection keeps the tables, and reads the number of the workspace.
  abbrev Read : ℕ → Inspected → Tables × E → Type 0
  Read ws_int seen (db, e) = (seen.ws_int ≡ ws_int) × IsUnique db.allocations

  inspected :
      (wrap : Failure → Failure) (x : Outcome ContainerInspectionResult) (db : Tables) (e : E)
      → IsUnique db.allocations
      → Returns (λ i (w : Tables × E). IsUnique w.0.allocations) (rethrow wrap (x, (db, e)))
  inspected wrap (gives i) db e u = u
  inspected wrap (throws f) db e u = tt

  stop_load-Read :
      (wid ref : Text) (ws_int : ℕ) (w : Tables × E)
      → parse_topology_workspace_id wid ≡ gives ws_int
      → IsUnique w.0.allocations
      → Returns (Read ws_int) (stop_load_inspection (on_tables p self) wid ref w)
  unfolding stop_load_inspection on_tables
  stop_load-Read wid ref ws_int w parsed u = rw parsed (
      follow-Returns (λ i (v : Tables × E). IsUnique v.0.allocations) _ _
        (rethrow (λ f. stop_error (text "inspect_container failed: " ++ message f))
          (beside (self.runtime_adapter.inspect_container ref) w))
        (inspected _ (self.runtime_adapter.inspect_container ref w.1).0 w.0
          (self.runtime_adapter.inspect_container ref w.1).1 u)
        (λ i v k. (refl, k)))

  -- A stop that was asked to give the address back and reports success leaves the workspace with no
  -- lease and no attachment, whatever the engine does.
  pub stop_workspace_runtime-Stopped :
      (wid : Text) (cid : Option Text) (ws_int : ℕ) (w : Tables × E)
      → strip wid ≡ wid
      → parse_topology_workspace_id wid ≡ gives ws_int
      → IsUnique w.0.allocations
      → Returns (Stopped ws_int) (stop_workspace_runtime (on_tables p self) wid cid true w)
  unfolding stop_workspace_runtime
  stop_workspace_runtime-Stopped wid cid ws_int w stable parsed u =
      elim (Bool-cases (is_empty (strip wid))) [
        | inl e ↦ rw e tt
        | inr e ↦
            rw e
              (elim (Bool-cases (
                (on_tables p self).authoritative_container_ref_required
                && is_empty (stripped cid))) [
                  | inl a ↦ rw a (inl refl)
                  | inr a ↦ rw a (
                      follow-Returns (Read ws_int) _ _
                        (stop_load_inspection (on_tables p self) (strip wid)
                          (container_ref (on_tables p self) (strip wid) cid) w)
                        (stop_load-Read (strip wid) _ ws_int w
                          (ap parse_topology_workspace_id stable ∙ parsed) u)
                        (λ seen v r.
                          subst
                            (λ n.
                              Returns (Stopped n) (stop_inspected (on_tables p self) true seen v))
                            r.0 (stop_inspected-Stopped seen v r.1)))
                ])
      ]
