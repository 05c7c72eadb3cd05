-- ===== src/Orchestrator/DeleteLaws.antt =====
-- What a deletion of backend/app/services/orchestrator_service/service.py leaves in the tables of
-- backend/app/libs/topology/db_topology_adapter.py.
use devnest.Base.{
  ℕ, ◌≡◌, refl, ap, sym, ◌∙◌, Bool, true, false, not, ◌&&◌, Option, none, some, List, ◌++◌, Text,
  text, is_empty, strip, stripped, first, count, count_mono, first-of_count, Bool-cases, inl, inr,
  arith,
}
use mathlib.Core.Path.{subst}
use devnest.Worker.State.{WorkspaceDeleteResult}
use devnest.Topology.Rows.{
  TopologyAttachment, Tables, Result, ok, err, node_name, attachment_of, attachment_on, is_detached,
}
use devnest.Topology.Detach.{
  DetachHost, detach_row, detach_workspace, delete_topology, attached_row, holds_attached,
}
use devnest.Topology.Delete.{delete_topology-Deleted}
use devnest.Orchestrator.Adapters.{
  Failure, topology_error, topology_delete_error, adapter_error, container_not_found, delete_error,
  message, Outcome, gives, throws, rethrow, Returns, follow-Returns, RuntimeActionResult,
  ContainerInspectionResult,
}
use devnest.Orchestrator.Texts.{parse_topology_workspace_id, is_false}
use devnest.Orchestrator.Stop.{Service, Inspected, Detachment, detached_answer, container_ref}
use devnest.Orchestrator.Delete.{
  delete_answer, topology_answer, delete_load_inspection, delete_detach_topology_best_effort,
  delete_container_best_effort, delete_topology_runtime_best_effort, delete_inspected,
  delete_workspace_runtime,
}
use devnest.Orchestrator.OnTables.{DbTopology, on_tables, answered, beside, failure_of}
use devnest.Orchestrator.Clean.{Unattached, detach_workspace-Unattached}

-- An attachment of the workspace that is not detached.
pub record InUse (t : ℕ) (n : Text) (w : ℕ) (db : Tables) : Type 0 where
  pub row : TopologyAttachment
  pub found : first (attachment_of t n w) db.attachments ≡ some row
  pub in_use : is_detached row.status ≡ false

-- A detach keeps the leases, and one that detaches has found an attachment in use.
abbrev Detaching : ℕ → Text → ℕ → Tables → Result Bool × Tables → Type 0
Detaching t n w before (ok true, db) = (db.allocations ≡ before.allocations) × InUse t n w before
Detaching t n w before (ok false, db) = db.allocations ≡ before.allocations
Detaching t n w before (err e, db) = db.allocations ≡ before.allocations

detach_row-Detaching :
    (host : DetachHost) (now t : ℕ) (n : Text) (w : ℕ) (db : Tables) (o : Option TopologyAttachment)
    → first (attachment_of t n w) db.attachments ≡ o
    → Detaching t n w db (detach_row host now t n w db o)
unfolding detach_row
detach_row-Detaching host now t n w db none e = refl
detach_row-Detaching host now t n w db (some a) e = elim (Bool-cases (is_detached a.status)) [
  | inl d ↦ rw d refl
  | inr d ↦ rw d (elim (Bool-cases (host.apply_linux_attachment && not (host.veth_removed a))) [
    | inl f ↦ rw f refl
    | inr f ↦ rw f (refl, record { row = a; found = e; in_use = d })
  ])
]

delete_topology-leases :
    (host : DetachHost) (t : ℕ) (node_id : Text) (db : Tables)
    → (delete_topology host t node_id db).1.allocations ≡ db.allocations
delete_topology-leases host t node_id db = elim (delete_topology-Deleted host t node_id db) [
  | inl e ↦ ap (λ x. x.1.allocations) e
  | inr d ↦ d.leases
]

-- Where the topology of a node has gone, no workspace is attached that was not.
delete_topology-unattached :
    (host : DetachHost) (t : ℕ) (node_id : Text) (w : ℕ) (db : Tables)
    → holds_attached t (node_name node_id) w db ≡ false
    → holds_attached t (node_name node_id) w (delete_topology host t node_id db).1 ≡ false
delete_topology-unattached host t node_id w db h =
    elim (delete_topology-Deleted host t node_id db) [
      | inl e ↦ ap (λ x. holds_attached t (node_name node_id) w x.1) e ∙ h
      | inr d ↦ ap attached_row (gone _ d.no_attachment)
    ]
  where
    gone :
        (rows : List TopologyAttachment)
        → count (attachment_on t (node_name node_id)) rows ≡ 0
        → first (attachment_of t (node_name node_id) w) rows ≡ none
    gone rows c = first-of_count (attachment_of t (node_name node_id) w) rows (
        omega (
          arith,
          c,
          count_mono (attachment_on t (node_name node_id)) (attachment_of t (node_name node_id) w)
              rows (λ a q. ground (arith, q)),
        ))

module _ {E : Type 0} (p : DbTopology) (self : Service E) where
  -- What is left after the steps, by whether the attachment counts as detached.
  abbrev pub DeleteEnds : ℕ → Tables → Bool → Tables × E → Type 0
  DeleteEnds ws_int before done (db, e) =
      (db.allocations ≡ before.allocations)
      × (done ≡ true
          → InUse self.topology_id (node_name self.node_id) ws_int before
            × (holds_attached self.topology_id (node_name self.node_id) ws_int db ≡ false))

  abbrev Detached : ℕ → Tables → Detachment → Tables × E → Type 0
  Detached ws_int before det = DeleteEnds ws_int before (not (is_false det.topology_detached))

  raised-Detached :
      (ws_int : ℕ) (before : Tables) (f : Failure) (w : Tables × E)
      → w.0.allocations ≡ before.allocations
      → Returns (Detached ws_int before) (detached_answer delete_error (throws f, w))
  raised-Detached ws_int before (topology_error m) w q = (q, λ h. absurd (cc))
  raised-Detached ws_int before (topology_delete_error m) w q = (q, λ h. absurd (cc))
  raised-Detached ws_int before f w q = tt

  answer-Detached :
      (ws_int : ℕ) (before : Tables) (x : Result Bool × Tables) (e : E)
      → Detaching self.topology_id (node_name self.node_id) ws_int before x
      → Unattached self.topology_id (node_name self.node_id) ws_int x
      → Returns (Detached ws_int before) (detached_answer delete_error (answered p (λ b. b) e x))
  answer-Detached ws_int before (ok true, db) e d h = (d.0, λ q. (d.1, h))
  answer-Detached ws_int before (ok false, db) e d h = (d, λ q. absurd (cc))
  answer-Detached ws_int before (err x, db) e d h =
      raised-Detached ws_int before (failure_of p x) (db, e) d

  -- Deleting the container does not touch the tables.
  same_tables :
      (db : Tables) (e : E) (x : Outcome RuntimeActionResult)
      → Returns (λ h (w : Tables × E). w.0 ≡ db) (delete_answer (x, (db, e)))
  same_tables db e (gives r) = refl
  same_tables db e (throws (adapter_error m)) = refl
  same_tables db e (throws (container_not_found m)) = refl
  same_tables db e (throws f) = tt

  delete_container-same :
      (cid : Option Text) (w : Tables × E)
      → Returns
          (λ h (v : Tables × E). v.0 ≡ w.0)
          (delete_container_best_effort (on_tables p self) cid w)
  unfolding delete_container_best_effort on_tables
  delete_container-same none w = refl
  delete_container-same (some cid) w =
      same_tables w.0 (self.runtime_adapter.delete_container cid w.1).1
        (self.runtime_adapter.delete_container cid w.1).0

  in_world :
      (Q : Tables × E → Type 0) (x : Outcome (Unit {0}) × (Tables × E))
      → Q x.1
      → Returns (λ d w. Q w) (topology_answer x)
  in_world Q (gives u, w) q = q
  in_world Q (throws (topology_delete_error m), w) q = q
  in_world Q (throws f, w) q = tt

  after_topology :
      (ws_int : ℕ) (before : Tables) (done : Bool) (w : Tables × E)
      → DeleteEnds ws_int before done w
      → DeleteEnds ws_int before done
          ((delete_topology p.detach_host self.topology_id self.node_id w.0).1, w.1)
  after_topology ws_int before done w d = (leases, λ h. ((d.1 h).0, gone (d.1 h).1))
    where
      leases :
          (delete_topology p.detach_host self.topology_id self.node_id w.0).1.allocations
          ≡ before.allocations
      leases = delete_topology-leases p.detach_host self.topology_id self.node_id w.0 ∙ d.0

      gone :
          holds_attached self.topology_id (node_name self.node_id) ws_int w.0 ≡ false
          → holds_attached self.topology_id
              (node_name self.node_id)
              ws_int
              (delete_topology p.detach_host self.topology_id self.node_id w.0).1
            ≡ false
      gone h = delete_topology-unattached p.detach_host self.topology_id self.node_id ws_int w.0 h

  -- A deletion keeps the leases; one that reports success has found an attachment of the workspace
  -- in use, and leaves none that is attached.
  abbrev pub Deleted : ℕ → Tables → WorkspaceDeleteResult → Tables × E → Type 0
  Deleted ws_int before r = DeleteEnds ws_int before r.success

  delete_inspected-Deleted :
      (seen : Inspected) (w : Tables × E)
      → Returns (Deleted seen.ws_int w.0) (delete_inspected (on_tables p self) seen w)
  unfolding delete_inspected delete_detach_topology_best_effort delete_topology_runtime_best_effort
      on_tables detach_workspace
  delete_inspected-Deleted seen w =
      let t = self.topology_id in
      let n = self.node_id in
      let x = detach_workspace p.detach_host p.now t n seen.ws_int w.0 in
      follow-Returns (Detached seen.ws_int w.0) _ _
        (detached_answer delete_error (answered p (λ b. b) w.1 x))
        (answer-Detached seen.ws_int w.0 x w.1
          (detach_row-Detaching p.detach_host p.now t (node_name n) seen.ws_int w.0 _ refl)
          (detach_workspace-Unattached p.detach_host p.now t n seen.ws_int w.0))
        (λ det w1 d.
          follow-Returns (λ h (v : Tables × E). v.0 ≡ w1.0) _ _
            (delete_container_best_effort (on_tables p self) seen.container_id w1)
            (delete_container-same seen.container_id w1)
            (λ gone w2 same.
              follow-Returns (λ net v. Detached seen.ws_int w.0 det v) _ _
                (topology_answer
                  (answered p (λ u. u) w2.1 (delete_topology p.detach_host t n w2.0)))
                (in_world (Detached seen.ws_int w.0 det) _ (
                  after_topology seen.ws_int w.0 (not (is_false det.topology_detached)) w2
                    (moved seen w.0 det w1 w2 same d)))
                (λ net w3 k. (k.0, λ s. k.1 (detached gone.success det s)))))
    where
      moved :
          (i : Inspected) (before : Tables) (det : Detachment) (w1 w2 : Tables × E)
          → w2.0 ≡ w1.0
          → Detached i.ws_int before det w1
          → Detached i.ws_int before det w2
      moved i before det w1 w2 same d =
          subst (λ db. Detached i.ws_int before det (db, w2.1)) (sym same) d

      detached :
          (b : Bool) (det : Detachment)
          → b && not (is_false det.topology_detached) ≡ true
          → not (is_false det.topology_detached) ≡ true
      detached b det s = ground (arith, s)

  -- The inspection keeps the tables, and reads the number of the workspace.
  abbrev Read : ℕ → Tables → Inspected → Tables × E → Type 0
  Read ws_int before seen (db, e) = (seen.ws_int ≡ ws_int) × (db ≡ before)

  inspected :
      (wrap : Failure → Failure) (x : Outcome ContainerInspectionResult) (db : Tables) (e : E)
      → Returns (λ i (w : Tables × E). w.0 ≡ db) (rethrow wrap (x, (db, e)))
  inspected wrap (gives i) db e = refl
  inspected wrap (throws f) db e = tt

  delete_load-Read :
      (wid ref : Text) (ws_int : ℕ) (w : Tables × E)
      → parse_topology_workspace_id wid ≡ gives ws_int
      → Returns (Read ws_int w.0) (delete_load_inspection (on_tables p self) wid ref w)
  unfolding delete_load_inspection on_tables
  delete_load-Read wid ref ws_int w parsed = rw parsed (
      follow-Returns (λ i (v : Tables × E). v.0 ≡ w.0) _ _
        (rethrow (λ f. delete_error (text "inspect_container failed: " ++ message f))
          (beside (self.runtime_adapter.inspect_container ref) w))
        (inspected _ (self.runtime_adapter.inspect_container ref w.1).0 w.0
          (self.runtime_adapter.inspect_container ref w.1).1)
        (λ i v k. (refl, k)))

  -- A deletion that returns keeps the leases as they were. One that reports success has found an
  -- attachment of the workspace on the node that was not detached, and leaves none that is attached,
  -- whatever the engine does. The id has no spaces around it.
  pub delete_workspace_runtime-Deleted :
      (wid : Text) (cid : Option Text) (ws_int : ℕ) (w : Tables × E)
      → strip wid ≡ wid
      → parse_topology_workspace_id wid ≡ gives ws_int
      → Returns (Deleted ws_int w.0) (delete_workspace_runtime (on_tables p self) wid cid w)
  unfolding delete_workspace_runtime
  delete_workspace_runtime-Deleted wid cid ws_int w stable parsed =
      elim (Bool-cases (is_empty (strip wid))) [
        | inl e ↦ rw e tt
        | inr e ↦
            rw e
              (elim (Bool-cases (
                (on_tables p self).authoritative_container_ref_required
                && is_empty (stripped cid))) [
                  | inl a ↦ rw a (refl, λ h. absurd (cc))
                  | inr a ↦ rw a (
                      follow-Returns (Read ws_int w.0) _ _
                        (delete_load_inspection (on_tables p self) (strip wid)
                          (container_ref (on_tables p self) (strip wid) cid) w)
                        (delete_load-Read (strip wid) _ ws_int w
                          (ap parse_topology_workspace_id stable ∙ parsed))
                        (λ seen v r.
                          subst
                            (λ n.
                              Returns (Deleted n w.0) (delete_inspected (on_tables p self) seen v))
                            r.0
                            (subst
                              (λ db.
                                Returns (Deleted seen.ws_int db)
                                  (delete_inspected (on_tables p self) seen v))
                              r.1 (delete_inspected-Deleted seen v))))
                ])
      ]
