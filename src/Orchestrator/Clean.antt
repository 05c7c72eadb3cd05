-- ===== src/Orchestrator/Clean.antt =====
-- What a stop and a bring-up of backend/app/services/orchestrator_service/service.py leave in the
-- tables of backend/app/libs/topology/db_topology_adapter.py.
use devnest.Base.{
  ℕ, ◌≡◌, refl, ap, ◌∙◌, Bool, true, false, not, ◌&&◌, Option, none, some, first,
  first-update_first, first-keeps, Text, Bool-cases, inl, inr,
}
use devnest.Topology.Rows.{
  TopologyAttachmentStatus, TopologyAttachment, Tables, Result, ok, err, node_name, is_detached,
  is_attached, attachment_of,
}
use devnest.Topology.Lease.{release_workspace_ip_lease}
use devnest.Topology.LeaseLaws.{IsUnique}
use devnest.Topology.Allocate.{KeepLeases, allocate_workspace_ip-IsUnique}
use devnest.Topology.Release.{active_row, release-IsUnique}
use devnest.Topology.Detach.{
  DetachHost, detached_row, detach_row, detach_workspace, attached_row, holds_attached,
}
use devnest.Topology.Unique.{detach_workspace-IsUnique, ensure_node_topology-IsUnique}
use devnest.Topology.AttachUnique.{attach_workspace-IsUnique}
use devnest.Orchestrator.Stop.{Service}
use devnest.Orchestrator.OnTables.{DbTopology, on_tables}
use devnest.Orchestrator.Kept.{AdaptersKeep, Ends-of}

-- No address is leased to the workspace, and it is not attached.
pub record IsClean (t : ℕ) (n : Text) (w : ℕ) (db : Tables) : Type 0 where
  pub unleased : active_row t (node_name n) w db ≡ none
  pub unattached : holds_attached t (node_name n) w db ≡ false

abbrev pub Leased : {E : Type 0} → Tables × E → Type 0
Leased (db, e) = IsUnique db.allocations

-- The adapters of the service keep the unique indices.
pub on_tables-Keep :
    {E : Type 0} (p : DbTopology) (self : Service E)
    → KeepLeases p.others
    → AdaptersKeep Leased (on_tables p self)
unfolding on_tables release_workspace_ip_lease
on_tables-Keep p self others = record {
  ensure_running = λ r w i. Ends-of Leased _ i;
  netns_ref = λ c w i. Ends-of Leased _ i;
  log_tail = λ c w i. Ends-of Leased _ i;
  inspect = λ c w i. Ends-of Leased _ i;
  stop = λ c w i. Ends-of Leased _ i;
  ensure_topology = λ t n w i.
      Ends-of Leased _
        (ensure_node_topology-IsUnique p.bridge p.others p.topologies p.now t n w.0 others i);
  allocate = λ t n k w i.
      Ends-of Leased _ (allocate_workspace_ip-IsUnique p.others p.now t n k w.0 others i);
  attach = λ t n k c ref ip w i. Ends-of Leased _ (
      attach_workspace-IsUnique p.bridge p.attach_host p.others p.topologies p.now t n k c ref ip
        w.0 others i);
  detach =
      λ t n k w i. Ends-of Leased _ (detach_workspace-IsUnique p.detach_host p.now t n k w.0 i);
  release = λ t n k w i. release-IsUnique p.now t (node_name n) k w.0 i;
  service_reachable = λ ip w i. Ends-of Leased _ i;
  workspace_health = λ a c w i. Ends-of Leased _ i;
  container_running = λ c w i. Ends-of Leased _ i;
  service_http = λ q w i. Ends-of Leased _ i;
  project_dir = λ a k b w i. Ends-of Leased _ i;
  mounts = λ a q m w i. Ends-of Leased _ i;
  writable = λ q w i. Ends-of Leased _ i;
  ownership = λ q w i. Ends-of Leased _ i;
}

-- A detach that answers leaves no attachment that is attached.
abbrev pub Unattached : ℕ → Text → ℕ → Result Bool × Tables → Type 0
Unattached t n w (ok b, db) = holds_attached t n w db ≡ false
Unattached t n w (err e, db) = Unit

not_both : (s : TopologyAttachmentStatus) → is_detached s ≡ true → is_attached s ≡ false
not_both TopologyAttachmentStatus.attaching h = cc
not_both TopologyAttachmentStatus.attached h = cc
not_both TopologyAttachmentStatus.detaching h = cc
not_both TopologyAttachmentStatus.detached h = refl
not_both TopologyAttachmentStatus.failed h = cc

detach_row-Unattached :
    (host : DetachHost) (now t : ℕ) (n : Text) (w : ℕ) (db : Tables) (o : Option TopologyAttachment)
    → first (attachment_of t n w) db.attachments ≡ o
    → Unattached t n w (detach_row host now t n w db o)
unfolding detach_row
detach_row-Unattached host now t n w db none e = ap attached_row e
detach_row-Unattached host now t n w db (some a) e = elim (Bool-cases (is_detached a.status)) [
  | inl d ↦ rw d (ap attached_row e ∙ not_both a.status d)
  | inr d ↦ rw d (elim (Bool-cases (host.apply_linux_attachment && not (host.veth_removed a))) [
    | inl f ↦ rw f tt
    | inr f ↦ rw f (
        ap attached_row (
          first-update_first (attachment_of t n w) (attachment_of t n w) (detached_row now)
            db.attachments (λ y q. q) e (first-keeps (attachment_of t n w) db.attachments e)))
  ])
]

pub detach_workspace-Unattached :
    (host : DetachHost) (now t : ℕ) (n : Text) (w : ℕ) (db : Tables)
    → Unattached t (node_name n) w (detach_workspace host now t n w db)
unfolding detach_workspace
detach_workspace-Unattached host now t n w db =
    detach_row-Unattached host now t (node_name n) w db _ refl
