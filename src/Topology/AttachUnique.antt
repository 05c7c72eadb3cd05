-- ===== src/Topology/AttachUnique.antt =====
-- `attach_workspace` of backend/app/libs/topology/db_topology_adapter.py keeps the unique indices of
-- the leases, whatever the other workers commit in between, if they keep them too.
use devnest.Base.{
  ℕ, Bool, true, false, not, ◌&&◌, Option, none, some, List, ◌==◌, if◌then◌else◌, first, is_empty,
  strip, take, Text, Bool-cases, inl, inr,
}
use devnest.Topology.Net.{is_filled}
use devnest.Topology.Rows.{
  TopologyAttachmentStatus, TopologyRuntime, IpAllocation, TopologyAttachment, Topology, Tables,
  Result, ok, err, node_name, is_ready, is_named, active_lease_of, attachment_of,
}
use devnest.Topology.Lease.{Others}
use devnest.Topology.Allocate.{KeepLeases}
use devnest.Topology.Release.{released_rows-IsUnique}
use devnest.Topology.Ensure.{BridgeHost}
use devnest.Topology.Attach.{
  AttachHost, Attempted, mark_attachment, release_if_same, attach_failure_best_effort,
  write_attaching, finish_attach, start_attach, in_place, netns_accepted, lease_is_ip, attach_on,
  attach_ensured, attach_workspace, in_cidr,
}
use devnest.Topology.Unique.{Leases, ensure_node_topology-IsUnique, if-Leases}

module _ (now t : ℕ) (n : Text) (w ip : ℕ) (cid : Text) where
  release_if_same-IsUnique :
      (o : Option IpAllocation) (db : Tables)
      → Leases db
      → Leases (release_if_same now t n w ip cid o db)
  release_if_same-IsUnique none db u = u
  release_if_same-IsUnique (some a) db u =
      if-Leases (a.ip == ip) _ db (released_rows-IsUnique now t n w db.allocations u) u

  failure-IsUnique :
      (host : AttachHost) (release : Bool) (db : Tables)
      → Leases db
      → Leases (attach_failure_best_effort now t n w ip cid host release db)
  unfolding attach_failure_best_effort
  failure-IsUnique host release db u =
      let marked =
        if host.persists_failed
        then mark_attachment now t n w ip cid TopologyAttachmentStatus.failed db
        else db in
      let m =
        if-Leases host.persists_failed
          (mark_attachment now t n w ip cid TopologyAttachmentStatus.failed db) db u u in
      if-Leases (release && host.persists_release) _ marked (release_if_same-IsUnique _ marked m) m

  if-Attempted :
      (b : Bool) (x y : Attempted)
      → Leases x.tables
      → Leases y.tables
      → Leases (if b then x else y).tables
  if-Attempted true x y u v = u
  if-Attempted false x y u v = v

  finish_attach-IsUnique :
      (host : AttachHost) (new : Bool) (db : Tables)
      → Leases db
      → Leases (finish_attach now t n w ip cid host new db).tables
  unfolding finish_attach
  finish_attach-IsUnique host new db u =
      let attached = mark_attachment now t n w ip cid TopologyAttachmentStatus.attached db in
      if-Attempted (host.apply_linux_attachment && not host.linux_attached) _ _
        (if-Attempted host.linux_os_error _ _ u (failure-IsUnique host new db u))
        (if-Attempted (not host.persists_attached) _ _ (failure-IsUnique host new db u) (
          if-Attempted (host.apply_linux_attachment && host.plumbing_os_error_after) _ _ u (
            if-Attempted (host.apply_linux_attachment && not host.plumbing_ok_after) _ _
              (failure-IsUnique host new attached u) u)))

  write_attaching-IsUnique :
      (r : TopologyRuntime) (names : Text × Text) (o : Option TopologyAttachment) (db : Tables)
      → Leases db
      → Leases (write_attaching now t n w ip cid r names o db)
  write_attaching-IsUnique r names none db u = u
  write_attaching-IsUnique r names (some a) db u = u

  start_attach-IsUnique :
      (host : AttachHost) (r : TopologyRuntime) (o : Option TopologyAttachment) (db : Tables)
      → Leases db
      → Leases (start_attach now t n w ip cid host r o db).tables
  unfolding start_attach
  start_attach-IsUnique host r o db u =
      if-Attempted host.persists_attaching _ _
        (finish_attach-IsUnique host _
          (write_attaching now t n w ip cid r (host.veth_pair_names t n w) o db)
          (write_attaching-IsUnique r (host.veth_pair_names t n w) o db u))
        u

  attach_on-IsUnique :
      (host : AttachHost) (ref : Text) (db : Tables) (o : Option TopologyRuntime)
      → Leases db
      → Leases (attach_on now t n w ip cid host ref db o).tables
  unfolding attach_on
  attach_on-IsUnique host ref db none u = u
  attach_on-IsUnique host ref db (some r) u = elim (Bool-cases (not (is_ready r.status))) [
    | inl e ↦ rw e u
    | inr e ↦
        rw e
          (elim (Bool-cases
            (not (is_named r.bridge_name && is_filled r.cidr && is_filled r.gateway_ip))) [
              | inl f ↦ rw f u
              | inr f ↦
                  rw f
                    (elim (Bool-cases (
                      not (
                        lease_is_ip now t n w ip cid (first (active_lease_of t n w) db.allocations)
                        && in_cidr now t n w ip cid r.cidr))) [
                          | inl g ↦ rw g u
                          | inr g ↦
                              rw g
                                (elim (Bool-cases
                                  (not (netns_accepted now t n w ip cid host ref))) [
                                    | inl h ↦ rw h u
                                    | inr h ↦
                                        rw h
                                          (elim (Bool-cases (
                                            in_place now t n w ip cid host
                                              (first (attachment_of t n w) db.attachments))) [
                                                | inl i ↦ rw i u
                                                | inr i ↦ rw i (start_attach-IsUnique host r _ db u)
                                              ])
                                  ])
                        ])
            ])
  ]

attach_ensured-IsUnique :
    (host : AttachHost) (now t : ℕ) (n : Text) (w : ℕ) (cid ref : Text) (ip : ℕ)
    (x : Result TopologyRuntime × Tables)
    → Leases x.1
    → Leases (attach_ensured host now t n w cid ref ip x).tables
unfolding attach_ensured
attach_ensured-IsUnique host now t n w cid ref ip (err e, db) u = u
attach_ensured-IsUnique host now t n w cid ref ip (ok r, db) u =
    attach_on-IsUnique now t n w ip cid host ref db _ u

pub attach_workspace-IsUnique :
    (bridge : BridgeHost) (host : AttachHost) (others : Others) (topologies : List Topology)
    (now t : ℕ) (n : Text) (w : ℕ) (cid ref : Text) (ip : ℕ) (db : Tables)
    → KeepLeases others
    → Leases db
    → Leases (attach_workspace bridge host others topologies now t n w cid ref ip db).tables
unfolding attach_workspace
attach_workspace-IsUnique bridge host others topologies now t n w cid ref ip db k u =
    elim (Bool-cases (is_empty (strip cid))) [
      | inl e ↦ rw e u
      | inr e ↦ rw e (
          attach_ensured-IsUnique host now t (node_name n) w (take 128 (strip cid)) ref ip _
            (ensure_node_topology-IsUnique bridge others topologies now t (node_name n) db k u))
    ]
