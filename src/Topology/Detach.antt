-- ===== src/Topology/Detach.antt =====
-- `detach_workspace`, `delete_topology` and `run_topology_janitor` of
-- backend/app/libs/topology/db_topology_adapter.py. The removal of the host's interface and of the
-- bridge are parameters; a commit that fails for another reason than a unique index is left out.
use devnest.Base.{
  ℕ, ◌+◌, Bool, true, false, not, ◌&&◌, Option, none, some, List, [], ◌∷◌, map, if◌then◌else◌, ltb,
  any, first, select, update_first, is_empty, strip, Text,
}
use devnest.Model.Enums.{WorkspaceStatus}
use devnest.Topology.Rows.{
  TopologyAttachmentStatus, TopologyRuntime, IpAllocation, TopologyAttachment, Tables,
  TopologyError, Result, ok, err, node_name, is_detached, is_attached, is_named, runtime_on,
  active_lease_on, attachment_of, attachment_on,
}
use devnest.Topology.Lease.{release_workspace_ip_lease}

-- What the commands on the host answer.
pub record DetachHost : Type 0 where
  pub apply_linux_attachment : Bool
  pub apply_linux_bridge : Bool
  -- `_linux_detach_host_veth` returns
  pub veth_removed : TopologyAttachment → Bool
  -- where it does not, it raises `OSError`, as where the host has no `ip`, and not `RuntimeError`
  pub veth_os_error : TopologyAttachment → Bool
  -- `remove_bridge_if_exists` returns
  pub bridge_removed : Text → Bool

abbrev pub detached_row : ℕ → TopologyAttachment → TopologyAttachment
detached_row now a = record a {
  status = TopologyAttachmentStatus.detached;
  container_id = none;
  interface_host = none;
  interface_container = none;
  updated_at = now;
}

unfoldable pub detach_row :
    DetachHost → ℕ → ℕ → Text → ℕ → Tables → Option TopologyAttachment → Result Bool × Tables
detach_row host now topology_id node_id workspace_id db none = (ok false, db)
detach_row host now topology_id node_id workspace_id db (some a) =
    if is_detached a.status
    then (ok false, db)
    else if host.apply_linux_attachment && not (host.veth_removed a)
    then (
      err (if host.veth_os_error a then TopologyError.os_error else TopologyError.detach_failed),
      db,
    )
    else (
      ok true,
      record db {
        attachments =
            update_first (attachment_of topology_id node_id workspace_id) (detached_row now)
              db.attachments;
      },
    )

-- The result says whether the call has detached; the lease of the address is kept.
unfoldable pub detach_workspace : DetachHost → ℕ → ℕ → Text → ℕ → Tables → Result Bool × Tables
unfolding detach_row node_name
detach_workspace host now topology_id node_id workspace_id db =
    detach_row host now topology_id (node_name node_id) workspace_id db
      (first (attachment_of topology_id (node_name node_id) workspace_id) db.attachments)

abbrev pub others_of {ℓ} : {A : Type ℓ} → (A → Bool) → List A → List A
others_of p xs = select (λ x. not (p x)) xs

abbrev pub blocks : ℕ → Text → TopologyAttachment → Bool
blocks topology_id node_id a = attachment_on topology_id node_id a && not (is_detached a.status)

abbrev bridge_answer : DetachHost → Option Text → Result (Unit {0})
bridge_answer host none = ok tt
bridge_answer host (some name) =
    if host.apply_linux_bridge && is_named (some name) && not (host.bridge_removed (strip name))
    then err TopologyError.delete_failed
    else ok tt

abbrev pub delete_row :
    DetachHost → ℕ → Text → Tables → Option TopologyRuntime → Result (Unit {0}) × Tables
delete_row host topology_id node_id db none = (
  ok tt,
  record db { attachments = others_of (attachment_on topology_id node_id) db.attachments },
)
delete_row host topology_id node_id db (some r) = (
  bridge_answer host r.bridge_name,
  record db {
    attachments = others_of (attachment_on topology_id node_id) db.attachments;
    runtimes = others_of (runtime_on topology_id node_id) db.runtimes;
  },
)

-- The rows go before the bridge, so a bridge that cannot be removed leaves no row.
unfoldable pub delete_topology : DetachHost → ℕ → Text → Tables → Result (Unit {0}) × Tables
unfolding node_name
delete_topology host topology_id node_id db =
    if is_empty (strip node_id)
    then (err TopologyError.delete_failed, db)
    else if any (blocks topology_id (node_name node_id)) db.attachments
    then (err TopologyError.delete_failed, db)
    else delete_row host topology_id (node_name node_id) db
        (first (runtime_on topology_id (node_name node_id)) db.runtimes)

pub record TopologyJanitorResult : Type 0 where
  pub stale_attachments_cleaned : ℕ
  pub orphan_ip_leases_released : ℕ
  pub drift_repairs : ℕ

abbrev is_half_attached : TopologyAttachmentStatus → Bool
is_half_attached TopologyAttachmentStatus.attaching = true
is_half_attached TopologyAttachmentStatus.failed = true
is_half_attached _ = false

abbrev is_terminal : WorkspaceStatus → Bool
is_terminal WorkspaceStatus.stopped = true
is_terminal WorkspaceStatus.error = true
is_terminal WorkspaceStatus.deleted = true
is_terminal _ = false

abbrev pub attached_row : Option TopologyAttachment → Bool
attached_row none = false
attached_row (some a) = is_attached a.status

abbrev pub holds_attached : ℕ → Text → ℕ → Tables → Bool
holds_attached topology_id node_id w db =
    attached_row (first (attachment_of topology_id node_id w) db.attachments)

abbrev pub released_of : ℕ → Text → ℕ → ℕ × Tables → Bool × Tables → ℕ × Tables
released_of topology_id node_id w (n, db) (done, db') =
    if holds_attached topology_id node_id w db
    then (n, db)
    else if done
    then (n + 1, db')
    else (n, db')

module _ (host : DetachHost) (now topology_id : ℕ) (node_id : Text) where
  -- A detached workspace gives its address back.
  abbrev pub after_detach : ℕ → ℕ → Result Bool × Tables → ℕ × Tables
  unfolding release_workspace_ip_lease
  after_detach workspace_id n (err e, db) = (n, db)
  after_detach workspace_id n (ok b, db) =
      (n + 1, (release_workspace_ip_lease now topology_id node_id workspace_id db).1)

  -- `detach_workspace` and `release_workspace_ip_lease` for each workspace of a list, with the
  -- number of those whose detachment went through.
  unfoldable pub detach_each : List ℕ → ℕ → Tables → ℕ × Tables
  unfolding after_detach detach_workspace release_workspace_ip_lease
  detach_each [] n db = (n, db)
  detach_each (w ∷ ws) n db =
      let (n', db') = after_detach w n (detach_workspace host now topology_id node_id w db) in
      detach_each ws n' db'

  -- The leases of workspaces that are not attached.
  unfoldable pub release_orphans : List ℕ → ℕ → Tables → ℕ × Tables
  unfolding release_workspace_ip_lease
  release_orphans [] n db = (n, db)
  release_orphans (w ∷ ws) n db =
      let (m, next) =
        released_of topology_id node_id w (n, db)
          (release_workspace_ip_lease now topology_id node_id w db) in
      release_orphans ws m next

  -- `status_of` is the join with the workspaces.
  module _ (stale_attaching_seconds : ℕ) (status_of : ℕ → Option WorkspaceStatus) where
    abbrev pub stuck_workspaces : Tables → List ℕ
    stuck_workspaces db =
        map (λ (a : TopologyAttachment). a.workspace_id)
          (select
            (λ (a : TopologyAttachment).
              attachment_on topology_id node_id a
              && is_half_attached a.status
              && ltb (a.updated_at + stale_attaching_seconds) now)
            db.attachments)

    abbrev pub leased_workspaces : Tables → List ℕ
    leased_workspaces db =
        map (λ (a : IpAllocation). a.workspace_id)
          (select (active_lease_on topology_id node_id) db.allocations)

    abbrev ended : Option WorkspaceStatus → Bool
    ended none = false
    ended (some s) = is_terminal s

    abbrev pub drifted_workspaces : Tables → List ℕ
    drifted_workspaces db =
        map (λ (a : TopologyAttachment). a.workspace_id)
          (select
            (λ (a : TopologyAttachment).
              attachment_on topology_id node_id a
              && is_attached a.status
              && ended (status_of a.workspace_id))
            db.attachments)

    unfoldable pub janitor_on : Tables → TopologyJanitorResult × Tables
    unfolding detach_each release_orphans
    janitor_on db =
        let (stale, db1) = detach_each (stuck_workspaces db) 0 db in
        let (orphans, db2) = release_orphans (leased_workspaces db1) 0 db1 in
        let (drift, db3) = detach_each (drifted_workspaces db2) 0 db2 in
        (
          record {
            stale_attachments_cleaned = stale;
            orphan_ip_leases_released = orphans;
            drift_repairs = drift;
          },
          db3,
        )

unfoldable pub run_topology_janitor :
    DetachHost
    → ℕ
    → ℕ
    → Text
    → ℕ
    → (ℕ → Option WorkspaceStatus)
    → Tables
    → TopologyJanitorResult × Tables
unfolding janitor_on node_name
run_topology_janitor host now topology_id node_id stale_attaching_seconds status_of db =
    janitor_on host now topology_id (node_name node_id) stale_attaching_seconds status_of db
