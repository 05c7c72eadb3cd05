-- ===== src/Topology/Attach.antt =====
-- `attach_workspace` and `_attach_failure_best_effort` of
-- backend/app/libs/topology/db_topology_adapter.py. The commands on the host, the check of the
-- reference to the network namespace, and whether a commit goes through are parameters. An `OSError` of
-- a check before the first commit, which leaves the tables alone, is left out.
use devnest.Base.{
  ℕ, Bool, true, false, not, ◌&&◌, ◌||◌, Option, none, some, List, [], ◌∷◌, ◌++◌, if◌then◌else◌,
  ◌==◌, first, update_first, take, is_empty, strip, Text, text_eq,
}
use devnest.Topology.Net.{IpText, v4, is_filled, Ipv4Network, in_network}
use devnest.Topology.Rows.{
  TopologyAttachmentStatus, TopologyRuntime, Topology, IpAllocation, TopologyAttachment, Tables,
  TopologyError, Result, ok, err, node_name, is_ready, is_attached, is_named, runtime_on,
  active_lease_of, attachment_of,
}
use devnest.Topology.Lease.{Others}
use devnest.Topology.Ensure.{BridgeHost, ensure_node_topology}

pub record AttachHost : Type 0 where
  pub apply_linux_attachment : Bool
  -- `validate_netns_ref` accepts the reference, and the configuration of `nsenter` is sound
  pub netns_ok : Text → Bool
  pub nsenter_ok : Bool
  -- `_veth_pair_names`
  pub veth_pair_names : ℕ → Text → ℕ → Text × Text
  -- the host's plumbing is in place, for the row that says so and after the commit
  pub plumbing_verified : TopologyAttachment → Bool
  pub plumbing_ok_after : Bool
  -- `_run_linux_attach` returns
  pub linux_attached : Bool
  -- where it does not, it raises `OSError`, as where the host has no `ip`, which no clause catches;
  -- and the check after the commit raises it
  pub linux_os_error : Bool
  pub plumbing_os_error_after : Bool
  -- the commits of the row as attaching, as attached and as failed go through
  pub persists_attaching : Bool
  pub persists_attached : Bool
  pub persists_failed : Bool
  pub persists_release : Bool

-- A failure comes with the tables that it leaves.
pub record Attempted : Type 0 where
  pub answer : Result ℕ
  pub tables : Tables

abbrev refused : TopologyError → Tables → Attempted
refused e db = record { answer = err e; tables = db }

abbrev pub set_status : ℕ → TopologyAttachmentStatus → TopologyAttachment → TopologyAttachment
set_status now status a = record a { status = status; updated_at = now }

module _ (now t : ℕ) (n : Text) (w ip : ℕ) (container_id : Text) where
  abbrev pub mark_attachment : TopologyAttachmentStatus → Tables → Tables
  mark_attachment status db = record db {
    attachments = update_first (attachment_of t n w) (set_status now status) db.attachments;
  }

  abbrev is_lease : IpAllocation → Bool
  is_lease a = active_lease_of t n w a

  abbrev pub release_if_same : Option IpAllocation → Tables → Tables
  release_if_same none db = db
  release_if_same (some a) db =
      if a.ip == ip
      then record db {
        allocations =
            update_first is_lease (λ (b : IpAllocation). record b { released_at = some now })
              db.allocations;
      }
      else db

  -- The row is marked failed, and a lease is given back where this call made the row.
  unfoldable pub attach_failure_best_effort : AttachHost → Bool → Tables → Tables
  attach_failure_best_effort host release_ip db =
      let marked =
        if host.persists_failed then mark_attachment TopologyAttachmentStatus.failed db else db in
      if release_ip && host.persists_release
      then release_if_same (first is_lease marked.allocations) marked
      else marked

  abbrev as_attaching : TopologyRuntime → Text × Text → TopologyAttachment → TopologyAttachment
  as_attaching r (host_if, ctr_if) a = record a {
    container_id = some container_id;
    workspace_ip = some ip;
    bridge_name = r.bridge_name;
    gateway_ip = elim r.gateway_ip [ v4 g ↦ some g | _ ↦ none ];
    interface_host = some host_if;
    interface_container = some ctr_if;
    status = TopologyAttachmentStatus.attaching;
    updated_at = now;
  }

  abbrev blank_attachment : TopologyAttachment
  blank_attachment = record {
    topology_id = t;
    node_id = n;
    workspace_id = w;
    container_id = none;
    status = TopologyAttachmentStatus.attaching;
    workspace_ip = none;
    interface_host = none;
    interface_container = none;
    bridge_name = none;
    gateway_ip = none;
    updated_at = now;
  }

  abbrev pub write_attaching :
      TopologyRuntime → Text × Text → Option TopologyAttachment → Tables → Tables
  write_attaching r names none db = record db {
    attachments = db.attachments ++ as_attaching r names blank_attachment ∷ [];
  }
  write_attaching r names (some a) db = record db {
    attachments = update_first (attachment_of t n w) (as_attaching r names) db.attachments;
  }

  abbrev failed_after : AttachHost → Bool → Tables → Attempted
  unfolding attach_failure_best_effort
  failed_after host was_new db =
      refused TopologyError.attachment_failed (attach_failure_best_effort host was_new db)

  -- From the row that is attaching to the one that is attached.
  unfoldable pub finish_attach : AttachHost → Bool → Tables → Attempted
  unfolding attach_failure_best_effort
  finish_attach host was_new db =
      let attached = mark_attachment TopologyAttachmentStatus.attached db in
      if host.apply_linux_attachment && not host.linux_attached
      then (if host.linux_os_error
          then refused TopologyError.os_error db
          else failed_after host was_new db)
      else if not host.persists_attached
      then failed_after host was_new db
      else if host.apply_linux_attachment && host.plumbing_os_error_after
      then refused TopologyError.os_error attached
      else if host.apply_linux_attachment && not host.plumbing_ok_after
      then failed_after host was_new attached
      else record { answer = ok ip; tables = attached }

  abbrev is_new : Option TopologyAttachment → Bool
  is_new none = true
  is_new (some a) = false

  unfoldable pub start_attach :
      AttachHost → TopologyRuntime → Option TopologyAttachment → Tables → Attempted
  unfolding finish_attach
  start_attach host r row db =
      if host.persists_attaching
      then finish_attach host (is_new row) (write_attaching r (host.veth_pair_names t n w) row db)
      else refused TopologyError.attachment_failed db

  abbrev pub text_is : Text → Option Text → Bool
  text_is x none = is_empty x
  text_is x (some y) = text_eq y x

  abbrev pub ip_is : Option ℕ → Bool
  ip_is none = false
  ip_is (some i) = i == ip

  -- The row is attached already, to this container and with this address, and the host agrees.
  abbrev pub in_place : AttachHost → Option TopologyAttachment → Bool
  in_place host none = false
  in_place host (some a) =
      is_attached a.status
      && text_is container_id a.container_id
      && ip_is a.workspace_ip
      && (not host.apply_linux_attachment || host.plumbing_verified a)

  abbrev pub netns_accepted : AttachHost → Text → Bool
  netns_accepted host netns_ref =
      if host.apply_linux_attachment
      then host.netns_ok netns_ref && host.nsenter_ok
      else not (is_empty (strip netns_ref))

  abbrev pub lease_is_ip : Option IpAllocation → Bool
  lease_is_ip none = false
  lease_is_ip (some a) = a.ip == ip

  unfoldable pub in_cidr : IpText Ipv4Network → Bool
  unfolding in_network
  in_cidr (v4 net) = in_network ip net
  in_cidr _ = false

  unfoldable pub attach_on : AttachHost → Text → Tables → Option TopologyRuntime → Attempted
  unfolding start_attach in_network in_cidr
  attach_on host netns_ref db none = refused TopologyError.runtime_not_found db
  attach_on host netns_ref db (some r) =
      let row = first (attachment_of t n w) db.attachments in
      if not (is_ready r.status)
      then refused TopologyError.attachment_failed db
      else if not (is_named r.bridge_name && is_filled r.cidr && is_filled r.gateway_ip)
      then refused TopologyError.attachment_failed db
      else if not (lease_is_ip (first is_lease db.allocations) && in_cidr r.cidr)
      then refused TopologyError.attachment_failed db
      else if not (netns_accepted host netns_ref)
      then refused TopologyError.attachment_failed db
      else if in_place host row
      then record { answer = ok ip; tables = db }
      else start_attach host r row db

unfoldable pub attach_ensured :
    AttachHost → ℕ → ℕ → Text → ℕ → Text → Text → ℕ → Result TopologyRuntime × Tables → Attempted
unfolding attach_on
attach_ensured host now t n w container_id netns_ref ip (err e, db) = refused e db
attach_ensured host now t n w container_id netns_ref ip (ok r, db) =
    attach_on now t n w ip container_id host netns_ref db (first (runtime_on t n) db.runtimes)

-- `workspace_ip` is an IPv4 address; any other text matches no lease.
unfoldable pub attach_workspace :
    BridgeHost
    → AttachHost
    → Others
    → List Topology
    → ℕ
    → ℕ
    → Text
    → ℕ
    → Text
    → Text
    → ℕ
    → Tables
    → Attempted
unfolding attach_ensured ensure_node_topology node_name
attach_workspace bridge host others topologies now t node_id w container_id netns_ref ip db =
    if is_empty (strip container_id)
    then refused TopologyError.attachment_failed db
    else attach_ensured host now t (node_name node_id) w (take 128 (strip container_id)) netns_ref
        ip (ensure_node_topology bridge others topologies now t (node_name node_id) db)
