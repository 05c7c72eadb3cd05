-- ===== src/Examples/Networks.antt =====
-- A node with the network 10.128.0.0/28, and a rival that leases its first address for workspaces.
use devnest.Base.{
  ℕ, zero, suc, ◌+◌, ◌*◌, ◌≡◌, ◌⊎◌, refl, true, false, none, some, [], ◌∷◌, count, Text, text,
  text_eq, strip, take, arith,
}
use devnest.Topology.Net.{
  absent, v4, Ipv4Network, in_network, workspace_hosts, net_overlaps_any, overlaps,
  iter_pool_child_subnets,
}
use devnest.Topology.Rows.{
  Topology, TopologyRuntimeStatus, TopologyRuntime, IpAllocation, Tables, ok, err, TopologyError,
  node_name, holds_ip,
}
use devnest.Topology.Lease.{
  Others, allocate_workspace_ip, release_workspace_ip_lease, ready_runtime, new_lease,
}
use devnest.Topology.LeaseLaws.{IsUnique}
use devnest.Topology.Allocate.{KeepLeases}
use devnest.Topology.Alone.{active_ip, alone, Leased}
use devnest.Topology.RoundTrip.{allocate_workspace_ip-Leased, release-allocate, allocate-allocate}
use devnest.Topology.Subnet.{allocate_child_subnet, choose_new, list_used_runtime_networks}
use devnest.Topology.SubnetLaws.{Chosen, IsFree, choose_new-IsFree, allocate_child_subnet-finds}
use devnest.Topology.Detach.{DetachHost, run_topology_janitor, delete_topology}
use devnest.Topology.Delete.{Deleted, delete_topology-Deleted}
use devnest.Topology.Settled.{IsSettled}
use devnest.Topology.Janitor.{run_topology_janitor-IsSettled}
use devnest.Topology.Ensure.{BridgeHost, BridgeResult, ensure_node_topology}
use devnest.Topology.Attach.{AttachHost, attach_workspace}
use devnest.Topology.AttachSteps.{AnswerEnds}
use devnest.Topology.AttachLaws.{attach_workspace-Ends}

abbrev pool_start : ℕ
pool_start = 10 * 16777216 + 128 * 65536

abbrev net : Ipv4Network
net = record { network_address = pool_start; prefixlen = 28 }

abbrev gateway : ℕ
gateway = pool_start + 1

abbrev pub node_1 : Text
node_1 = text "node-1"

abbrev runtime : TopologyRuntime
runtime = record {
  topology_id = 1;
  node_id = node_1;
  status = TopologyRuntimeStatus.ready;
  bridge_name = some (text "dn1");
  cidr = v4 net;
  gateway_ip = v4 gateway;
  last_error_code = none;
  last_error_message = none;
  last_checked_at = none;
  updated_at = 0;
}

abbrev pub tables : Tables
tables = record { runtimes = runtime ∷ []; allocations = []; attachments = [] }

pub no_lease-IsUnique : IsUnique []
no_lease-IsUnique = record { one_lease = λ t n w. omega arith; one_holder = λ t n ip. omega arith }

one_lease-IsUnique : (a : IpAllocation) → IsUnique (a ∷ [])
one_lease-IsUnique a = record {
  one_lease = λ t n w. ground arith;
  one_holder = λ t n ip. ground arith;
}

abbrev rival : IpAllocation
rival = new_lease 50 1 node_1 8 (pool_start + 11)

abbrev rival_commits : ℕ → Tables → Tables
rival_commits zero db = record db { allocations = rival ∷ [] }
rival_commits (suc i) db = db

abbrev pub rivals : Others
rivals = record { before = λ i db. db; during = rival_commits }

pub rivals-KeepLeases : KeepLeases rivals
rivals-KeepLeases = record { before_keeps = λ i db u. u; during_keeps = kept }
  where
    kept :
        (i : ℕ) (db : Tables) → IsUnique db.allocations → IsUnique (rival_commits i db).allocations
    kept zero db u = one_lease-IsUnique rival
    kept (suc i) db u = u

-- The first attempt loses the address to the rival, and the second takes another.
second_attempt :
    (allocate_workspace_ip rivals 100 1 node_1 7 tables).0
    ≡ ok (record { workspace_ip = pool_start + 12; leased_existing = false })
unfolding allocate_workspace_ip text_eq strip
second_attempt = refl

allocate_workspace_ip-Leased_example :
    Leased 1
      (node_name node_1)
      7
      net
      gateway
      tables
      (allocate_workspace_ip alone 100 1 node_1 7 tables)
unfolding ready_runtime node_name in_network workspace_hosts text_eq strip
allocate_workspace_ip-Leased_example =
    allocate_workspace_ip-Leased 100 1 node_1 7 tables runtime net gateway 0 (pool_start + 11) refl
      refl refl refl no_lease-IsUnique refl refl refl

release-allocate_example :
    let back =
      release_workspace_ip_lease 200 1 node_1 7
        (allocate_workspace_ip alone 100 1 node_1 7 tables).1 in
    (back.0 ≡ true)
    × ((t : ℕ) (n : Text) (ip : ℕ)
        → count (holds_ip t n ip) back.1.allocations ≡ count (holds_ip t n ip) tables.allocations)
    × (active_ip 1 node_1 7 back.1 ≡ none)
unfolding ready_runtime node_name in_network workspace_hosts text_eq strip
release-allocate_example =
    release-allocate 100 1 node_1 7 tables runtime net gateway 0 (pool_start + 11) refl refl refl
      refl no_lease-IsUnique refl refl refl 200

allocate-allocate_example :
    let out = allocate_workspace_ip alone 100 1 node_1 7 tables in
    (ip : ℕ) × (out.0 ≡ ok (record { workspace_ip = ip; leased_existing = false }))
    × (allocate_workspace_ip alone 200 1 node_1 7 out.1
        ≡ (ok (record { workspace_ip = ip; leased_existing = true }), out.1))
unfolding ready_runtime node_name in_network workspace_hosts text_eq strip
allocate-allocate_example =
    allocate-allocate 100 1 node_1 7 tables runtime net gateway 0 (pool_start + 11) refl refl refl
      refl no_lease-IsUnique refl refl refl 200

choose_new-IsFree_example :
    Chosen
      (IsFree (list_used_runtime_networks 1 (text "node-2") tables.runtimes))
      (choose_new tables.runtimes 1 (text "node-2") absent absent 0)
choose_new-IsFree_example = choose_new-IsFree tables.runtimes 1 (text "node-2") absent absent 0

abbrev second_child : Ipv4Network
second_child = record { network_address = pool_start + 4096; prefixlen = 20 }

allocate_child_subnet-finds_example :
    (child : Ipv4Network) × (allocate_child_subnet tables.runtimes 1 (text "node-2") 3 ≡ ok child)
    × (net_overlaps_any child (list_used_runtime_networks 1 (text "node-2") tables.runtimes)
        ≡ false)
unfolding iter_pool_child_subnets net_overlaps_any overlaps list_used_runtime_networks text_eq
allocate_child_subnet-finds_example =
    allocate_child_subnet-finds tables.runtimes 1 (text "node-2") 3 1 second_child refl refl

abbrev pub detach_host : DetachHost
detach_host = record {
  apply_linux_attachment = true;
  apply_linux_bridge = true;
  veth_removed = λ a. true;
  veth_os_error = λ a. false;
  bridge_removed = λ name. true;
}

abbrev pub leased_tables : Tables
leased_tables = record tables { allocations = rival ∷ [] }

run_topology_janitor-IsSettled_example :
    IsUnique
      (run_topology_janitor detach_host 900 1 node_1 600 (λ w. none) leased_tables).1.allocations
    × ((w : ℕ)
        → IsSettled 1 node_1
            (run_topology_janitor detach_host 900 1 node_1 600 (λ w. none) leased_tables).1
            w)
unfolding node_name strip
run_topology_janitor-IsSettled_example =
    run_topology_janitor-IsSettled detach_host 900 1 node_1 600 (λ w. none) leased_tables refl
      (one_lease-IsUnique rival)

-- The commands on the host fail after the row has been written.
abbrev pub attach_host : AttachHost
attach_host = record {
  apply_linux_attachment = true;
  netns_ok = λ r. true;
  nsenter_ok = true;
  veth_pair_names = λ t n w. (text "vh1", text "vc1");
  plumbing_verified = λ a. true;
  plumbing_ok_after = true;
  linux_attached = false;
  linux_os_error = false;
  plumbing_os_error_after = false;
  persists_attaching = true;
  persists_attached = true;
  persists_failed = true;
  persists_release = true;
}

abbrev bridge_host : BridgeHost
bridge_host = record {
  apply_linux_bridge = false;
  bridge_result = λ r. BridgeResult.done;
  bridge_name_for = λ t n. text "dn1";
}

abbrev topology : Topology
topology = record {
  topology_id = 1;
  mode = some (text "node_bridge");
  cidr = absent;
  gateway_ip = absent;
  bridge_name = none;
}

attach_workspace-Ends_example :
    let out =
      attach_workspace bridge_host attach_host alone
        (topology ∷ [])
        300
        1
        node_1
        8
        (text "c1")
        (text "/proc/7/ns/net")
        (pool_start + 11)
        leased_tables in
    ((out.tables ≡ leased_tables) × (out.answer ≡ err TopologyError.attachment_failed))
    ⊎ AnswerEnds 300 1
        (node_name node_1)
        8
        (pool_start + 11)
        (take 128 (strip (text "c1")))
        (ensure_node_topology bridge_host alone
          (topology ∷ [])
          300
          1
          (node_name node_1)
          leased_tables).1
        out.tables
        out.answer
attach_workspace-Ends_example =
    attach_workspace-Ends bridge_host attach_host alone (topology ∷ []) 300 1 node_1 8 (text "c1")
      (text "/proc/7/ns/net") (pool_start + 11) leased_tables refl

delete_topology-Deleted_example :
    (delete_topology detach_host 1 node_1 leased_tables
      ≡ (err TopologyError.delete_failed, leased_tables))
    ⊎ Deleted 1
        (node_name node_1)
        leased_tables
        (delete_topology detach_host 1 node_1 leased_tables).1
delete_topology-Deleted_example = delete_topology-Deleted detach_host 1 node_1 leased_tables
