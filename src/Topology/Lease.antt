-- ===== src/Topology/Lease.antt =====
-- The leases of workspace addresses: `allocate_workspace_ip`, `_allocate_workspace_ip_attempt` and
-- `release_workspace_ip_lease` of backend/app/libs/topology/db_topology_adapter.py. An attempt reads
-- the tables, and its commit meets what the other workers have committed since.
use devnest.Base.{
  ℕ, zero, suc, ◌+◌, ◌*◌, ◌%◌, Bool, true, false, not, ◌&&◌, ◌||◌, Option, none, some, List, [],
  ◌∷◌, ◌++◌, map, if◌then◌else◌, leb, ◌==◌, length, count, first, select, update_first, Text,
}
use devnest.Topology.Net.{
  IpText, absent, v6, v4, Ipv4Network, in_network, workspace_hosts, pick_first_free_host,
}
use devnest.Topology.Rows.{
  TopologyRuntime, IpAllocation, Tables, TopologyError, Result, ok, err, node_name, is_ready,
  runtime_on, sum_codes, active_lease_on, active_lease_of, lease_of, holds_ip, is_null,
}

pub record AllocateWorkspaceIpResult : Type 0 where
  pub workspace_ip : ℕ
  pub leased_existing : Bool

abbrev is_absent {ℓ} : {A : Type ℓ} → IpText A → Bool
is_absent absent = true
is_absent _ = false

-- The runtime row, ready and with both texts, which each attempt and each retry asks for.
unfoldable pub ready_runtime : ℕ → Text → Tables → Result TopologyRuntime
ready_runtime topology_id node_id db = elim (first (runtime_on topology_id node_id) db.runtimes) [
  | none ↦ err TopologyError.runtime_not_found
  | some r ↦
      if not (is_ready r.status) || (is_absent r.cidr || is_absent r.gateway_ip)
      then err TopologyError.ip_allocation
      else ok r
]

-- `ip_network` refuses the network with a `ValueError`; a gateway that is not an IPv4 address of
-- the network is an allocation error.
unfoldable pub iter_candidate_workspace_hosts : IpText Ipv4Network → IpText ℕ → Result (List ℕ)
unfolding in_network workspace_hosts
iter_candidate_workspace_hosts (v4 net) (v4 gateway) =
    if in_network gateway net
    then ok (workspace_hosts net gateway)
    else err TopologyError.ip_allocation
iter_candidate_workspace_hosts (v4 net) gateway = err TopologyError.ip_allocation
iter_candidate_workspace_hosts v6 gateway = err TopologyError.ip_allocation
iter_candidate_workspace_hosts cidr gateway = err TopologyError.value_error

abbrev pub used_ips : ℕ → Text → List IpAllocation → List ℕ
used_ips topology_id node_id rows =
    map (λ (a : IpAllocation). a.ip) (select (active_lease_on topology_id node_id) rows)

abbrev pub scan_offset : ℕ → Text → ℕ → ℕ → ℕ
scan_offset retry_index node_id workspace_id n =
    if retry_index == 0
    then 0
    else (retry_index * 10007 + workspace_id * 31 + sum_codes node_id) % n

-- An attempt returns, with the tables after it, or its commit raises an `IntegrityError`.
pub data Attempt : Type 0 where
  returned : Result AllocateWorkspaceIpResult → Tables → Attempt
  integrity_error : Attempt

-- The two unique constraints on leases, at the tuple of the row that was written.
abbrev pub is_unique : ℕ → Text → ℕ → ℕ → List IpAllocation → Bool
is_unique topology_id node_id workspace_id ip rows =
    leb (count (lease_of topology_id node_id workspace_id) rows) 1
    && leb (count (holds_ip topology_id node_id ip) rows) 1

abbrev pub renew : ℕ → ℕ → IpAllocation → IpAllocation
renew now ip a = record a { ip = ip; leased_at = now; released_at = none }

abbrev pub new_lease : ℕ → ℕ → Text → ℕ → ℕ → IpAllocation
new_lease now topology_id node_id workspace_id ip = record {
  node_id = node_id;
  topology_id = topology_id;
  workspace_id = workspace_id;
  ip = ip;
  leased_at = now;
  released_at = none;
}

-- The row that the attempt has read is updated, or a row is inserted.
abbrev pub write_lease :
    ℕ → ℕ → Text → ℕ → ℕ → Option IpAllocation → List IpAllocation → List IpAllocation
write_lease now topology_id node_id workspace_id ip none rows =
    rows ++ new_lease now topology_id node_id workspace_id ip ∷ []
write_lease now topology_id node_id workspace_id ip (some a) rows =
    update_first (lease_of topology_id node_id workspace_id) (renew now ip) rows

module _ (now topology_id : ℕ) (node_id : Text) (workspace_id : ℕ) where
  unfoldable pub commit_lease : ℕ → Option IpAllocation → Tables → Attempt
  commit_lease ip row db =
      let rows = write_lease now topology_id node_id workspace_id ip row db.allocations in
      if is_unique topology_id node_id workspace_id ip rows
      then returned (ok (record { workspace_ip = ip; leased_existing = false }))
          (record db { allocations = rows })
      else integrity_error

  unfoldable pub commit_choice : Option ℕ → Option IpAllocation → Tables → Attempt
  unfolding commit_lease
  commit_choice none row db = returned (err TopologyError.ip_allocation) db
  commit_choice (some ip) row db = commit_lease ip row db

  -- The choice of an address among the candidates, and its commit.
  unfoldable pub choose_and_commit :
      ℕ → Option IpAllocation → Result (List ℕ) → Tables → Tables → Attempt
  unfolding pick_first_free_host commit_choice
  choose_and_commit retry_index row (err e) read db = returned (err e) db
  choose_and_commit retry_index row (ok candidates) read db =
      commit_choice
        (pick_first_free_host candidates (used_ips topology_id node_id read.allocations)
          (scan_offset retry_index node_id workspace_id (length candidates)))
        row db

  unfoldable pub lease_attempt :
      ℕ → TopologyRuntime → Option IpAllocation → Tables → Tables → Attempt
  unfolding choose_and_commit iter_candidate_workspace_hosts
  lease_attempt retry_index runtime none read db =
      choose_and_commit retry_index none
        (iter_candidate_workspace_hosts runtime.cidr runtime.gateway_ip) read db
  lease_attempt retry_index runtime (some a) read db =
      if is_null a.released_at
      then returned (ok (record { workspace_ip = a.ip; leased_existing = true })) db
      else choose_and_commit retry_index (some a)
          (iter_candidate_workspace_hosts runtime.cidr runtime.gateway_ip) read db

  unfoldable pub attempt_on : ℕ → Result TopologyRuntime → Tables → Tables → Attempt
  unfolding lease_attempt
  attempt_on retry_index (err e) read db = returned (err e) db
  attempt_on retry_index (ok runtime) read db =
      lease_attempt retry_index runtime
        (first (lease_of topology_id node_id workspace_id) read.allocations) read db

  -- `read` is what the attempt's queries see, `db` what its commit meets.
  unfoldable pub allocate_workspace_ip_attempt : ℕ → Tables → Tables → Attempt
  unfolding attempt_on ready_runtime
  allocate_workspace_ip_attempt retry_index read db =
      attempt_on retry_index (ready_runtime topology_id node_id read) read db

abbrev pub allocate_ip_max_attempts : ℕ
allocate_ip_max_attempts = 24

-- What the other workers commit before an attempt reads, and between its reads and its commit.
pub record Others : Type 0 where
  pub before : ℕ → Tables → Tables
  pub during : ℕ → Tables → Tables

abbrev pub Allocated : Type 0
Allocated = Result AllocateWorkspaceIpResult × Tables

-- After a conflict the runtime is asked for again, and the last attempt gives up.
abbrev pub after_conflict : ℕ → Tables → Allocated → Result TopologyRuntime → Allocated
after_conflict attempt db retry (err e) = (err e, db)
after_conflict attempt db retry (ok runtime) =
    if leb allocate_ip_max_attempts (attempt + 1)
    then (err TopologyError.ip_allocation, db)
    else retry

abbrev pub after_attempt : ℕ → Tables → Allocated → Result TopologyRuntime → Attempt → Allocated
after_attempt attempt db retry runtime (returned r db') = (r, db')
after_attempt attempt db retry runtime integrity_error = after_conflict attempt db retry runtime

unfoldable pub allocate_loop : Others → ℕ → ℕ → Text → ℕ → ℕ → ℕ → Tables → Allocated
unfolding allocate_workspace_ip_attempt
allocate_loop others now topology_id node_id workspace_id zero attempt db =
    (err TopologyError.ip_allocation, db)
allocate_loop others now topology_id node_id workspace_id (suc attempts) attempt db =
    let read = others.before attempt db in
    let met = others.during attempt read in
    let retry =
      allocate_loop others now topology_id node_id workspace_id attempts (attempt + 1) met in
    after_attempt attempt met retry (ready_runtime topology_id node_id met)
      (allocate_workspace_ip_attempt now topology_id node_id workspace_id attempt read met)

unfoldable pub allocate_on : Others → ℕ → ℕ → Text → ℕ → Tables → Result TopologyRuntime → Allocated
unfolding allocate_loop
allocate_on others now topology_id node_id workspace_id db (err e) = (err e, db)
allocate_on others now topology_id node_id workspace_id db (ok runtime) =
    allocate_loop others now topology_id node_id workspace_id allocate_ip_max_attempts 0 db

unfoldable pub allocate_workspace_ip : Others → ℕ → ℕ → Text → ℕ → Tables → Allocated
unfolding allocate_on node_name ready_runtime
allocate_workspace_ip others now topology_id node_id workspace_id db =
    allocate_on others now topology_id (node_name node_id) workspace_id db
      (ready_runtime topology_id (node_name node_id) db)

unfoldable pub release_lease : ℕ → ℕ → Text → ℕ → Tables → Bool × Tables
release_lease now topology_id node_id workspace_id db =
    elim (first (active_lease_of topology_id node_id workspace_id) db.allocations) [
      | none ↦ (false, db)
      | some a ↦ (
        true,
        record db {
          allocations =
              update_first (active_lease_of topology_id node_id workspace_id)
                (λ (b : IpAllocation). record b { released_at = some now }) db.allocations;
        },
      )
    ]

-- `false`, and nothing is written, where the workspace has no active lease. A commit that fails is
-- left out.
unfoldable pub release_workspace_ip_lease : ℕ → ℕ → Text → ℕ → Tables → Bool × Tables
unfolding node_name release_lease
release_workspace_ip_lease now topology_id node_id workspace_id db =
    release_lease now topology_id (node_name node_id) workspace_id db
