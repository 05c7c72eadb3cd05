-- ===== src/Topology/Allocate.antt =====
-- `allocate_workspace_ip` of backend/app/libs/topology/db_topology_adapter.py, with and without
-- other workers.
use devnest.Base.{
  ℕ, zero, suc, ◌+◌, Option, none, some, List, leb, length, Text, Bool-cases, inl, inr,
}
use devnest.Topology.Net.{pick_first_free_host}
use devnest.Topology.Rows.{
  TopologyRuntime, IpAllocation, Tables, Result, ok, err, node_name, is_null,
}
use devnest.Topology.Lease.{
  used_ips, scan_offset, Attempt, returned, integrity_error, is_unique, write_lease, commit_lease,
  commit_choice, attempt_on, after_attempt, allocate_on, Allocated, choose_and_commit,
  lease_attempt, allocate_workspace_ip_attempt, Others, allocate_loop, allocate_workspace_ip,
  ready_runtime, iter_candidate_workspace_hosts, allocate_ip_max_attempts,
}
use devnest.Topology.LeaseLaws.{IsUnique, write_lease-IsUnique}

-- What holds of the tables where an attempt returns.
abbrev Keeps : (Tables → Type 0) → Attempt → Type 0
Keeps P (returned r db) = P db
Keeps P integrity_error = Unit

abbrev Leases : Tables → Type 0
Leases db = IsUnique db.allocations

module _ (now t : ℕ) (n : Text) (w : ℕ) where
  commit_lease-Keeps :
      (ip : ℕ) (row : Option IpAllocation) (db : Tables)
      → Leases db
      → Keeps Leases (commit_lease now t n w ip row db)
  unfolding commit_lease
  commit_lease-Keeps ip row db u =
      elim (Bool-cases (is_unique t n w ip (write_lease now t n w ip row db.allocations))) [
        | inl e ↦ rw e (write_lease-IsUnique now t n w ip row db.allocations u e)
        | inr e ↦ rw e tt
      ]

  choose_and_commit-Keeps :
      (i : ℕ) (row : Option IpAllocation) (hosts : Result (List ℕ)) (read db : Tables)
      → Leases db
      → Keeps Leases (choose_and_commit now t n w i row hosts read db)
  unfolding choose_and_commit
  choose_and_commit-Keeps i row (err e) read db u = u
  choose_and_commit-Keeps i row (ok hosts) read db u = chosen (
      pick_first_free_host hosts (used_ips t n read.allocations) (scan_offset i n w (length hosts)))
    where
      chosen : (o : Option ℕ) → Keeps Leases (commit_choice now t n w o row db)
      chosen none = u
      chosen (some ip) = commit_lease-Keeps ip row db u

  lease_attempt-Keeps :
      (i : ℕ) (runtime : TopologyRuntime) (row : Option IpAllocation) (read db : Tables)
      → Leases db
      → Keeps Leases (lease_attempt now t n w i runtime row read db)
  unfolding lease_attempt
  lease_attempt-Keeps i runtime none read db u = choose_and_commit-Keeps i none _ read db u
  lease_attempt-Keeps i runtime (some a) read db u = elim (Bool-cases (is_null a.released_at)) [
    | inl e ↦ rw e u
    | inr e ↦ rw e (
        choose_and_commit-Keeps i (some a)
          (iter_candidate_workspace_hosts runtime.cidr runtime.gateway_ip) read db u)
  ]

  attempt-Keeps :
      (i : ℕ) (r : Result TopologyRuntime) (read db : Tables)
      → Leases db
      → Keeps Leases (attempt_on now t n w i r read db)
  unfolding attempt_on
  attempt-Keeps i (err e) read db u = u
  attempt-Keeps i (ok runtime) read db u = lease_attempt-Keeps i runtime _ read db u

-- The other workers keep the two unique indices.
pub record KeepLeases (others : Others) : Type 0 where
  pub before_keeps :
      (i : ℕ) (db : Tables) → IsUnique db.allocations → IsUnique (others.before i db).allocations
  pub during_keeps :
      (i : ℕ) (db : Tables) → IsUnique db.allocations → IsUnique (others.during i db).allocations

after_attempt-Leases :
    (i : ℕ) (db : Tables) (retry : Allocated) (r : Result TopologyRuntime) (a : Attempt)
    → Leases db
    → Leases retry.1
    → Keeps Leases a
    → Leases (after_attempt i db retry r a).1
after_attempt-Leases i db retry r (returned x db') u v k = k
after_attempt-Leases i db retry (err e) integrity_error u v k = u
after_attempt-Leases i db retry (ok runtime) integrity_error u v k =
    elim (Bool-cases (leb allocate_ip_max_attempts (i + 1))) [ inl e ↦ rw e u | inr e ↦ rw e v ]

allocate_loop-Leases :
    (others : Others) (now t : ℕ) (n : Text) (w attempts i : ℕ) (db : Tables)
    → KeepLeases others
    → Leases db
    → Leases (allocate_loop others now t n w attempts i db).1
unfolding allocate_loop allocate_workspace_ip_attempt
allocate_loop-Leases others now t n w zero i db k u = u
allocate_loop-Leases others now t n w (suc attempts) i db k u =
    let read = others.before i db in
    let met = others.during i read in
    let kept = k.during_keeps i read (k.before_keeps i db u) in
    after_attempt-Leases i met _ (ready_runtime t n met)
      (allocate_workspace_ip_attempt now t n w i read met) kept
      (allocate_loop-Leases others now t n w attempts (i + 1) met k kept)
      (attempt-Keeps now t n w i (ready_runtime t n read) read met kept)

-- No row of leases is doubled and no address has two holders after a call, whatever the other
-- workers commit between its reads and its writes, if they keep the two unique indices themselves.
pub allocate_workspace_ip-IsUnique :
    (others : Others) (now t : ℕ) (node_id : Text) (w : ℕ) (db : Tables)
    → KeepLeases others
    → IsUnique db.allocations
    → IsUnique (allocate_workspace_ip others now t node_id w db).1.allocations
unfolding allocate_workspace_ip
allocate_workspace_ip-IsUnique others now t node_id w db k u =
    by_runtime (ready_runtime t (node_name node_id) db)
  where
    by_runtime :
        (r : Result TopologyRuntime)
        → IsUnique (allocate_on others now t (node_name node_id) w db r).1.allocations
    by_runtime (err e) = u
    by_runtime (ok r) =
        allocate_loop-Leases others now t (node_name node_id) w allocate_ip_max_attempts 0 db k u
