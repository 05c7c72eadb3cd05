-- ===== src/Topology/Unique.antt =====
-- Detaching and the network of a node, of
-- backend/app/libs/topology/db_topology_adapter.py, keep the unique indices of the leases,
-- whatever the other workers commit in between, if they keep them too.
use devnest.Base.{
  ℕ, zero, suc, ◌+◌, Bool, true, false, not, ◌&&◌, Option, none, some, List, ◌==◌, if◌then◌else◌,
  leb, first, is_empty, strip, Text, Bool-cases, Option-cases, inl, inr,
}
use devnest.Topology.Net.{Ipv4Network}
use devnest.Topology.Rows.{
  TopologyRuntime, TopologyAttachment, Topology, Tables, Result, ok, err, node_name, is_detached,
  runtime_on,
}
use devnest.Topology.Lease.{Others}
use devnest.Topology.LeaseLaws.{IsUnique}
use devnest.Topology.Allocate.{KeepLeases}
use devnest.Topology.Ensure.{
  is_complete, BridgeHost, BridgePlan, EnsureRound, settled, failed_with, conflict, commit_runtime,
  ensure_round, after_round, ensure_loop, sync_runtime, sync_after, ensure_row, ensure_planned,
  ensure_node_topology,
}
use devnest.Topology.Detach.{DetachHost, detach_row, detach_workspace}

abbrev pub Leases : Tables → Type 0
Leases db = IsUnique db.allocations

pub if-Leases : (b : Bool) (x y : Tables) → Leases x → Leases y → Leases (if b then x else y)
if-Leases true x y u v = u
if-Leases false x y u v = v

detach_row-IsUnique :
    (host : DetachHost) (now t : ℕ) (n : Text) (w : ℕ) (db : Tables) (o : Option TopologyAttachment)
    → Leases db
    → Leases (detach_row host now t n w db o).1
unfolding detach_row
detach_row-IsUnique host now t n w db none u = u
detach_row-IsUnique host now t n w db (some a) u = elim (Bool-cases (is_detached a.status)) [
  | inl e ↦ rw e u
  | inr e ↦ rw e (elim (Bool-cases (host.apply_linux_attachment && not (host.veth_removed a))) [
    | inl f ↦ rw f u
    | inr f ↦ rw f u
  ])
]

pub detach_workspace-IsUnique :
    (host : DetachHost) (now t : ℕ) (n : Text) (w : ℕ) (db : Tables)
    → Leases db
    → Leases (detach_workspace host now t n w db).1
unfolding detach_workspace
detach_workspace-IsUnique host now t n w db u =
    detach_row-IsUnique host now t (node_name n) w db _ u

abbrev RoundLeases : EnsureRound → Type 0
RoundLeases (settled db) = Leases db
RoundLeases (failed_with e) = Unit
RoundLeases conflict = Unit

abbrev Ensured : Result Tables × Tables → Type 0
Ensured (ok db', db) = Leases db'
Ensured (err e, db) = Leases db

module _ (now t : ℕ) (n : Text) (plan : BridgePlan) where
  commit_runtime-IsUnique :
      (o : Option TopologyRuntime) (c : Result (Ipv4Network × ℕ)) (db : Tables)
      → Leases db
      → RoundLeases (commit_runtime now t n plan o c db)
  unfolding commit_runtime
  commit_runtime-IsUnique o (err e) db u = tt
  commit_runtime-IsUnique o (ok (net, gateway)) db u = if-Round _ _ u
    where
      if-Round :
          (b : Bool) (x : Tables) → Leases x → RoundLeases (if b then settled x else conflict)
      if-Round true x v = v
      if-Round false x v = tt

  ensure_round-IsUnique :
      (i : ℕ) (read db : Tables) → Leases db → RoundLeases (ensure_round now t n plan i read db)
  unfolding ensure_round
  ensure_round-IsUnique i read db u =
      let existing = first (runtime_on t n) read.runtimes in
      elim (Bool-cases (is_complete existing)) [
        | inl e ↦ rw e u
        | inr e ↦ rw e (commit_runtime-IsUnique existing _ db u)
      ]

  after_round-IsUnique :
      (i : ℕ) (db : Tables) (retry : Result Tables × Tables) (r : EnsureRound)
      → Leases db
      → Ensured retry
      → RoundLeases r
      → Ensured (after_round now t n plan i db retry r)
  unfolding after_round
  after_round-IsUnique i db retry (settled x) u v h = h
  after_round-IsUnique i db retry (failed_with e) u v h = u
  after_round-IsUnique i db retry conflict u v h = elim (Bool-cases (leb 16 (i + 1))) [
    | inl e ↦ rw e u
    | inr e ↦ rw e v
  ]

  ensure_loop-IsUnique :
      (others : Others) (rounds i : ℕ) (db : Tables)
      → KeepLeases others
      → Leases db
      → Ensured (ensure_loop now t n plan others rounds i db)
  unfolding ensure_loop
  ensure_loop-IsUnique others zero i db k u = u
  ensure_loop-IsUnique others (suc rounds) i db k u =
      let read = others.before i db in
      let met = others.during i read in
      let kept = k.during_keeps i read (k.before_keeps i db u) in
      after_round-IsUnique i met _ (ensure_round now t n plan i read met) kept
        (ensure_loop-IsUnique others rounds (i + 1) met k kept)
        (ensure_round-IsUnique i read met kept)

sync_runtime-IsUnique :
    (host : BridgeHost) (now t : ℕ) (n : Text) (db : Tables)
    → Leases db
    → Leases (sync_runtime host now t n db).1
unfolding sync_runtime
sync_runtime-IsUnique host now t n db u = elim (Option-cases (first (runtime_on t n) db.runtimes)) [
  | inl e ↦ rw (e, sync_runtime) u
  | inr (r, e) ↦ rw (e, sync_runtime) u
]

ensure_planned-IsUnique :
    (host : BridgeHost) (others : Others) (now t : ℕ) (n : Text) (db : Tables)
    (plan : Result BridgePlan)
    → KeepLeases others
    → Leases db
    → Leases (ensure_planned host others now t n db plan).1
unfolding ensure_planned ensure_row
ensure_planned-IsUnique host others now t n db (err e) k u = u
ensure_planned-IsUnique host others now t n db (ok plan) k u =
    if-pair _ _ _ (sync_runtime-IsUnique host now t n db u) (
      after (ensure_loop now t n plan others 16 0 db)
        (ensure_loop-IsUnique now t n plan others 16 0 db k u))
  where
    if-pair :
        (b : Bool) (x y : Result TopologyRuntime × Tables)
        → Leases x.1
        → Leases y.1
        → Leases (if b then x else y).1
    if-pair true x y h j = h
    if-pair false x y h j = j

    after : (x : Result Tables × Tables) → Ensured x → Leases (sync_after host now t n x).1
    after (ok db', d) h = sync_runtime-IsUnique host now t n db' h
    after (err e, d) h = h

pub ensure_node_topology-IsUnique :
    (host : BridgeHost) (others : Others) (topologies : List Topology) (now t : ℕ) (n : Text)
    (db : Tables)
    → KeepLeases others
    → Leases db
    → Leases (ensure_node_topology host others topologies now t n db).1
unfolding ensure_node_topology
ensure_node_topology-IsUnique host others topologies now t n db k u =
    elim (Bool-cases (is_empty (strip n))) [
      | inl e ↦ rw e u
      | inr e ↦
          rw e (elim (Option-cases (first (λ (x : Topology). x.topology_id == t) topologies)) [
            | inl f ↦ rw f u
            | inr (x, f) ↦ rw f (ensure_planned-IsUnique host others now t (node_name n) db _ k u)
          ])
    ]
