-- ===== src/Topology/RoundTrip.antt =====
-- Leasing an address and giving it back, with no other worker about: `allocate_workspace_ip` and
-- `release_workspace_ip_lease` of backend/app/libs/topology/db_topology_adapter.py.
use devnest.Base.{
  ℕ, ◌≡◌, ◌≢◌, refl, ap, ◌∙◌, true, false, none, some, List, if◌then◌else◌, Option, arith, Bool,
  count, first, update_first, count-update_first, Text, ◌+◌,
}
use devnest.Topology.Net.{v4, Ipv4Network, in_network, get_elem?, workspace_hosts}
use devnest.Topology.Hosts.{workspace_hosts-in_network}
use devnest.Topology.Rows.{
  TopologyRuntime, IpAllocation, Tables, ok, node_name, lease_of, active_lease_of, holds_ip,
  is_null,
}
use devnest.Topology.Lease.{
  write_lease, allocate_on, Allocated, allocate_workspace_ip, ready_runtime,
  release_workspace_ip_lease, release_lease,
}
use devnest.Topology.Allocate.{allocate_workspace_ip-IsUnique}
use devnest.Topology.Release.{release-active_self}
use devnest.Topology.LeaseLaws.{IsUnique, not_used-of_count}
use devnest.Topology.Alone.{
  alone, active_ip, active_ip-none, ip_of, Leased, written, write_lease-first, written-active,
  write_lease-count, write_lease-others, lease_attempt-choose, choose_and_commit-leases,
  candidates-ok,
}

release_found :
    (later t : ℕ) (node_id : Text) (w : ℕ) (db : Tables) (a : IpAllocation)
    → first (active_lease_of t (node_name node_id) w) db.allocations ≡ some a
    → release_workspace_ip_lease later t node_id w db ≡ (
      true,
      record db {
        allocations =
            update_first
              (active_lease_of t (node_name node_id) w)
              (λ (b : IpAllocation). record b { released_at = some later })
              db.allocations;
      },
    )
unfolding release_workspace_ip_lease
release_found later t node_id w db a e = rw (e, release_lease)

no_holder :
    (later t : ℕ) (n : Text) (ip : ℕ) (a : IpAllocation)
    → holds_ip t n ip (record a { released_at = some later }) ≡ false
no_holder later t n ip a = ground arith

holder_gone :
    (b : Bool) (x y z : ℕ)
    → x + (if b then 1 else 0) ≡ y + (if false then 1 else 0)
    → y ≡ z + (if b then 1 else 0)
    → x ≡ z
holder_gone b x y z p q = ground (arith, p, q)

active-lease_of :
    (t : ℕ) (n : Text) (w : ℕ) (a : IpAllocation)
    → active_lease_of t n w a ≡ true
    → lease_of t n w a ≡ true
active-lease_of t n w a q = ground (arith, q)

ready_runtime-leases :
    (t : ℕ) (n : Text) (db : Tables) (rows : List IpAllocation)
    → ready_runtime t n (record db { allocations = rows }) ≡ ready_runtime t n db
unfolding ready_runtime
ready_runtime-leases t n db rows = refl

existing_lease :
    (now t : ℕ) (node_id : Text) (w : ℕ) (db : Tables) (runtime : TopologyRuntime)
    (a : IpAllocation)
    → ready_runtime t (node_name node_id) db ≡ ok runtime
    → first (lease_of t (node_name node_id) w) db.allocations ≡ some a
    → is_null a.released_at ≡ true
    → allocate_workspace_ip alone now t node_id w db
      ≡ (ok (record { workspace_ip = a.ip; leased_existing = true }), db)
unfolding allocate_workspace_ip
existing_lease now t node_id w db runtime a ready e b =
    rw (ready, allocate_on) (rw ready (rw e (rw b)))

written-ip :
    (now t : ℕ) (n : Text) (w : ℕ) (row : Option IpAllocation) (ip : ℕ)
    → ((written now t n w ip row).ip ≡ ip) × (is_null (written now t n w ip row).released_at ≡ true)
written-ip now t n w none ip = (refl, refl)
written-ip now t n w (some a) ip = (refl, refl)

module _ (now t : ℕ) (node_id : Text) (w : ℕ) (db : Tables) (runtime : TopologyRuntime)
    (net : Ipv4Network) (gateway j h : ℕ)
    (ready : ready_runtime t (node_name node_id) db ≡ ok runtime) (c : runtime.cidr ≡ v4 net)
    (g : runtime.gateway_ip ≡ v4 gateway) (inside : in_network gateway net ≡ true)
    (u : IsUnique db.allocations) (none_yet : active_ip t (node_name node_id) w db ≡ none)
    (cand : get_elem? (workspace_hosts net gateway) j ≡ some h)
    (free : count (holds_ip t (node_name node_id) h) db.allocations ≡ 0) where
  abbrev rows_after : ℕ → List IpAllocation
  rows_after ip =
      write_lease now t (node_name node_id) w ip
        (first (lease_of t (node_name node_id) w) db.allocations) db.allocations

  -- The whole result of the call.
  record Run : Type 0 where
    ip : ℕ
    out : allocate_workspace_ip alone now t node_id w db ≡ (
      ok (record { workspace_ip = ip; leased_existing = false }),
      record db { allocations = rows_after ip },
    )
    was_free : count (holds_ip t (node_name node_id) ip) db.allocations ≡ 0
    place : (in_network ip net ≡ true) × (ip ≢ gateway)

  allocate_run : Run
  unfolding allocate_workspace_ip
  allocate_run =
      let n = node_name node_id in
      let row = first (lease_of t n w) db.allocations in
      let (ip, run, z, (k, at)) =
        choose_and_commit-leases now t n w 0 j h (workspace_hosts net gateway) db u cand
          (not_used-of_count t n h db.allocations free) in
      record {
        ip = ip;
        out =
            rw (ready, allocate_on)
              (rw ready (
                rw
                  (lease_attempt-choose now t n w 0 runtime db row
                    (active_ip-none t n w db none_yet) refl)
                  (rw (candidates-ok runtime.cidr runtime.gateway_ip net gateway c g inside)
                    (rw run))));
        was_free = z;
        place = workspace_hosts-in_network net gateway k ip at;
      }

  leased_row :
      (ip : ℕ)
      → first (active_lease_of t (node_name node_id) w) (rows_after ip)
        ≡ some (
            written now t
              (node_name node_id)
              w
              ip
              (first (lease_of t (node_name node_id) w) db.allocations))
  leased_row ip =
      let n = node_name node_id in
      let row = first (lease_of t n w) db.allocations in
      write_lease-first now t n w ip (active_lease_of t n w) db.allocations row
        (active-lease_of t n w) refl (written-active now t n w ip db.allocations row refl)

  -- Where the runtime is ready, the workspace has no active lease and some candidate host of the
  -- network has no holder, a call with no other worker about leases an address of the network that
  -- is not the gateway and that nobody held; the workspace then has it, and the addresses of the
  -- other workspaces stay.
  pub allocate_workspace_ip-Leased :
      Leased t (node_name node_id) w net gateway db (allocate_workspace_ip alone now t node_id w db)
  allocate_workspace_ip-Leased =
      let n = node_name node_id in
      let row = first (lease_of t n w) db.allocations in
      let r = allocate_run in
      record {
        ip = r.ip;
        answer = ap (λ (o : Allocated). o.0) r.out;
        inside = r.place.0;
        not_gateway = r.place.1;
        was_free = r.was_free;
        leased =
            ap (λ (o : Allocated). active_ip t n w o.1) r.out
            ∙ (ap ip_of (leased_row r.ip) ∙ ap some (written-ip now t n w row r.ip).0);
        others = λ w' ne.
            ap (λ (o : Allocated). active_ip t n w' o.1) r.out
            ∙ ap ip_of (write_lease-others now t n w r.ip db.allocations row w' ne);
      }

  release-holders :
      (later : ℕ)
      → let back =
          release_workspace_ip_lease later t node_id w
            (allocate_workspace_ip alone now t node_id w db).1 in
        (back.0 ≡ true)
        × ((t' : ℕ) (n' : Text) (ip' : ℕ)
            → count (holds_ip t' n' ip') back.1.allocations
              ≡ count (holds_ip t' n' ip') db.allocations)
  release-holders later =
      let n = node_name node_id in
      let r = allocate_run in
      let row = first (lease_of t n w) db.allocations in
      let db' = record db { allocations = rows_after r.ip } in
      rw (r.out) (
        rw (release_found later t node_id w db' (written now t n w r.ip row) (leased_row r.ip)) (
          refl,
          λ t' n' ip'.
              holder_gone (holds_ip t' n' ip' (written now t n w r.ip row)) _
                (count (holds_ip t' n' ip') (rows_after r.ip)) _
                (count-update_first (holds_ip t' n' ip') (active_lease_of t n w)
                    (λ (b : IpAllocation). record b { released_at = some later }) (rows_after r.ip)
                    (leased_row r.ip)
                  ∙ ap
                      (λ (b : Bool).
                        count (holds_ip t' n' ip') (rows_after r.ip) + (if b then 1 else 0))
                      (no_holder later t' n' ip' (written now t n w r.ip row)))
                (write_lease-count now t n w r.ip (holds_ip t' n' ip') db.allocations row
                  (λ a q. holder-active t' n' ip' a q) refl (active_ip-none t n w db none_yet)),
        ))
    where
      holder-active :
          (t' : ℕ) (n' : Text) (ip' : ℕ) (a : IpAllocation)
          → holds_ip t' n' ip' a ≡ true
          → is_null a.released_at ≡ true
      holder-active t' n' ip' a q = ground (arith, q)

  released_none :
      (v : ℕ) (d : Tables)
      → IsUnique d.allocations
      → active_ip t (node_name node_id) w (release_workspace_ip_lease v t node_id w d).1 ≡ none
  unfolding release_workspace_ip_lease
  released_none v d k = ap ip_of (release-active_self v t (node_name node_id) w d k)

  -- Under the same conditions, releasing the lease succeeds, and then every address has as many
  -- holders as before the two calls, and the workspace has no active lease.
  pub release-allocate :
      (later : ℕ)
      → let back =
          release_workspace_ip_lease later t node_id w
            (allocate_workspace_ip alone now t node_id w db).1 in
        (back.0 ≡ true)
        × ((t' : ℕ) (n' : Text) (ip' : ℕ)
            → count (holds_ip t' n' ip') back.1.allocations
              ≡ count (holds_ip t' n' ip') db.allocations)
        × (active_ip t (node_name node_id) w back.1 ≡ none)
  release-allocate later =
      let held = release-holders later in
      (
        held.0,
        held.1,
        released_none later (allocate_workspace_ip alone now t node_id w db).1 (
            allocate_workspace_ip-IsUnique alone now t node_id w db
              (record { before_keeps = λ i d v. v; during_keeps = λ i d v. v }) u),
      )

  -- Under the same conditions, a second call gives the same address again, as an existing lease,
  -- and changes nothing.
  pub allocate-allocate :
      (later : ℕ)
      → let out = allocate_workspace_ip alone now t node_id w db in
        (ip : ℕ) × (out.0 ≡ ok (record { workspace_ip = ip; leased_existing = false }))
        × (allocate_workspace_ip alone later t node_id w out.1
            ≡ (ok (record { workspace_ip = ip; leased_existing = true }), out.1))
  allocate-allocate later =
      let n = node_name node_id in
      let r = allocate_run in
      let row = first (lease_of t n w) db.allocations in
      let mine = written-ip now t n w row r.ip in
      let again =
        existing_lease later t node_id w (record db { allocations = rows_after r.ip }) runtime
          (written now t n w r.ip row) (ready_runtime-leases t n db (rows_after r.ip) ∙ ready)
          (write_lease-first now t n w r.ip (lease_of t n w) db.allocations row (λ a q. q) refl
            (active-lease_of t n w (written now t n w r.ip row)
              (written-active now t n w r.ip db.allocations row refl)))
          mine.1 in
      (
        r.ip,
        ap (λ (o : Allocated). o.0) r.out,
        rw (r.out) (
            again
            ∙ ap
                (λ (ip : ℕ). (
                  ok (record { workspace_ip = ip; leased_existing = true }),
                  record db { allocations = rows_after r.ip },
                ))
                mine.0),
      )
