-- ===== src/Topology/Alone.antt =====
-- `allocate_workspace_ip` and `release_workspace_ip_lease` of
-- backend/app/libs/topology/db_topology_adapter.py where no other worker writes leases meanwhile.
use devnest.Base.{
  ℕ, ◌+◌, ◌%◌, ◌≡◌, ◌≢◌, refl, Bool, true, false, not, Option, none, some, List, if◌then◌else◌,
  ◌==◌, length, any, count, first, first-none_of, first-snoc, first-snoc_other, first-narrow,
  first-keeps, first-update_first, first-update_first_other, count-snoc, count-update_first, Text,
  text_eq_refl, Bool-cases, Option-cases, inl, inr, arith,
}
use devnest.Topology.Net.{
  IpText, v4, Ipv4Network, in_network, get_elem?, workspace_hosts, pick_first_free_host,
}
use devnest.Topology.Scan.{scan_sound, scan-finds}
use devnest.Topology.Rows.{
  TopologyRuntime, IpAllocation, Tables, ok, lease_of, active_lease_of, holds_ip, is_null,
}
use devnest.Topology.Lease.{
  used_ips, scan_offset, returned, renew, new_lease, write_lease, Allocated, choose_and_commit,
  lease_attempt, Others, iter_candidate_workspace_hosts,
}
use devnest.Topology.LeaseLaws.{IsUnique, not_used, write_lease-is_unique}

abbrev pub alone : Others
alone = record { before = λ i db. db; during = λ i db. db }

abbrev pub ip_of : Option IpAllocation → Option ℕ
ip_of none = none
ip_of (some a) = some a.ip

-- The address that a workspace has a lease of.
abbrev pub active_ip : ℕ → Text → ℕ → Tables → Option ℕ
active_ip t n w db = ip_of (first (active_lease_of t n w) db.allocations)

-- What a call that leases a new address leaves behind.
pub record Leased (t : ℕ) (n : Text) (w : ℕ) (net : Ipv4Network) (gateway : ℕ) (db : Tables)
    (out : Allocated) : Type 0 where
  pub ip : ℕ
  pub answer : out.0 ≡ ok (record { workspace_ip = ip; leased_existing = false })
  pub inside : in_network ip net ≡ true
  pub not_gateway : ip ≢ gateway
  pub was_free : count (holds_ip t n ip) db.allocations ≡ 0
  pub leased : active_ip t n w out.1 ≡ some ip
  pub others : (w' : ℕ) → w' ≢ w → active_ip t n w' out.1 ≡ active_ip t n w' db

module _ (now t : ℕ) (n : Text) (w ip : ℕ) where
  -- The row that the write leaves for the workspace.
  abbrev pub written : Option IpAllocation → IpAllocation
  written none = new_lease now t n w ip
  written (some a) = renew now ip a

  pub write_lease-first :
      (q : IpAllocation → Bool) (rows : List IpAllocation) (row : Option IpAllocation)
      → ((a : IpAllocation) → q a ≡ true → lease_of t n w a ≡ true)
      → first (lease_of t n w) rows ≡ row
      → q (written row) ≡ true
      → first q (write_lease now t n w ip row rows) ≡ some (written row)
  write_lease-first q rows none h e g =
      first-snoc q rows (new_lease now t n w ip) (first-none_of (lease_of t n w) q rows h e) g
  write_lease-first q rows (some a) h e g =
      first-update_first (lease_of t n w) q (renew now ip) rows h e g

  pub written-active :
      (rows : List IpAllocation) (row : Option IpAllocation)
      → first (lease_of t n w) rows ≡ row
      → active_lease_of t n w (written row) ≡ true
  written-active rows none e = ground (arith, text_eq_refl n)
  written-active rows (some a) e = ground (arith, first-keeps (lease_of t n w) rows e)

  -- The write adds one holder, of the address.
  pub write_lease-count :
      (q : IpAllocation → Bool) (rows : List IpAllocation) (row : Option IpAllocation)
      → ((a : IpAllocation) → q a ≡ true → is_null a.released_at ≡ true)
      → first (lease_of t n w) rows ≡ row
      → first (active_lease_of t n w) rows ≡ none
      → count q (write_lease now t n w ip row rows)
        ≡ count q rows + (if q (written row) then 1 else 0)
  write_lease-count q rows none h e free = count-snoc q rows (new_lease now t n w ip)
  write_lease-count q rows (some a) h e free = elim (Bool-cases (q a)) [
    | inr b ↦ ground (arith, b, count-update_first q (lease_of t n w) (renew now ip) rows e)
    | inl b ↦ absurd (
        taken (
          first-narrow (lease_of t n w) (active_lease_of t n w) rows (λ y k. ground (arith, k)) e
            (ground (arith, h a b, first-keeps (lease_of t n w) rows e))))
  ]
    where
      taken : first (active_lease_of t n w) rows ≡ some a → ⊥
      taken f = cc

  pub write_lease-others :
      (rows : List IpAllocation) (row : Option IpAllocation) (w' : ℕ)
      → w' ≢ w
      → first (active_lease_of t n w') (write_lease now t n w ip row rows)
        ≡ first (active_lease_of t n w') rows
  write_lease-others rows none w' ne =
      first-snoc_other (active_lease_of t n w') rows (new_lease now t n w ip) (ground (arith, ne))
  write_lease-others rows (some a) w' ne =
      first-update_first_other (lease_of t n w) (active_lease_of t n w') (renew now ip) rows
        (λ y p. ground (arith, p, ne)) (λ y p. ground (arith, p, ne))

module _ (now t : ℕ) (n : Text) (w : ℕ) where
  -- With no active lease the attempt chooses an address, whatever row the workspace has.
  pub lease_attempt-choose :
      (i : ℕ) (runtime : TopologyRuntime) (db : Tables) (row : Option IpAllocation)
      → first (active_lease_of t n w) db.allocations ≡ none
      → first (lease_of t n w) db.allocations ≡ row
      → lease_attempt now t n w i runtime row db db
        ≡ choose_and_commit now t n w i row
            (iter_candidate_workspace_hosts runtime.cidr runtime.gateway_ip)
            db
            db
  unfolding lease_attempt
  lease_attempt-choose i runtime db none free e = refl
  lease_attempt-choose i runtime db (some a) free e = elim (Bool-cases (is_null a.released_at)) [
    | inr b ↦ rw b
    | inl b ↦ absurd (
        taken (
          first-narrow (lease_of t n w) (active_lease_of t n w) db.allocations
            (λ y q. ground (arith, q)) e
            (ground (arith, b, first-keeps (lease_of t n w) db.allocations e))))
  ]
    where
      taken : first (active_lease_of t n w) db.allocations ≡ some a → ⊥
      taken f = cc

  -- A free candidate is found, and its lease is accepted.
  pub choose_and_commit-leases :
      (i j h : ℕ) (hosts : List ℕ) (db : Tables)
      → IsUnique db.allocations
      → get_elem? hosts j ≡ some h
      → not (any (λ u. u == h) (used_ips t n db.allocations)) ≡ true
      → (ip : ℕ) × (choose_and_commit now t n w i
            (first (lease_of t n w) db.allocations)
            (ok hosts)
            db
            db
          ≡ returned (ok (record { workspace_ip = ip; leased_existing = false })) (record db {
            allocations =
                write_lease now t n w ip (first (lease_of t n w) db.allocations) db.allocations;
          }))
        × (count (holds_ip t n ip) db.allocations ≡ 0)
        × ((k : ℕ) × (get_elem? hosts k ≡ some ip))
  unfolding choose_and_commit
  choose_and_commit-leases i j h hosts db u g f =
      elim (Option-cases (
        pick_first_free_host hosts (used_ips t n db.allocations)
          (scan_offset i n w (length hosts)))) [
            | inl e ↦
                absurd (
                  scan-finds free hosts (scan_offset i n w (length hosts) % length hosts) j h g f e)
            | inr (ip, e) ↦
                let s =
                  scan_sound free hosts (scan_offset i n w (length hosts) % length hosts)
                    (length hosts) ip e in
                let z = not_used t n ip db.allocations s.0 in
                (ip, rw e (rw (write_lease-is_unique now t n w ip db.allocations u z)), z, s.1)
          ]
    where
      free : ℕ → Bool
      free x = not (any (λ u. u == x) (used_ips t n db.allocations))

pub active_ip-none :
    (t : ℕ) (n : Text) (w : ℕ) (db : Tables)
    → active_ip t n w db ≡ none
    → first (active_lease_of t n w) db.allocations ≡ none
active_ip-none t n w db h = elim (Option-cases (first (active_lease_of t n w) db.allocations)) [
  | inl e ↦ e
  | inr (a, e) ↦ absurd (ground (arith, e, h))
]

pub candidates-ok :
    (cidr : IpText Ipv4Network) (gateway_ip : IpText ℕ) (net : Ipv4Network) (gateway : ℕ)
    → cidr ≡ v4 net
    → gateway_ip ≡ v4 gateway
    → in_network gateway net ≡ true
    → iter_candidate_workspace_hosts cidr gateway_ip ≡ ok (workspace_hosts net gateway)
unfolding iter_candidate_workspace_hosts
candidates-ok cidr gateway_ip net gateway c g inside = rw (c, g) (rw inside)
