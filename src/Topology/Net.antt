-- ===== src/Topology/Net.antt =====
-- The part of Python's `ipaddress` that backend/app/libs/topology/db_topology_adapter.py uses, and
-- its scans over networks and hosts. An address is its 32-bit number.
use devnest.Base.{
  ℕ, zero, suc, ◌+◌, ◌-◌, ◌*◌, ◌%◌, Bool, true, false, not, ◌&&◌, ◌||◌, Option, none, some, List,
  [], ◌∷◌, if◌then◌else◌, leb, ◌==◌, length, any,
}
use Prim.Native.Nat.{◌^◌}

-- What `ipaddress` makes of a text column: no text, spaces, a text that it refuses with a
-- `ValueError`, an IPv6 value, or an IPv4 value.
pub data IpText {ℓ} (A : Type ℓ) : Type ℓ where
  absent blank malformed v6 : IpText A
  v4 : A → IpText A

-- `x and str(x).strip()`
abbrev pub is_filled {ℓ} : {A : Type ℓ} → IpText A → Bool
is_filled absent = false
is_filled blank = false
is_filled _ = true

pub record Ipv4Network : Type 0 where
  pub network_address : ℕ
  pub prefixlen : ℕ

abbrev pub num_addresses : Ipv4Network → ℕ
num_addresses net = 2 ^ (32 - net.prefixlen)

abbrev pub broadcast_address : Ipv4Network → ℕ
broadcast_address net = net.network_address + num_addresses net - 1

-- `a in net`
unfoldable pub in_network : ℕ → Ipv4Network → Bool
in_network a net = leb net.network_address a && leb a (broadcast_address net)

unfoldable pub overlaps : Ipv4Network → Ipv4Network → Bool
unfolding in_network
overlaps net other =
    in_network other.network_address net
    || in_network (broadcast_address other) net
    || in_network net.network_address other
    || in_network (broadcast_address net) other

abbrev pub range_from : ℕ → ℕ → List ℕ
range_from a zero = []
range_from a (suc n) = a ∷ range_from (a + 1) n

-- `net.hosts()`: a /31 has both addresses, a /32 its own, and any other network leaves out the
-- first and the last.
unfoldable pub hosts : Ipv4Network → List ℕ
hosts net =
    if net.prefixlen == 32
    then net.network_address ∷ []
    else if net.prefixlen == 31
    then range_from net.network_address 2
    else range_from (net.network_address + 1) (num_addresses net - 2)

child_subnets : ℕ → ℕ → ℕ → List Ipv4Network
child_subnets address prefixlen zero = []
child_subnets address prefixlen (suc n) =
    record { network_address = address; prefixlen = prefixlen }
    ∷ child_subnets (address + 2 ^ (32 - prefixlen)) prefixlen n

-- 10.128.0.0/9 cut into /20 networks
unfoldable pub iter_pool_child_subnets : List Ipv4Network
unfolding child_subnets
iter_pool_child_subnets = child_subnets (10 * 2 ^ 24 + 128 * 2 ^ 16) 20 (2 ^ (20 - 9))

abbrev pub get_elem? {ℓ} : {A : Type ℓ} → List A → ℕ → Option A
get_elem? [] i = none
get_elem? (x ∷ xs) zero = some x
get_elem? (x ∷ xs) (suc i) = get_elem? xs i

-- `for i in range(n): x = xs[(start + i) % len(xs)]; if free(x): return x`
unfoldable pub scan {ℓ} : {A : Type ℓ} → (A → Bool) → List A → ℕ → ℕ → Option A
scan free xs start zero = none
scan free xs start (suc n) =
    let rest = scan free xs (start + 1) n in
    elim (get_elem? xs (start % length xs)) [
      | none ↦ none
      | some x ↦ if free x then some x else rest
    ]

unfoldable pub net_overlaps_any : Ipv4Network → List Ipv4Network → Bool
net_overlaps_any net used = any (overlaps net) used

-- The reservation for the infrastructure: the first ten usable hosts.
abbrev pub infra_reserved_usable_hosts : ℕ
infra_reserved_usable_hosts = 10

abbrev pub hosts_after : ℕ → ℕ → ℕ → List ℕ → List ℕ
hosts_after reserved gateway usable_idx [] = []
hosts_after reserved gateway usable_idx (h ∷ hs) =
    if h == gateway || leb (usable_idx + 1) reserved
    then hosts_after reserved gateway (usable_idx + 1) hs
    else h ∷ hosts_after reserved gateway (usable_idx + 1) hs

-- The hosts for workspaces: neither the gateway nor a reserved one; a network with no more hosts
-- than the reservation has no reservation.
unfoldable pub workspace_hosts : Ipv4Network → ℕ → List ℕ
unfolding hosts
workspace_hosts net gateway =
    let out = hosts_after infra_reserved_usable_hosts gateway 0 (hosts net) in
    let usable = length (hosts net) in
    if length out == 0 && leb 1 usable && leb usable infra_reserved_usable_hosts
    then hosts_after 0 gateway 0 (hosts net)
    else out

unfoldable pub pick_first_free_host : List ℕ → List ℕ → ℕ → Option ℕ
unfolding scan
pick_first_free_host candidates used_ips scan_offset =
    scan (λ h. not (any (λ u. u == h) used_ips)) candidates (scan_offset % length candidates)
      (length candidates)
