-- ===== src/Topology/SubnetLaws.antt =====
-- The network and the gateway that a node is given (backend/app/libs/topology/db_topology_adapter.py).
use devnest.Base.{
  ℕ, ◌≡◌, ◌≢◌, refl, ap, ◌∙◌, Bool, true, false, not, Option, none, some, List, [], ◌∷◌, length,
  Text, Bool-cases, Option-cases, inl, inr, arith,
}
use devnest.Topology.Net.{
  IpText, absent, blank, malformed, v6, v4, Ipv4Network, in_network, hosts, net_overlaps_any,
  iter_pool_child_subnets, get_elem?,
}
use devnest.Topology.Rows.{TopologyRuntime, Result, ok, err, TopologyError}
use devnest.Topology.Scan.{scan_sound, scan-finds}
use devnest.Topology.Hosts.{All, Within, hosts-Within}
use devnest.Topology.Subnet.{
  list_used_runtime_networks, first_free_child, child_or_error, allocate_child_subnet, gateway_for,
  gateway_for_child, scan_start, choose_new, first_usable, with_network,
}

-- The answer of a choice: nothing is said of an error.
abbrev pub Chosen : (Ipv4Network → ℕ → Type 0) → Result (Ipv4Network × ℕ) → Type 0
Chosen P (ok (net, g)) = P net g
Chosen P (err e) = Unit

Within-in_network : (net : Ipv4Network) (g : ℕ) → Within net g → in_network g net ≡ true
unfolding in_network
Within-in_network net g w = ground (arith, w.0, w.1)

first_usable-Chosen :
    (net : Ipv4Network) (hs : List ℕ)
    → All (Within net) hs
    → Chosen (λ n g. (n ≡ net) × (in_network g net ≡ true)) (with_network net (first_usable hs))
first_usable-Chosen net [] a = tt
first_usable-Chosen net (h ∷ hs) a = (refl, Within-in_network net h a.0)

gateway_for-Chosen :
    (refused : TopologyError) (net : Ipv4Network) (gateway : IpText ℕ)
    → Chosen (λ n g. (n ≡ net) × (in_network g net ≡ true)) (gateway_for refused net gateway)
unfolding gateway_for
gateway_for-Chosen refused net absent = first_usable-Chosen net (hosts net) (hosts-Within net)
gateway_for-Chosen refused net blank = first_usable-Chosen net (hosts net) (hosts-Within net)
gateway_for-Chosen refused net malformed = tt
gateway_for-Chosen refused net v6 = tt
gateway_for-Chosen refused net (v4 g) = elim (Bool-cases (in_network g net)) [
  | inl e ↦ rw e (refl, e)
  | inr e ↦ rw e tt
]

-- The network lies apart from every network in use, and the gateway lies in it.
abbrev pub IsFree : List Ipv4Network → Ipv4Network → ℕ → Type 0
IsFree used net g = (net_overlaps_any net used ≡ false) × (in_network g net ≡ true)

gateway-IsFree :
    (used : List Ipv4Network) (refused : TopologyError) (net : Ipv4Network) (gateway : IpText ℕ)
    → net_overlaps_any net used ≡ false
    → Chosen (IsFree used) (gateway_for refused net gateway)
gateway-IsFree used refused net gateway apart =
    widen (gateway_for refused net gateway) (gateway_for-Chosen refused net gateway)
  where
    widen :
        (r : Result (Ipv4Network × ℕ))
        → Chosen (λ n g. (n ≡ net) × (in_network g net ≡ true)) r
        → Chosen (IsFree used) r
    widen (err e) c = tt
    widen (ok (n, g)) c =
        (ap (λ m. net_overlaps_any m used) c.0 ∙ apart, ap (in_network g) c.0 ∙ c.1)

first_free_child_sound :
    (children used : List Ipv4Network) (start : ℕ) (net : Ipv4Network)
    → first_free_child children used start ≡ some net
    → net_overlaps_any net used ≡ false
unfolding first_free_child
first_free_child_sound children used start net h =
    negated (net_overlaps_any net used)
      (scan_sound (λ child. not (net_overlaps_any child used)) children start (length children) net
        h).0
  where
    negated : (b : Bool) → not b ≡ true → b ≡ false
    negated b e = ground (arith, e)

first_free_child-finds :
    (children used : List Ipv4Network) (start i : ℕ) (child : Ipv4Network)
    → get_elem? children i ≡ some child
    → net_overlaps_any child used ≡ false
    → first_free_child children used start ≢ none
unfolding first_free_child
first_free_child-finds children used start i child g f =
    scan-finds (λ c. not (net_overlaps_any c used)) children start i child g (ap not f)

module _ (rows : List TopologyRuntime) (t : ℕ) (n : Text) where
  abbrev used : List Ipv4Network
  used = list_used_runtime_networks t n rows

  child-IsFree :
      (gateway : IpText ℕ) (retry : ℕ)
      → Chosen (IsFree used) (gateway_for_child gateway (allocate_child_subnet rows t n retry))
  unfolding allocate_child_subnet gateway_for_child
  child-IsFree gateway retry =
      let start = scan_start retry t n (length iter_pool_child_subnets) in
      found (first_free_child iter_pool_child_subnets used start)
        (λ net h. first_free_child_sound iter_pool_child_subnets used start net h)
    where
      found :
          (o : Option Ipv4Network)
          → ((net : Ipv4Network) → o ≡ some net → net_overlaps_any net used ≡ false)
          → Chosen (IsFree used) (gateway_for_child gateway (child_or_error o))
      found none s = tt
      found (some net) s = gateway-IsFree used TopologyError.runtime_create net gateway (s net refl)

  -- A node without a usable row is given a network that overlaps none of the topology's other
  -- nodes, and a gateway in it, from the specification or from the pool, on every attempt.
  pub choose_new-IsFree :
      (spec_cidr : IpText Ipv4Network) (spec_gateway_ip : IpText ℕ) (retry : ℕ)
      → Chosen (IsFree used) (choose_new rows t n spec_cidr spec_gateway_ip retry)
  unfolding choose_new
  choose_new-IsFree (v4 net) gw retry = elim (Bool-cases (net_overlaps_any net used)) [
    | inl e ↦ rw e tt
    | inr e ↦ rw e (gateway-IsFree used TopologyError.runtime_create net gw e)
  ]
  choose_new-IsFree malformed gw retry = tt
  choose_new-IsFree v6 gw retry = tt
  choose_new-IsFree absent gw retry = child-IsFree gw retry
  choose_new-IsFree blank gw retry = child-IsFree gw retry

  -- While some network of the pool is free, an attempt finds a free one, from whatever start.
  pub allocate_child_subnet-finds :
      (retry i : ℕ) (child : Ipv4Network)
      → get_elem? iter_pool_child_subnets i ≡ some child
      → net_overlaps_any child used ≡ false
      → (net : Ipv4Network) × (allocate_child_subnet rows t n retry ≡ ok net)
        × (net_overlaps_any net used ≡ false)
  unfolding allocate_child_subnet
  allocate_child_subnet-finds retry i child g f =
      let start = scan_start retry t n (length iter_pool_child_subnets) in
      elim (Option-cases (first_free_child iter_pool_child_subnets used start)) [
        | inl e ↦ absurd (first_free_child-finds iter_pool_child_subnets used start i child g f e)
        | inr (net, e) ↦ (
          net,
          ap child_or_error e,
          first_free_child_sound iter_pool_child_subnets used start net e,
        )
      ]
