-- ===== src/Topology/Subnet.antt =====
-- The networks of the nodes: `_list_used_runtime_networks`, `_allocate_child_subnet` and
-- `_choose_runtime_cidr_and_gateway` of backend/app/libs/topology/db_topology_adapter.py.
use devnest.Base.{
  ℕ, ◌+◌, ◌*◌, ◌%◌, not, ◌&&◌, Option, none, some, List, [], ◌∷◌, if◌then◌else◌, ◌==◌, length, Text,
  text_eq,
}
use devnest.Topology.Net.{
  IpText, absent, blank, malformed, v6, v4, Ipv4Network, in_network, hosts, scan, net_overlaps_any,
  iter_pool_child_subnets,
}
use devnest.Topology.Rows.{TopologyRuntime, Result, ok, err, TopologyError, sum_codes}

abbrev pub v4_of {ℓ} : {A : Type ℓ} → IpText A → List A → List A
v4_of (v4 a) rest = a ∷ rest
v4_of _ rest = rest

-- The networks of the topology's other nodes; what is not an IPv4 network is passed over.
unfoldable pub list_used_runtime_networks : ℕ → Text → List TopologyRuntime → List Ipv4Network
list_used_runtime_networks topology_id node_id [] = []
list_used_runtime_networks topology_id node_id (r ∷ rows) =
    let rest = list_used_runtime_networks topology_id node_id rows in
    if r.topology_id == topology_id && not (text_eq r.node_id node_id)
    then v4_of r.cidr rest
    else rest

abbrev pub scan_start : ℕ → ℕ → Text → ℕ → ℕ
scan_start retry_index topology_id node_id n =
    if retry_index == 0 then 0 else (retry_index * 7919 + topology_id * 17 + sum_codes node_id) % n

-- The search among the children of the pool.
unfoldable pub first_free_child : List Ipv4Network → List Ipv4Network → ℕ → Option Ipv4Network
unfolding scan net_overlaps_any
first_free_child children used start =
    scan (λ child. not (net_overlaps_any child used)) children start (length children)

abbrev pub child_or_error : Option Ipv4Network → Result Ipv4Network
child_or_error none = err TopologyError.runtime_create
child_or_error (some child) = ok child

unfoldable pub allocate_child_subnet : List TopologyRuntime → ℕ → Text → ℕ → Result Ipv4Network
unfolding first_free_child list_used_runtime_networks iter_pool_child_subnets
allocate_child_subnet rows topology_id node_id retry_index = child_or_error (
    first_free_child iter_pool_child_subnets (list_used_runtime_networks topology_id node_id rows)
      (scan_start retry_index topology_id node_id (length iter_pool_child_subnets)))

abbrev pub first_usable : List ℕ → Result ℕ
first_usable [] = err TopologyError.runtime_create
first_usable (h ∷ hs) = ok h

unfoldable pub first_usable_host : Ipv4Network → Result ℕ
unfolding hosts
first_usable_host net = first_usable (hosts net)

abbrev pub with_network : Ipv4Network → Result ℕ → Result (Ipv4Network × ℕ)
with_network net (ok g) = ok (net, g)
with_network net (err e) = err e

-- The gateway that a row or the specification names has to lie in the network; without one it is
-- the first usable host. `refused` is what a text that is no address leads to.
unfoldable pub gateway_for : TopologyError → Ipv4Network → IpText ℕ → Result (Ipv4Network × ℕ)
unfolding first_usable_host in_network
gateway_for refused net (v4 g) =
    if in_network g net then ok (net, g) else err TopologyError.runtime_create
gateway_for refused net v6 = err TopologyError.runtime_create
gateway_for refused net malformed = err refused
gateway_for refused net absent = with_network net (first_usable_host net)
gateway_for refused net blank = with_network net (first_usable_host net)

unfoldable pub gateway_for_child : IpText ℕ → Result Ipv4Network → Result (Ipv4Network × ℕ)
unfolding gateway_for
gateway_for_child gateway (ok net) = gateway_for TopologyError.runtime_create net gateway
gateway_for_child gateway (err e) = err e

module _ (rows : List TopologyRuntime) (topology_id : ℕ) (node_id : Text) where
  -- Without a usable row: the network of the specification, or one of the pool.
  unfoldable pub choose_new : IpText Ipv4Network → IpText ℕ → ℕ → Result (Ipv4Network × ℕ)
  unfolding gateway_for allocate_child_subnet net_overlaps_any list_used_runtime_networks
  choose_new (v4 net) spec_gateway_ip pool_retry_index =
      if net_overlaps_any net (list_used_runtime_networks topology_id node_id rows)
      then err TopologyError.runtime_create
      else gateway_for TopologyError.runtime_create net spec_gateway_ip
  choose_new malformed spec_gateway_ip pool_retry_index = err TopologyError.runtime_create
  choose_new v6 spec_gateway_ip pool_retry_index = err TopologyError.runtime_create
  choose_new blank spec_gateway_ip pool_retry_index =
      gateway_for_child spec_gateway_ip
        (allocate_child_subnet rows topology_id node_id pool_retry_index)
  choose_new absent spec_gateway_ip pool_retry_index =
      gateway_for_child spec_gateway_ip
        (allocate_child_subnet rows topology_id node_id pool_retry_index)

  unfoldable pub choose_for_row :
      IpText Ipv4Network → IpText ℕ → IpText Ipv4Network → IpText ℕ → ℕ → Result (Ipv4Network × ℕ)
  unfolding choose_new gateway_for
  choose_for_row (v4 net) gateway_ip spec_cidr spec_gateway_ip retry =
      gateway_for TopologyError.value_error net gateway_ip
  choose_for_row malformed gateway_ip spec_cidr spec_gateway_ip retry =
      err TopologyError.runtime_create
  choose_for_row v6 gateway_ip spec_cidr spec_gateway_ip retry = err TopologyError.runtime_create
  choose_for_row absent gateway_ip spec_cidr spec_gateway_ip retry =
      choose_new spec_cidr spec_gateway_ip retry
  choose_for_row blank gateway_ip spec_cidr spec_gateway_ip retry =
      choose_new spec_cidr spec_gateway_ip retry

  unfoldable pub choose_runtime_cidr_and_gateway :
      Option TopologyRuntime → IpText Ipv4Network → IpText ℕ → ℕ → Result (Ipv4Network × ℕ)
  unfolding choose_for_row choose_new
  choose_runtime_cidr_and_gateway none spec_cidr spec_gateway_ip retry =
      choose_new spec_cidr spec_gateway_ip retry
  choose_runtime_cidr_and_gateway (some row) spec_cidr spec_gateway_ip retry =
      choose_for_row row.cidr row.gateway_ip spec_cidr spec_gateway_ip retry
