-- ===== src/Placement/Select.antt =====
-- backend/app/services/placement_service/node_placement.py: the pool and the choice of a node. A
-- comparison of a difference in SQL, which may be negative, is written with the sums on both sides.
use devnest.Base.{
  ℕ, ◌+◌, ◌-◌, ◌*◌, Bool, true, false, not, ◌&&◌, ◌||◌, Option, none, some, List, [], ◌∷◌, map,
  if◌then◌else◌, leb, ltb, ◌==◌, max, first, select, strip, is_empty, Text, text_eq,
}
use devnest.Model.Enums.{
  ExecutionNodeStatus, ExecutionNodeProviderType, ExecutionNodeResourceStatus, is_ec2,
}
use devnest.Model.Rows.{ExecutionNode}
use devnest.Worker.Db.{Db}
use devnest.Placement.Capacity.{
  reserved_cpu_sum, reserved_memory_sum, reserved_disk_sum, active_workload_count,
  workspace_slot_claim_count,
}

-- `devnest_node_provider`, stripped and in lower case.
pub data NodeProvider : Type 0 where
  local ec2 all : NodeProvider

pub record PlacementSettings : Type 0 where
  pub devnest_node_provider : NodeProvider
  pub devnest_enable_multi_node_scheduling : Bool
  pub devnest_require_fresh_node_heartbeat : Bool
  pub devnest_node_heartbeat_max_age_seconds : ℕ
  pub devnest_node_resource_monitor_enabled : Bool
  pub devnest_node_min_free_disk_mb : ℕ
  pub devnest_node_min_free_memory_mb : ℕ
  pub devnest_node_resource_check_interval_seconds : ℕ

pub record WorkspaceComputeRequest : Type 0 where
  pub requested_cpu : ℕ
  pub requested_memory_mb : ℕ
  pub requested_disk_mb : ℕ
  pub requested_slots : ℕ

pub data NodeError : Type 0 where
  node_not_found invalid_placement_parameters no_schedulable_node : NodeError

abbrev is_local : ExecutionNodeProviderType → Bool
is_local ExecutionNodeProviderType.ec2 = false
is_local _ = true

unfoldable pub provider_type_clause : NodeProvider → ExecutionNode → Bool
provider_type_clause NodeProvider.local n = is_local n.provider_type
provider_type_clause NodeProvider.ec2 n = is_ec2 n.provider_type
provider_type_clause NodeProvider.all n = true

abbrev pub is_ready : ExecutionNodeStatus → Bool
is_ready ExecutionNodeStatus.ready = true
is_ready _ = false

unfoldable pub ready_schedulable_provider : PlacementSettings → ExecutionNode → Bool
unfolding provider_type_clause
ready_schedulable_provider s n =
    n.schedulable && is_ready n.status && provider_type_clause s.devnest_node_provider n

-- `MIN(id)` over the rows that pass.
abbrev min_id : (ExecutionNode → Bool) → List ExecutionNode → Option ℕ
min_id p [] = none
min_id p (n ∷ ns) =
    if p n
    then some (elim (min_id p ns) [ none ↦ n.id | some i ↦ if leb n.id i then n.id else i ])
    else min_id p ns

unfoldable pub single_node_primary_id_clause :
    PlacementSettings → List ExecutionNode → ExecutionNode → Bool
unfolding ready_schedulable_provider
single_node_primary_id_clause s nodes n =
    s.devnest_enable_multi_node_scheduling
    || elim (min_id (ready_schedulable_provider s) nodes) [ none ↦ false | some i ↦ n.id == i ]

-- The hosts have to have been checked after this time.
unfoldable pub resource_stale_seconds : ℕ → ℕ
resource_stale_seconds check_interval_seconds =
    let interval = max 10 check_interval_seconds in max (interval * 3) (interval + 120)

abbrev at_least : ℕ → Option ℕ → Bool
at_least m none = false
at_least m (some x) = leb m x

abbrev is_low : Option ExecutionNodeResourceStatus → Bool
is_low (some ExecutionNodeResourceStatus.low_disk) = true
is_low (some ExecutionNodeResourceStatus.low_memory) = true
is_low _ = false

unfoldable pub ec2_host_resource : PlacementSettings → ℕ → ExecutionNode → Bool
unfolding resource_stale_seconds
ec2_host_resource s now n =
    not s.devnest_node_resource_monitor_enabled
    || not (is_ec2 n.provider_type)
    || at_least s.devnest_node_min_free_disk_mb n.disk_free_mb
      && at_least s.devnest_node_min_free_memory_mb n.memory_free_mb
      && at_least (now - resource_stale_seconds s.devnest_node_resource_check_interval_seconds)
          n.last_resource_check_at
      && not (is_low n.resource_status)

unfoldable pub schedulable_base : PlacementSettings → ℕ → List ExecutionNode → ExecutionNode → Bool
unfolding ready_schedulable_provider single_node_primary_id_clause ec2_host_resource
schedulable_base s now nodes n =
    ready_schedulable_provider s n
    && single_node_primary_id_clause s nodes n
    && ec2_host_resource s now n

unfoldable pub heartbeat_fresh : PlacementSettings → ℕ → ExecutionNode → Bool
heartbeat_fresh s now n =
    not s.devnest_require_fresh_node_heartbeat
    || at_least (now - s.devnest_node_heartbeat_max_age_seconds) n.last_heartbeat_at

-- The order of texts by code points.
unfoldable pub text_lt : Text → Text → Bool
text_lt [] [] = false
text_lt [] (d ∷ t) = true
text_lt (c ∷ s) [] = false
text_lt (c ∷ s) (d ∷ t) = if ltb c d then true else if ltb d c then false else text_lt s t

module _ {ℓ} {A : Type ℓ} where
  -- First by one order, then by another.
  abbrev pub then_by : (A → A → Bool) → (A → A → Bool) → A → A → Bool
  then_by lt lt' a b = if lt a b then true else if lt b a then false else lt' a b

  unfoldable pub insert_by : (A → A → Bool) → A → List A → List A
  insert_by lt a [] = a ∷ []
  insert_by lt a (b ∷ bs) = if lt b a then b ∷ insert_by lt a bs else a ∷ b ∷ bs

  -- `ORDER BY`, and Python's stable sort.
  unfoldable pub sort_by : (A → A → Bool) → List A → List A
  unfolding insert_by
  sort_by lt [] = []
  sort_by lt (a ∷ as') = insert_by lt a (sort_by lt as')

unfoldable pub list_schedulable_nodes :
    PlacementSettings → ℕ → List ExecutionNode → List ExecutionNode
unfolding schedulable_base sort_by text_lt
list_schedulable_nodes s now nodes =
    sort_by (λ (a b : ExecutionNode). text_lt a.node_key b.node_key)
      (select (schedulable_base s now nodes) nodes)

-- What is left of the three resources after the placement, the workloads, and the key.
unfoldable pub packs_before : Db → WorkspaceComputeRequest → ExecutionNode → ExecutionNode → Bool
unfolding text_lt reserved_cpu_sum reserved_memory_sum reserved_disk_sum active_workload_count
packs_before db req =
    let left = λ (total reserved requested : ℕ). total - reserved - requested in
    then_by
      (λ (a b : ExecutionNode).
        ltb (left a.allocatable_cpu (reserved_cpu_sum db a.node_key) req.requested_cpu)
          (left b.allocatable_cpu (reserved_cpu_sum db b.node_key) req.requested_cpu))
      (then_by
        (λ (a b : ExecutionNode).
          ltb
            (left a.allocatable_memory_mb (reserved_memory_sum db a.node_key)
              req.requested_memory_mb)
            (left b.allocatable_memory_mb (reserved_memory_sum db b.node_key)
              req.requested_memory_mb))
        (then_by
          (λ (a b : ExecutionNode).
            ltb (left a.allocatable_disk_mb (reserved_disk_sum db a.node_key) req.requested_disk_mb)
              (left b.allocatable_disk_mb (reserved_disk_sum db b.node_key) req.requested_disk_mb))
          (then_by
            (λ (a b : ExecutionNode).
              ltb (active_workload_count db b.node_key) (active_workload_count db a.node_key))
            (λ (a b : ExecutionNode). text_lt a.node_key b.node_key))))

-- Room for the request: the three resources, and both counts of slots.
unfoldable pub has_room : Db → WorkspaceComputeRequest → ExecutionNode → Bool
unfolding reserved_cpu_sum reserved_memory_sum reserved_disk_sum active_workload_count
    workspace_slot_claim_count
has_room db req n =
    leb (reserved_cpu_sum db n.node_key + req.requested_cpu) n.allocatable_cpu
    && leb (reserved_memory_sum db n.node_key + req.requested_memory_mb) n.allocatable_memory_mb
    && leb (reserved_disk_sum db n.node_key + req.requested_disk_mb) n.allocatable_disk_mb
    && leb (workspace_slot_claim_count db n.id + req.requested_slots) n.max_workspaces
    && leb (active_workload_count db n.node_key + req.requested_slots) n.max_workspaces

unfoldable pub is_candidate :
    PlacementSettings → ℕ → Db → WorkspaceComputeRequest → ExecutionNode → Bool
unfolding schedulable_base heartbeat_fresh has_room
is_candidate s now db req n =
    schedulable_base s now db.nodes n && heartbeat_fresh s now n && has_room db req n

abbrev pub is_positive : WorkspaceComputeRequest → Bool
is_positive req =
    ltb 0 req.requested_cpu
    && ltb 0 req.requested_memory_mb
    && ltb 0 req.requested_disk_mb
    && ltb 0 req.requested_slots

pub data Placement : Type 0 where
  placed : ExecutionNode → Placement
  refused : NodeError → Placement

abbrev pub head_or_none : List ExecutionNode → Placement
head_or_none [] = refused NodeError.no_schedulable_node
head_or_none (n ∷ ns) = placed n

-- `_assign_missing_default_topology_for_ready_nodes`
unfoldable pub assign_missing_default_topology : ℕ → ExecutionNode → ExecutionNode
assign_missing_default_topology system_default_topology_id n =
    if is_ready n.status
      && n.schedulable
      && (elim n.default_topology_id [ none ↦ true | some i ↦ false ])
    then record n { default_topology_id = some system_default_topology_id }
    else n

unfoldable pub choose_node : PlacementSettings → ℕ → Db → WorkspaceComputeRequest → Placement
unfolding is_candidate sort_by packs_before
choose_node s now db req =
    if is_positive req
    then head_or_none (sort_by (packs_before db req) (select (is_candidate s now db req) db.nodes))
    else refused NodeError.invalid_placement_parameters

-- The node, and the tables, in which missing default topologies have been filled.
unfoldable pub select_node_for_workspace :
    PlacementSettings → ℕ → ℕ → WorkspaceComputeRequest → Db → Placement × Db
unfolding choose_node assign_missing_default_topology
select_node_for_workspace s now system_default_topology_id req db =
    let db' = record db {
      nodes = map (assign_missing_default_topology system_default_topology_id) db.nodes;
    } in
    (choose_node s now db' req, db')

abbrev found_or : Option ExecutionNode → Placement
found_or none = refused NodeError.node_not_found
found_or (some n) = placed n

unfoldable pub get_node : Option ℕ → Option Text → List ExecutionNode → Placement
get_node (some node_id) node_key nodes =
    found_or (first (λ (n : ExecutionNode). n.id == node_id) nodes)
get_node none none nodes = refused NodeError.node_not_found
get_node none (some key) nodes =
    if is_empty (strip key)
    then refused NodeError.node_not_found
    else found_or (first (λ (n : ExecutionNode). text_eq n.node_key (strip key)) nodes)
