-- ===== src/Placement/Laws.antt =====
-- The choice of `select_node_for_workspace`
-- (backend/app/services/placement_service/node_placement.py).
use devnest.Base.{
  ℕ, ◌+◌, ◌-◌, ◌≤◌, ◌&&◌, ◌≡◌, Bool, true, false, List, [], ◌∷◌, select, Bool-cases, inl, inr,
  arith,
}
use devnest.Model.Rows.{ExecutionNode}
use devnest.Worker.Db.{Db}
use devnest.Placement.Capacity.{
  reserved_cpu_sum, reserved_memory_sum, reserved_disk_sum, active_workload_count,
  workspace_slot_claim_count,
}
use devnest.Placement.Select.{
  PlacementSettings, WorkspaceComputeRequest, NodeError, Placement, placed, refused, is_candidate,
  is_positive, has_room, is_ready, schedulable_base, packs_before, sort_by, head_or_none,
  choose_node,
}
use devnest.Placement.Order.{
  WeakOrder, by_number, by_number_down, by_text, then_by-WeakOrder, In, HeadIsLeast,
  sort-HeadIsLeast, In-select, select-In,
}

packs_before-WeakOrder : (db : Db) (req : WorkspaceComputeRequest) → WeakOrder (packs_before db req)
unfolding packs_before
packs_before-WeakOrder db req =
    then_by-WeakOrder _ _
      (by_number (λ (n : ExecutionNode).
        n.allocatable_cpu - reserved_cpu_sum db n.node_key - req.requested_cpu))
      (then_by-WeakOrder _ _
        (by_number (λ (n : ExecutionNode).
          n.allocatable_memory_mb - reserved_memory_sum db n.node_key - req.requested_memory_mb))
        (then_by-WeakOrder _ _
          (by_number (λ (n : ExecutionNode).
            n.allocatable_disk_mb - reserved_disk_sum db n.node_key - req.requested_disk_mb))
          (then_by-WeakOrder _ _
            (by_number_down (λ (n : ExecutionNode). active_workload_count db n.node_key))
            (by_text (λ (n : ExecutionNode). n.node_key)))))

-- The request fits on the node beside what is reserved there, in each resource and in both counts
-- of workspaces, and the node takes placements.
pub record Fits (db : Db) (req : WorkspaceComputeRequest) (n : ExecutionNode) : Type 0 where
  pub cpu : reserved_cpu_sum db n.node_key + req.requested_cpu ≤ n.allocatable_cpu
  pub memory : reserved_memory_sum db n.node_key + req.requested_memory_mb ≤ n.allocatable_memory_mb
  pub disk : reserved_disk_sum db n.node_key + req.requested_disk_mb ≤ n.allocatable_disk_mb
  pub claims : workspace_slot_claim_count db n.id + req.requested_slots ≤ n.max_workspaces
  pub workloads : active_workload_count db n.node_key + req.requested_slots ≤ n.max_workspaces
  pub schedulable : n.schedulable ≡ true
  pub ready : is_ready n.status ≡ true

room-sums :
    (db : Db) (req : WorkspaceComputeRequest) (n : ExecutionNode)
    → has_room db req n ≡ true
    → (reserved_cpu_sum db n.node_key + req.requested_cpu ≤ n.allocatable_cpu)
      × (reserved_memory_sum db n.node_key + req.requested_memory_mb ≤ n.allocatable_memory_mb)
      × (reserved_disk_sum db n.node_key + req.requested_disk_mb ≤ n.allocatable_disk_mb)
      × (workspace_slot_claim_count db n.id + req.requested_slots ≤ n.max_workspaces)
      × (active_workload_count db n.node_key + req.requested_slots ≤ n.max_workspaces)
unfolding has_room
room-sums db req n h = ground (arith, h)

base-ready :
    (s : PlacementSettings) (now : ℕ) (nodes : List ExecutionNode) (n : ExecutionNode)
    → schedulable_base s now nodes n ≡ true
    → (n.schedulable ≡ true) × (is_ready n.status ≡ true)
unfolding schedulable_base
base-ready s now nodes n h = ground (arith, h)

and_left : (a b : Bool) → a && b ≡ true → a ≡ true
and_left a b h = ground (arith, h)

and_right : (a b : Bool) → a && b ≡ true → b ≡ true
and_right a b h = ground (arith, h)

room-Fits :
    (s : PlacementSettings) (now : ℕ) (db : Db) (req : WorkspaceComputeRequest) (n : ExecutionNode)
    → is_candidate s now db req n ≡ true
    → Fits db req n
unfolding is_candidate
room-Fits s now db req n h =
    let on = base-ready s now db.nodes n (and_left _ _ (and_left _ _ h)) in
    let r = room-sums db req n (and_right _ _ h) in
    record {
      cpu = r.0;
      memory = r.1;
      disk = r.2;
      claims = r.3;
      workloads = r.4;
      schedulable = on.0;
      ready = on.1;
    }

-- What an answer says about the nodes of the database.
abbrev pub Answers : PlacementSettings → ℕ → Db → WorkspaceComputeRequest → Placement → Type 0
Answers s now db req (placed n) =
    In n db.nodes
    × (is_candidate s now db req n ≡ true)
    × Fits db req n
    × ((m : ExecutionNode)
        → In m db.nodes
        → is_candidate s now db req m ≡ true
        → packs_before db req m n ≡ false)
Answers s now db req (refused NodeError.no_schedulable_node) =
    (m : ExecutionNode) → In m db.nodes → is_candidate s now db req m ≡ false
Answers s now db req (refused NodeError.invalid_placement_parameters) = is_positive req ≡ false
Answers s now db req (refused NodeError.node_not_found) = ⊥

-- A node that is chosen is one of the database's that passes every condition, the request fits on
-- it beside what is reserved there, and no node that passes them is better by the packing order; no node is found only where none passes; and a request is
-- refused as invalid only where a size is not positive.
pub choose_node-Answers :
    (s : PlacementSettings) (now : ℕ) (db : Db) (req : WorkspaceComputeRequest)
    → Answers s now db req (choose_node s now db req)
unfolding choose_node
choose_node-Answers s now db req = elim (Bool-cases (is_positive req)) [
  | inr e ↦ rw e e
  | inl e ↦ rw e (
      by_head (sort_by (packs_before db req) pool)
        (sort-HeadIsLeast (packs_before db req) (packs_before-WeakOrder db req) pool))
]
  where
    pool : List ExecutionNode
    pool = select (is_candidate s now db req) db.nodes

    by_head :
        (l : List ExecutionNode)
        → HeadIsLeast (packs_before db req) (packs_before-WeakOrder db req) pool l
        → Answers s now db req (head_or_none l)
    by_head [] h = λ m i. elim (Bool-cases (is_candidate s now db req m)) [
      | inl c ↦ absurd (h m (select-In (is_candidate s now db req) m db.nodes i c))
      | inr c ↦ c
    ]
    by_head (n ∷ l) h =
        let here = In-select (is_candidate s now db req) n db.nodes h.0 in
        (
          here.0,
          here.1,
          room-Fits s now db req n here.1,
          λ m i c. h.1 m (select-In (is_candidate s now db req) m db.nodes i c),
        )
