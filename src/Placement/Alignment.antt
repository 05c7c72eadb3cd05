-- ===== src/Placement/Alignment.antt =====
-- The ranking of the scheduler (backend/app/services/scheduler_service/policy.py) beside the query
-- of the placement (backend/app/services/placement_service/node_placement.py).
use devnest.Base.{
  ℕ, ◌+◌, ◌-◌, ◌<◌, ◌≡◌, refl, ap, ◌∙◌, Bool, true, false, not, ◌&&◌, List, [], ◌∷◌, select,
  if◌then◌else◌, ltb, leb, max, strip, is_empty, Text, Bool-cases, inl, inr, arith,
}
use devnest.Model.Rows.{ExecutionNode}
use devnest.Worker.Db.{Db}
use devnest.Placement.Capacity.{
  reserved_cpu_sum, reserved_memory_sum, reserved_disk_sum, active_workload_count,
  workspace_slot_claim_count, total_reserved_on_node_key, total_reserved_disk_mb_on_node_key,
  count_active_workloads_on_node_key,
}
use devnest.Placement.Select.{
  WorkspaceComputeRequest, is_ready, is_positive, has_room, packs_before, sort_by, insert_by,
  text_lt,
}
use devnest.Placement.Policy.{
  free_cpu, free_mem, free_disk, workload_count, is_ranked, scheduling_sort_key_packing_lt,
  rank_candidate_nodes,
}

-- The keys of the nodes are neither empty nor have spaces at their ends.
abbrev pub KeysAreClean : List ExecutionNode → Type 0
KeysAreClean [] = Unit
KeysAreClean (n ∷ ns) =
    ((strip n.node_key ≡ n.node_key) × (is_empty n.node_key ≡ false)) × KeysAreClean ns

abbrev IsClean : ExecutionNode → Type 0
IsClean n = (strip n.node_key ≡ n.node_key) × (is_empty n.node_key ≡ false)

-- A difference that stops at 0 has room for a positive request where the sum fits.
room : (a r q : ℕ) → 0 < q → ltb (a - r) q ≡ not (leb (r + q) a)
room a r q pos = ground (arith, pos)

slots : (m w c q : ℕ) → 0 < q → ltb (m - max w c) q ≡ not (leb (c + q) m && leb (w + q) m)
slots m w c q pos = ground (arith, pos)

chain :
    (p a b c d e : Bool)
    → (if not p
        then false
        else if not
            (if not a then false else if not b then false else if not c then false else true)
        then false
        else if not (d && e)
        then false
        else true)
      ≡ (p && (a && b && c && d && e))
chain p a b c d e = ground arith

module _ (db : Db) (key : Text) (clean : strip key ≡ key) (filled : is_empty key ≡ false) where
  reserved-clean :
      total_reserved_on_node_key db (strip key)
      ≡ (reserved_cpu_sum db key, reserved_memory_sum db key)
  unfolding total_reserved_on_node_key
  reserved-clean = rw clean (rw clean (rw filled))

  disk-clean : total_reserved_disk_mb_on_node_key db (strip key) ≡ reserved_disk_sum db key
  unfolding total_reserved_disk_mb_on_node_key
  disk-clean = rw clean (rw clean (rw filled))

  workloads-clean : count_active_workloads_on_node_key db (strip key) ≡ active_workload_count db key
  unfolding count_active_workloads_on_node_key
  workloads-clean = rw clean (rw clean (rw filled))

module _ (db : Db) (req : WorkspaceComputeRequest) where
  record Agrees (n : ExecutionNode) : Type 0 where
    cpu : free_cpu db n ≡ n.allocatable_cpu - reserved_cpu_sum db n.node_key
    mem : free_mem db n ≡ n.allocatable_memory_mb - reserved_memory_sum db n.node_key
    disk : free_disk db n ≡ n.allocatable_disk_mb - reserved_disk_sum db n.node_key
    workloads : workload_count db n ≡ active_workload_count db n.node_key

  clean-Agrees : (n : ExecutionNode) → IsClean n → Agrees n
  unfolding free_cpu free_mem free_disk workload_count total_reserved_on_node_key
      total_reserved_disk_mb_on_node_key count_active_workloads_on_node_key
  clean-Agrees n c = record {
    cpu = ap (λ (p : ℕ × ℕ). n.allocatable_cpu - p.0) (reserved-clean db n.node_key c.0 c.1);
    mem = ap (λ (p : ℕ × ℕ). n.allocatable_memory_mb - p.1) (reserved-clean db n.node_key c.0 c.1);
    disk = ap (λ (d : ℕ). n.allocatable_disk_mb - d) (disk-clean db n.node_key c.0 c.1);
    workloads = workloads-clean db n.node_key c.0 c.1;
  }

  abbrev pub sql_pool : ExecutionNode → Bool
  sql_pool n = (n.schedulable && is_ready n.status) && has_room db req n

  abbrev ranked_at : ExecutionNode → ℕ → ℕ → ℕ → ℕ → Bool
  ranked_at n cpu mem disk workloads =
      if not (n.schedulable && is_ready n.status)
      then false
      else if not (
          if ltb cpu req.requested_cpu
          then false
          else if ltb mem req.requested_memory_mb
          then false
          else if ltb disk req.requested_disk_mb
          then false
          else true)
      then false
      else if ltb (n.max_workspaces - max workloads (workspace_slot_claim_count db n.id))
          req.requested_slots
      then false
      else true

  is_ranked-at :
      (n : ExecutionNode)
      → is_ranked db req n
        ≡ ranked_at n (free_cpu db n) (free_mem db n) (free_disk db n) (workload_count db n)
  unfolding is_ranked
  is_ranked-at n = refl

  -- The two filters say the same, on naturals that stop at 0 and on sums.
  ranked-pool :
      (n : ExecutionNode) → is_positive req ≡ true → IsClean n → is_ranked db req n ≡ sql_pool n
  unfolding has_room
  ranked-pool n pos c =
      let a = clean-Agrees n c in
      is_ranked-at n
      ∙ (λ i. ranked_at n (a.cpu i) (a.mem i) (a.disk i) (a.workloads i))
      ∙ rw
          (
            room n.allocatable_cpu (reserved_cpu_sum db n.node_key) req.requested_cpu
                (ground (arith, pos)),
            room n.allocatable_memory_mb (reserved_memory_sum db n.node_key) req.requested_memory_mb
                (ground (arith, pos)),
            room n.allocatable_disk_mb (reserved_disk_sum db n.node_key) req.requested_disk_mb
                (ground (arith, pos)),
            slots n.max_workspaces (active_workload_count db n.node_key)
                (workspace_slot_claim_count db n.id) req.requested_slots (ground (arith, pos)),
          )
          (chain (n.schedulable && is_ready n.status)
            (leb (reserved_cpu_sum db n.node_key + req.requested_cpu) n.allocatable_cpu)
            (leb (reserved_memory_sum db n.node_key + req.requested_memory_mb)
              n.allocatable_memory_mb)
            (leb (reserved_disk_sum db n.node_key + req.requested_disk_mb) n.allocatable_disk_mb)
            (leb (workspace_slot_claim_count db n.id + req.requested_slots) n.max_workspaces)
            (leb (active_workload_count db n.node_key + req.requested_slots) n.max_workspaces))

  abbrev order_at :
      ExecutionNode → ExecutionNode → ℕ × ℕ × ℕ × ℕ × Text → ℕ × ℕ × ℕ × ℕ × Text → Bool
  order_at a b (c, m, d, w, k) (c', m', d', w', k') =
      let x = c - req.requested_cpu in
      let x' = c' - req.requested_cpu in
      let y = m - req.requested_memory_mb in
      let y' = m' - req.requested_memory_mb in
      let z = d - req.requested_disk_mb in
      let z' = d' - req.requested_disk_mb in
      if ltb x x'
      then true
      else if ltb x' x
      then false
      else if ltb y y'
      then true
      else if ltb y' y
      then false
      else if ltb z z'
      then true
      else if ltb z' z
      then false
      else if ltb w' w
      then true
      else if ltb w w'
      then false
      else text_lt k k'

  order-clean :
      (a b : ExecutionNode)
      → IsClean a
      → IsClean b
      → scheduling_sort_key_packing_lt db req a b ≡ packs_before db req a b
  unfolding scheduling_sort_key_packing_lt packs_before
  order-clean a b c d =
      let p = clean-Agrees a c in
      let q = clean-Agrees b d in
      λ i.
        order_at a b (p.cpu i, p.mem i, p.disk i, p.workloads i, c.0 i)
          (q.cpu i, q.mem i, q.disk i, q.workloads i, d.0 i)

  module _ (pos : is_positive req ≡ true) where
    select-pool :
        (ns : List ExecutionNode)
        → KeysAreClean ns
        → select (is_ranked db req) ns ≡ select sql_pool ns
    select-pool [] c = refl
    select-pool (n ∷ ns) c = rw (ranked-pool n pos c.0) (
        ap (λ (rest : List ExecutionNode). if sql_pool n then n ∷ rest else rest)
          (select-pool ns c.1))

    select-KeysAreClean :
        (ns : List ExecutionNode) → KeysAreClean ns → KeysAreClean (select sql_pool ns)
    select-KeysAreClean [] c = tt
    select-KeysAreClean (n ∷ ns) c = elim (Bool-cases (sql_pool n)) [
      | inl e ↦ rw e (c.0, select-KeysAreClean ns c.1)
      | inr e ↦ rw e (select-KeysAreClean ns c.1)
    ]

    insert-KeysAreClean :
        (lt : ExecutionNode → ExecutionNode → Bool) (n : ExecutionNode) (ns : List ExecutionNode)
        → IsClean n
        → KeysAreClean ns
        → KeysAreClean (insert_by lt n ns)
    unfolding insert_by
    insert-KeysAreClean lt n [] c d = (c, tt)
    insert-KeysAreClean lt n (m ∷ ns) c d = elim (Bool-cases (lt m n)) [
      | inl e ↦ rw e (d.0, insert-KeysAreClean lt n ns c d.1)
      | inr e ↦ rw e (c, d)
    ]

    insert-order :
        (n : ExecutionNode) (ns : List ExecutionNode)
        → IsClean n
        → KeysAreClean ns
        → insert_by (scheduling_sort_key_packing_lt db req) n ns
          ≡ insert_by (packs_before db req) n ns
    unfolding insert_by
    insert-order n [] c d = refl
    insert-order n (m ∷ ns) c d = rw (order-clean m n d.0 c) (
        ap (λ (rest : List ExecutionNode). if packs_before db req m n then m ∷ rest else n ∷ m ∷ ns)
          (insert-order n ns c d.1))

    sort-KeysAreClean :
        (lt : ExecutionNode → ExecutionNode → Bool) (ns : List ExecutionNode)
        → KeysAreClean ns
        → KeysAreClean (sort_by lt ns)
    unfolding sort_by
    sort-KeysAreClean lt [] d = tt
    sort-KeysAreClean lt (n ∷ ns) d =
        insert-KeysAreClean lt n (sort_by lt ns) d.0 (sort-KeysAreClean lt ns d.1)

    sort-order :
        (ns : List ExecutionNode)
        → KeysAreClean ns
        → sort_by (scheduling_sort_key_packing_lt db req) ns ≡ sort_by (packs_before db req) ns
    unfolding sort_by
    sort-order [] d = refl
    sort-order (n ∷ ns) d =
        ap (insert_by (scheduling_sort_key_packing_lt db req) n) (sort-order ns d.1)
        ∙ insert-order n (sort_by (packs_before db req) ns) d.0
            (sort-KeysAreClean (packs_before db req) ns d.1)

    -- For a positive request and nodes whose keys are clean, the ranking of the scheduler is what
    -- the query of the placement does on the same nodes, in the conditions of capacity and of slots
    -- and in the order: sums that are compared in SQL, and differences cut at 0 in Python.
    pub rank_candidate_nodes-query :
        (nodes : List ExecutionNode)
        → KeysAreClean nodes
        → rank_candidate_nodes db nodes req ≡ sort_by (packs_before db req) (select sql_pool nodes)
    unfolding rank_candidate_nodes
    rank_candidate_nodes-query nodes c =
        ap (sort_by (scheduling_sort_key_packing_lt db req)) (select-pool nodes c)
        ∙ sort-order (select sql_pool nodes) (select-KeysAreClean nodes c)
