-- ===== src/Placement/Policy.antt =====
-- backend/app/services/scheduler_service/policy.py. CPU shares are thousandths of a core, so that
-- rounding the first part of a key to six places changes nothing.
use devnest.Base.{
  ℕ, ◌-◌, Bool, true, false, not, ◌&&◌, List, if◌then◌else◌, ltb, max, select, strip,
}
use devnest.Model.Rows.{ExecutionNode}
use devnest.Worker.Db.{Db}
use devnest.Placement.Capacity.{
  total_reserved_on_node_key, total_reserved_disk_mb_on_node_key,
  count_active_workloads_on_node_key, count_workspace_slot_claims_on_node_id,
}
use devnest.Placement.Select.{WorkspaceComputeRequest, is_ready, text_lt, then_by, sort_by}

unfoldable pub free_cpu : Db → ExecutionNode → ℕ
unfolding total_reserved_on_node_key
free_cpu db n = n.allocatable_cpu - (total_reserved_on_node_key db (strip n.node_key)).0

unfoldable pub free_mem : Db → ExecutionNode → ℕ
unfolding total_reserved_on_node_key
free_mem db n = n.allocatable_memory_mb - (total_reserved_on_node_key db (strip n.node_key)).1

unfoldable pub free_disk : Db → ExecutionNode → ℕ
unfolding total_reserved_disk_mb_on_node_key
free_disk db n = n.allocatable_disk_mb - total_reserved_disk_mb_on_node_key db (strip n.node_key)

unfoldable pub workload_count : Db → ExecutionNode → ℕ
unfolding count_active_workloads_on_node_key
workload_count db n = count_active_workloads_on_node_key db (strip n.node_key)

unfoldable pub can_fit_workspace_effective : ℕ → ℕ → ℕ → WorkspaceComputeRequest → Bool
can_fit_workspace_effective cpu mem disk req =
    if ltb cpu req.requested_cpu
    then false
    else if ltb mem req.requested_memory_mb
    then false
    else if ltb disk req.requested_disk_mb
    then false
    else true

unfoldable pub is_v1_scheduling_candidate : ExecutionNode → Bool
is_v1_scheduling_candidate n = n.schedulable && is_ready n.status

unfoldable pub is_ranked : Db → WorkspaceComputeRequest → ExecutionNode → Bool
unfolding is_v1_scheduling_candidate can_fit_workspace_effective free_cpu free_mem free_disk
    workload_count count_workspace_slot_claims_on_node_id
is_ranked db req n =
    if not (is_v1_scheduling_candidate n)
    then false
    else if not (can_fit_workspace_effective (free_cpu db n) (free_mem db n) (free_disk db n) req)
    then false
    else if ltb
        (n.max_workspaces
          - max (workload_count db n) (count_workspace_slot_claims_on_node_id db n.id))
        req.requested_slots
    then false
    else true

-- The order of the tuples of `scheduling_sort_key_packing`.
unfoldable pub scheduling_sort_key_packing_lt :
    Db → WorkspaceComputeRequest → ExecutionNode → ExecutionNode → Bool
unfolding text_lt free_cpu free_mem free_disk workload_count
scheduling_sort_key_packing_lt db req =
    then_by
      (λ (a b : ExecutionNode).
        ltb (free_cpu db a - req.requested_cpu) (free_cpu db b - req.requested_cpu))
      (then_by
        (λ (a b : ExecutionNode).
          ltb (free_mem db a - req.requested_memory_mb) (free_mem db b - req.requested_memory_mb))
        (then_by
          (λ (a b : ExecutionNode).
            ltb (free_disk db a - req.requested_disk_mb) (free_disk db b - req.requested_disk_mb))
          (then_by (λ (a b : ExecutionNode). ltb (workload_count db b) (workload_count db a))
            (λ (a b : ExecutionNode). text_lt (strip a.node_key) (strip b.node_key)))))

unfoldable pub rank_candidate_nodes :
    Db → List ExecutionNode → WorkspaceComputeRequest → List ExecutionNode
unfolding is_ranked scheduling_sort_key_packing_lt sort_by
rank_candidate_nodes db nodes req =
    sort_by (scheduling_sort_key_packing_lt db req) (select (is_ranked db req) nodes)
