-- ===== src/Placement/Capacity.antt =====
-- backend/app/services/placement_service/capacity.py. A query that joins runtimes with workspaces
-- keeps the runtimes whose workspace exists and holds a slot.
use devnest.Base.{
  ℕ, Bool, true, false, not, ◌&&◌, Option, none, some, if◌then◌else◌, ◌==◌, any, count, sum_of,
  strip, is_empty, Text, text_eq,
}
use devnest.Model.Enums.{WorkspaceStatus}
use devnest.Model.Rows.{Workspace, WorkspaceRuntime}
use devnest.Worker.Db.{Db}

-- `_WORKSPACE_STATUSES_EXCLUDED_FROM_RESERVATION_SUM`
abbrev pub is_excluded : WorkspaceStatus → Bool
is_excluded WorkspaceStatus.stopped = true
is_excluded WorkspaceStatus.deleted = true
is_excluded WorkspaceStatus.error = true
is_excluded _ = false

abbrev pinned_to : Text → Option Text → Bool
pinned_to key none = false
pinned_to key (some node_id) = text_eq node_id key && not (is_empty node_id)

-- A runtime that is pinned to the node and counts.
unfoldable pub counts_on : Db → Text → WorkspaceRuntime → Bool
counts_on db key r =
    pinned_to key r.node_id
    && any (λ (w : Workspace). w.workspace_id == r.workspace_id && not (is_excluded w.status))
        db.workspaces

unfoldable pub reserved_cpu_sum : Db → Text → ℕ
unfolding counts_on
reserved_cpu_sum db key =
    sum_of (counts_on db key) (λ (r : WorkspaceRuntime). r.reserved_cpu) db.runtimes

unfoldable pub reserved_memory_sum : Db → Text → ℕ
unfolding counts_on
reserved_memory_sum db key =
    sum_of (counts_on db key) (λ (r : WorkspaceRuntime). r.reserved_memory_mb) db.runtimes

unfoldable pub reserved_disk_sum : Db → Text → ℕ
unfolding counts_on
reserved_disk_sum db key =
    sum_of (counts_on db key) (λ (r : WorkspaceRuntime). r.reserved_disk_mb) db.runtimes

unfoldable pub active_workload_count : Db → Text → ℕ
unfolding counts_on
active_workload_count db key = count (counts_on db key) db.runtimes

abbrev pub claims_node : ℕ → Workspace → Bool
claims_node node_id w =
    (elim w.execution_node_id [ none ↦ false | some i ↦ i == node_id ])
    && not (is_excluded w.status)

unfoldable pub workspace_slot_claim_count : Db → ℕ → ℕ
workspace_slot_claim_count db node_id = count (claims_node node_id) db.workspaces

-- The same sums for a key that is stripped first; a blank key has none.
unfoldable pub total_reserved_on_node_key : Db → Text → ℕ × ℕ
unfolding reserved_cpu_sum reserved_memory_sum
total_reserved_on_node_key db node_key =
    if is_empty (strip node_key)
    then (0, 0)
    else (reserved_cpu_sum db (strip node_key), reserved_memory_sum db (strip node_key))

unfoldable pub total_reserved_disk_mb_on_node_key : Db → Text → ℕ
unfolding reserved_disk_sum
total_reserved_disk_mb_on_node_key db node_key =
    if is_empty (strip node_key) then 0 else reserved_disk_sum db (strip node_key)

unfoldable pub count_active_workloads_on_node_key : Db → Text → ℕ
unfolding active_workload_count
count_active_workloads_on_node_key db node_key =
    if is_empty (strip node_key) then 0 else active_workload_count db (strip node_key)

unfoldable pub count_workspace_slot_claims_on_node_id : Db → ℕ → ℕ
unfolding workspace_slot_claim_count
count_workspace_slot_claims_on_node_id db node_id = workspace_slot_claim_count db node_id
