-- ===== src/Examples/Placements.antt =====
-- Two nodes, one of them with a workspace.
use devnest.Base.{
  ℕ, ◌≡◌, refl, true, false, none, some, List, [], ◌∷◌, select, Text, text, text_eq, strip,
}
use devnest.Model.Enums.{
  ExecutionNodeStatus, ExecutionNodeProviderType, ExecutionNodeExecutionMode, WorkspaceStatus,
}
use devnest.Model.Rows.{ExecutionNode}
use devnest.Worker.Db.{Db}
use devnest.Placement.Select.{
  PlacementSettings, NodeProvider, WorkspaceComputeRequest, placed, choose_node, packs_before,
  sort_by,
}
use devnest.Placement.Policy.{rank_candidate_nodes}
use devnest.Placement.Laws.{Answers, choose_node-Answers}
use devnest.Placement.Alignment.{sql_pool, rank_candidate_nodes-query}
use devnest.Examples.Data.{workspace, reserved_runtime, db_with}

abbrev node : ℕ → Text → ℕ → ExecutionNode
node id key cpu = record {
  id = id;
  node_key = key;
  provider_type = ExecutionNodeProviderType.local;
  execution_mode = ExecutionNodeExecutionMode.local_docker;
  private_ip = none;
  status = ExecutionNodeStatus.ready;
  schedulable = true;
  last_error_code = none;
  last_error_message = none;
  allocatable_cpu = cpu;
  allocatable_memory_mb = 8192;
  allocatable_disk_mb = 102400;
  max_workspaces = 32;
  default_topology_id = some 1;
  last_heartbeat_at = none;
  disk_free_mb = none;
  memory_free_mb = none;
  last_resource_check_at = none;
  resource_status = none;
  updated_at = 0;
}

abbrev nodes : List ExecutionNode
nodes = node 1 (text "a") 8000 ∷ node 2 (text "b") 4000 ∷ []

abbrev fleet : Db
fleet = record (db_with (workspace 1 7 WorkspaceStatus.running ∷ []) []) {
  nodes = nodes;
  runtimes = record reserved_runtime { node_id = some (text "b") } ∷ [];
}

abbrev placement_settings : PlacementSettings
placement_settings = record {
  devnest_node_provider = NodeProvider.all;
  devnest_enable_multi_node_scheduling = true;
  devnest_require_fresh_node_heartbeat = false;
  devnest_node_heartbeat_max_age_seconds = 300;
  devnest_node_resource_monitor_enabled = true;
  devnest_node_min_free_disk_mb = 10240;
  devnest_node_min_free_memory_mb = 1024;
  devnest_node_resource_check_interval_seconds = 60;
}

abbrev request : WorkspaceComputeRequest
request = record {
  requested_cpu = 1000;
  requested_memory_mb = 512;
  requested_disk_mb = 4096;
  requested_slots = 1;
}

-- The node that is in use already is filled up first.
packs : choose_node placement_settings 100 fleet request ≡ placed (node 2 (text "b") 4000)
unfolding choose_node text_eq
packs = refl

choose_node-Answers_example :
    Answers placement_settings 100 fleet request (choose_node placement_settings 100 fleet request)
choose_node-Answers_example = choose_node-Answers placement_settings 100 fleet request

rank_candidate_nodes-query_example :
    rank_candidate_nodes fleet nodes request
    ≡ sort_by (packs_before fleet request) (select (sql_pool fleet request) nodes)
unfolding strip
rank_candidate_nodes-query_example =
    rank_candidate_nodes-query fleet request refl nodes ((refl, refl), ((refl, refl), tt))
