-- ===== src/Model/Rows.antt =====
-- The rows of the tables under backend/app/services/*/models. Times are seconds, CPU shares are
-- thousandths of a core. Columns that the modelled operations neither read nor write are left out,
-- and so are the correlation ids, which go to logs and audit rows alone.
use devnest.Base.{ℕ, Bool, Option, none, List, Text}
use devnest.Model.Enums.{
  WorkspaceStatus, WorkspaceJobType, WorkspaceJobStatus, WorkspaceSnapshotStatus, ScopeType,
  WorkspaceRuntimeHealthStatus, FailureStage, WorkspaceCleanupTaskStatus, WorkspaceSessionStatus,
  ExecutionNodeStatus, ExecutionNodeProviderType, ExecutionNodeExecutionMode,
  ExecutionNodeResourceStatus, Code,
}

pub record Workspace : Type 0 where
  pub workspace_id : ℕ
  pub execution_node_id : Option ℕ
  pub owner_user_id : ℕ
  pub status : WorkspaceStatus
  pub status_reason : Option Text
  pub last_error_code : Option Code
  pub last_error_message : Option Text
  pub endpoint_ref : Option Text
  pub active_sessions_count : ℕ
  pub is_private : Bool
  pub updated_at : ℕ
  pub last_started : Option ℕ
  pub last_stopped : Option ℕ

pub record WorkspaceJob : Type 0 where
  pub workspace_job_id : ℕ
  pub workspace_id : ℕ
  pub workspace_snapshot_id : Option ℕ
  pub job_type : WorkspaceJobType
  pub status : WorkspaceJobStatus
  pub requested_by_user_id : ℕ
  pub requested_config_version : ℕ
  pub attempt : ℕ
  pub error_msg : Option Text
  pub created_at : ℕ
  pub started_at : Option ℕ
  pub finished_at : Option ℕ
  pub max_attempts : ℕ
  pub failure_stage : Option FailureStage
  pub failure_code : Option Code
  pub next_attempt_after : Option ℕ

-- `applied_security_options` is the JSON object as a text.
pub record WorkspaceRuntime : Type 0 where
  pub workspace_id : ℕ
  pub node_id : Option Text
  pub container_id : Option Text
  pub container_state : Option Text
  pub topology_id : Option ℕ
  pub internal_endpoint : Option Text
  pub gateway_route_target : Option Text
  pub config_version : Option ℕ
  pub health_status : WorkspaceRuntimeHealthStatus
  pub reserved_cpu : ℕ
  pub reserved_memory_mb : ℕ
  pub reserved_disk_mb : ℕ
  pub applied_cpu_limit_cores : Option ℕ
  pub applied_memory_limit_mb : Option ℕ
  pub applied_pids_limit : Option ℕ
  pub applied_security_options : Option Text
  pub last_heartbeat_at : Option ℕ
  pub updated_at : ℕ

pub record WorkspaceSession : Type 0 where
  pub workspace_session_id : ℕ
  pub workspace_id : ℕ
  pub user_id : ℕ
  pub status : WorkspaceSessionStatus
  pub session_token_hash : Text
  pub issued_at : ℕ
  pub expires_at : ℕ
  pub last_seen_at : ℕ
  pub updated_at : ℕ

pub record WorkspaceSnapshot : Type 0 where
  pub workspace_snapshot_id : ℕ
  pub workspace_id : ℕ
  pub status : WorkspaceSnapshotStatus

pub data CleanupScope : Type 0 where
  bringup_rollback stop_incomplete : CleanupScope

-- What records a task writes the issues in `detail`, joined by commas, where the column holds a JSON
-- text with them.
pub record WorkspaceCleanupTask : Type 0 where
  pub workspace_id : ℕ
  pub scope : CleanupScope
  pub detail : Option Text
  pub status : WorkspaceCleanupTaskStatus
  pub attempts : ℕ
  pub updated_at : ℕ

pub record ExecutionNode : Type 0 where
  pub id : ℕ
  pub node_key : Text
  pub provider_type : ExecutionNodeProviderType
  pub execution_mode : ExecutionNodeExecutionMode
  pub private_ip : Option Text
  pub status : ExecutionNodeStatus
  pub schedulable : Bool
  pub last_error_code : Option Code
  pub last_error_message : Option Text
  pub allocatable_cpu : ℕ
  pub allocatable_memory_mb : ℕ
  pub allocatable_disk_mb : ℕ
  pub max_workspaces : ℕ
  pub default_topology_id : Option ℕ
  pub last_heartbeat_at : Option ℕ
  pub disk_free_mb : Option ℕ
  pub memory_free_mb : Option ℕ
  pub last_resource_check_at : Option ℕ
  pub resource_status : Option ExecutionNodeResourceStatus
  pub updated_at : ℕ

-- One version of a workspace's configuration, with the limits that its JSON object may hold.
pub record WorkspaceConfig : Type 0 where
  pub workspace_id : ℕ
  pub version : ℕ
  pub cpu_limit_cores : Option ℕ
  pub memory_limit_mib : Option ℕ

-- A limit that is absent is no limit. `max_runtime_hours` is kept in seconds.
pub record Quota : Type 0 where
  pub scope_type : ScopeType
  pub scope_id : Option ℕ
  pub max_workspaces : Option ℕ
  pub max_running_workspaces : Option ℕ
  pub max_cpu : Option ℕ
  pub max_memory_mb : Option ℕ
  pub max_sessions : Option ℕ
  pub max_snapshots : Option ℕ
  pub max_runtime_hours : Option ℕ

-- The keys that the code reads from `rules_json`, with the truth value of what is stored there; a
-- key that is absent or null is `none`, and so are images that are not a list.
pub record Rules : Type 0 where
  pub allow_workspace_creation : Option Bool
  pub allow_workspace_start : Option Bool
  pub allow_snapshot_creation : Option Bool
  pub allow_session_creation : Option Bool
  pub allow_node_provisioning : Option Bool
  pub require_private_workspaces : Option Bool
  pub allowed_runtime_images : Option (List Text)

pub record Policy : Type 0 where
  pub policy_id : ℕ
  pub scope_type : ScopeType
  pub scope_id : Option ℕ
  pub rules_json : Rules
  pub is_active : Bool
  pub created_at : ℕ

-- `WorkspaceRuntime(workspace_id=...)`, every other column at its default.
abbrev pub new_runtime : ℕ → ℕ → WorkspaceRuntime
new_runtime wid now = record {
  workspace_id = wid;
  node_id = none;
  container_id = none;
  container_state = none;
  topology_id = none;
  internal_endpoint = none;
  gateway_route_target = none;
  config_version = none;
  health_status = WorkspaceRuntimeHealthStatus.unknown;
  reserved_cpu = 0;
  reserved_memory_mb = 0;
  reserved_disk_mb = 0;
  applied_cpu_limit_cores = none;
  applied_memory_limit_mb = none;
  applied_pids_limit = none;
  applied_security_options = none;
  last_heartbeat_at = none;
  updated_at = now;
}
