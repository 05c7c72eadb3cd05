-- ===== src/Worker/State.antt =====
-- What the transaction of one job works on: the rows of the job, of its workspace and of the
-- workspace's runtime, the tables that it searches, and the rows that it appends. The ORM hands
-- every function the same objects, so one record stands for them. Log lines, metrics, the calls of
-- the gateway's route admin and notifications are left out; no row depends on them.
use devnest.Base.{ℕ, Bool, Option, List, Text, text}
use devnest.Model.Rows.{
  Workspace, WorkspaceJob, WorkspaceRuntime, WorkspaceSession, WorkspaceSnapshot,
  WorkspaceCleanupTask, ExecutionNode,
}
use devnest.Model.Logs.{AuditLog, WorkspaceUsageRecord, WorkspaceEvent}

pub record Txn : Type 0 where
  pub ws : Workspace
  pub job : WorkspaceJob
  pub runtime : Option WorkspaceRuntime
  pub sessions : List WorkspaceSession
  pub snapshots : List WorkspaceSnapshot
  pub cleanup_tasks : List WorkspaceCleanupTask
  pub nodes : List ExecutionNode
  pub audits : List AuditLog
  pub usages : List WorkspaceUsageRecord
  pub events : List WorkspaceEvent

-- The messages that the worker writes into rows.
pub data Message : Type 0 where
  capacity_wait capacity_timeout node_readiness_wait node_readiness_timeout preparing_capacity
        waiting_for_node provisioning_runtime bringup_unsuccessful stop_unsuccessful
        restart_unsuccessful update_unsuccessful no_private_ip no_published_port unsupported_type
        workspace_not_found stuck_running :
      Message

unfoldable pub render : Message → Text
render capacity_wait = text "Waiting for execution capacity"
render capacity_timeout = text "Timed out waiting for execution capacity. Please try again later."
render node_readiness_wait = text "Waiting for node readiness"
render node_readiness_timeout = text "Timed out waiting for node readiness. Please try again later."
render preparing_capacity = text "Preparing capacity..."
render waiting_for_node = text "Waiting for available node..."
render provisioning_runtime = text "Provisioning workspace runtime..."
render bringup_unsuccessful = text "Bring-up completed without success"
render stop_unsuccessful = text "Stop completed without success"
render restart_unsuccessful = text "Restart completed without success"
render update_unsuccessful = text "Update completed without success"
render no_private_ip = text "remote EC2 route target requires execution_node.private_ip "
render no_published_port = text "remote EC2 route target requires a published IDE host port "
render unsupported_type = text "Unsupported WorkspaceJob.type"
render workspace_not_found = text "Workspace row not found for job"
render stuck_running = text "stuck_running_reclaimed:job_id="

-- The results of the orchestrator (orchestrator_service/results.py). Issue lists are empty for
-- `None`; topology ids are parsed.
pub record RunningRuntime : Type 0 where
  pub node_id : Option Text
  pub topology_id : Option ℕ
  pub container_id : Option Text
  pub container_state : Option Text
  pub workspace_ip : Option ℕ
  pub internal_endpoint : Option Text
  pub gateway_route_target : Option Text
  pub probe_healthy : Option Bool
  pub applied_cpu_limit_cores : Option ℕ
  pub applied_memory_limit_mib : Option ℕ
  pub applied_pids_limit : Option ℕ
  pub applied_security_options : Option Text

pub record WorkspaceBringUpResult : Type 0 where
  pub success : Bool
  pub running : RunningRuntime
  pub issues : List Text
  pub rollback_attempted : Bool
  pub rollback_succeeded : Option Bool
  pub rollback_issues : List Text

pub record WorkspaceStopResult : Type 0 where
  pub success : Bool
  pub container_id : Option Text
  pub container_state : Option Text
  pub topology_detached : Option Bool
  pub issues : List Text

pub record WorkspaceDeleteResult : Type 0 where
  pub success : Bool
  pub issues : List Text

pub record WorkspaceRestartResult : Type 0 where
  pub success : Bool
  pub stop_success : Bool
  pub bringup_success : Bool
  pub running : RunningRuntime
  pub issues : List Text

pub record WorkspaceUpdateResult : Type 0 where
  pub success : Bool
  pub current_config_version : ℕ
  pub requested_config_version : ℕ
  pub no_op : Bool
  pub running : RunningRuntime
  pub issues : List Text

-- The exceptions of orchestrator_service/errors.py that the worker handles.
pub record Rollback : Type 0 where
  pub rollback_attempted : Bool
  pub rollback_succeeded : Option Bool
  pub rollback_issues : List Text
  pub rollback_container_id : Option Text
  pub rollback_container_state : Option Text

pub data OrchestratorError : Type 0 where
  bring_up_error : Text → Rollback → OrchestratorError
  stop_error delete_error restart_error update_error snapshot_error : Text → OrchestratorError

pub data Answer (A : Type 0) : Type 0 where
  returned : A → Answer A
  raised : OrchestratorError → Answer A

-- What the orchestrator answers, should it be called, and the node that it is bound to.
-- `limits_error` is the message of the `ValueError` that reading the configured limits raises.
pub record OrchestratorService : Type 0 where
  pub node_id : Option Text
  pub limits_error : Option Text
  pub bring_up_workspace_runtime : Answer WorkspaceBringUpResult
  pub stop_workspace_runtime : Answer WorkspaceStopResult
  pub delete_workspace_runtime : Answer WorkspaceDeleteResult
  pub restart_workspace_runtime : Answer WorkspaceRestartResult
  pub update_workspace_runtime : Answer WorkspaceUpdateResult

-- How the body of a job ends: it returns, an exception of the orchestrator leaves it, or the type
-- of the job is not supported. What it changed before stays changed.
pub data Body : Type 0 where
  done : Txn → Body
  failed : OrchestratorError → Txn → Body
  unsupported : Txn → Body
