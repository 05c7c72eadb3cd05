-- ===== src/Model/Enums.antt =====
-- Enumerations stored as strings: backend/app/services/workspace_service/models/enums.py, those of
-- the placement service, and the error codes of the worker.
use devnest.Base.{Bool, true, false}

pub data WorkspaceStatus : Type 0 where
  creating pending starting running stopping stopped restarting updating error deleting deleted :
      WorkspaceStatus

-- `unsupported` is any other string in the column.
pub data WorkspaceJobType : Type 0 where
  create start stop restart delete update reconcile_runtime snapshot_create snapshot_restore
        repo_import unsupported :
      WorkspaceJobType

pub data WorkspaceJobStatus : Type 0 where
  queued running succeeded failed cancelled : WorkspaceJobStatus

pub data WorkspaceSnapshotStatus : Type 0 where
  creating available failed restoring : WorkspaceSnapshotStatus

pub data WorkspaceRuntimeHealthStatus : Type 0 where
  unknown healthy degraded unhealthy cleanup_required : WorkspaceRuntimeHealthStatus

pub data FailureStage : Type 0 where
  storage network container proxy placement capacity auth unknown : FailureStage

pub data WorkspaceCleanupTaskStatus : Type 0 where
  pending succeeded : WorkspaceCleanupTaskStatus

pub data WorkspaceSessionStatus : Type 0 where
  active revoked expired : WorkspaceSessionStatus

pub data ExecutionNodeStatus : Type 0 where
  provisioning ready not_ready draining terminating terminated error : ExecutionNodeStatus

pub data ExecutionNodeProviderType : Type 0 where
  local ec2 unspecified : ExecutionNodeProviderType

pub data ExecutionNodeExecutionMode : Type 0 where
  local_docker ssh_docker ssm_docker : ExecutionNodeExecutionMode

-- `other` is any other text, the empty one included.
pub data ExecutionNodeResourceStatus : Type 0 where
  low_disk low_memory other : ExecutionNodeResourceStatus

-- The values of `failure_code` and `last_error_code`. Each is a constant of at most 64 characters,
-- so that the cuts to 64 leave it alone; `stage` is a failure stage's own value.
pub data Code : Type 0 where
  stage : FailureStage → Code
  placement no_schedulable_node node_readiness orchestrator_binding missing_workspace
        stuck_running_reclaimed stuck_running_terminal invalid_runtime_limits workspace_job_failed
        orchestrator_exception placement_failed orchestrator_binding_failed ready_gate_pending :
      Code

pub data ScopeType : Type 0 where
  global user workspace : ScopeType

-- The tests of the queries.
abbrev pub is_queued : WorkspaceJobStatus → Bool
is_queued WorkspaceJobStatus.queued = true
is_queued _ = false

abbrev pub is_job_running : WorkspaceJobStatus → Bool
is_job_running WorkspaceJobStatus.running = true
is_job_running _ = false

abbrev pub is_active : WorkspaceSessionStatus → Bool
is_active WorkspaceSessionStatus.active = true
is_active _ = false

abbrev pub is_ec2 : ExecutionNodeProviderType → Bool
is_ec2 ExecutionNodeProviderType.ec2 = true
is_ec2 _ = false

-- `_BUSY_STATUSES` of workspace_intent_service.py: a job is under way.
abbrev pub is_busy : WorkspaceStatus → Bool
is_busy WorkspaceStatus.creating = true
is_busy WorkspaceStatus.pending = true
is_busy WorkspaceStatus.starting = true
is_busy WorkspaceStatus.stopping = true
is_busy WorkspaceStatus.restarting = true
is_busy WorkspaceStatus.updating = true
is_busy WorkspaceStatus.deleting = true
is_busy _ = false

abbrev pub is_deleted : WorkspaceStatus → Bool
is_deleted WorkspaceStatus.deleted = true
is_deleted _ = false
