-- ===== src/Model/Logs.antt =====
-- The append-only tables: audit rows (services/audit_service), usage records
-- (services/usage_service) and workspace events (workspace_event_service.py). A row keeps what
-- identifies it and what is stored of the workspace and the job; metadata that repeats these, and
-- the reason texts of denials, are left out.
use devnest.Base.{ℕ, Option, Text}
use devnest.Model.Enums.{WorkspaceStatus, WorkspaceJobType}

pub data AuditAction : Type 0 where
  workspace_create_requested workspace_start_requested workspace_stop_requested
        workspace_restart_requested workspace_delete_requested workspace_update_requested
        workspace_job_succeeded workspace_job_failed policy_denied quota_exceeded :
      AuditAction
  -- `workspace.<job type>.requested`
  workspace_requested : WorkspaceJobType → AuditAction

pub data AuditActorType : Type 0 where
  user system : AuditActorType

pub data AuditOutcome : Type 0 where
  success failure denied : AuditOutcome

pub record AuditLog : Type 0 where
  pub action : AuditAction
  pub actor_user_id : Option ℕ
  pub actor_type : AuditActorType
  pub outcome : AuditOutcome
  pub workspace_id : Option ℕ
  pub job_id : Option ℕ
  pub node_id : Option Text

pub data UsageEventType : Type 0 where
  workspace_created workspace_started workspace_stopped workspace_deleted workspace_job_failed :
      UsageEventType

pub record WorkspaceUsageRecord : Type 0 where
  pub workspace_id : ℕ
  pub owner_user_id : ℕ
  pub event_type : UsageEventType
  pub quantity : ℕ
  pub node_id : Option Text
  pub job_id : Option ℕ
  pub created_at : ℕ

pub data WorkspaceStreamEventType : Type 0 where
  intent_queued job_running job_succeeded job_failed job_retry_scheduled job_retry_exhausted
        reconcile_retry_scheduled reconcile_failed_terminal :
      WorkspaceStreamEventType

-- `status` is the workspace's status at the time; the payload names the job.
pub record WorkspaceEvent : Type 0 where
  pub workspace_id : ℕ
  pub event_type : WorkspaceStreamEventType
  pub status : WorkspaceStatus
  pub job_id : ℕ
