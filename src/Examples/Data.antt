-- ===== src/Examples/Data.antt =====
-- Rows for the tests: an owner with one workspace on the defaults of the settings.
use devnest.Base.{ℕ, ◌-◌, ◌%◌, true, false, Option, none, some, List, [], ◌∷◌, Text, text}
use devnest.Model.Enums.{
  WorkspaceStatus, WorkspaceJobType, WorkspaceJobStatus, WorkspaceSessionStatus, ScopeType,
}
use devnest.Model.Rows.{
  Workspace, WorkspaceJob, WorkspaceRuntime, WorkspaceSession, WorkspaceConfig, Quota, Policy,
  new_runtime,
}
use devnest.Model.Env.{Env, Settings}
use devnest.Intent.{new_job}
use devnest.Worker.Db.{Db}
use devnest.Worker.State.{Txn, OrchestratorService, RunningRuntime, returned}

abbrev pub settings : Settings
settings = record {
  workspace_job_max_attempts = 3;
  workspace_job_retry_backoff_seconds = 30;
  workspace_capacity_retry_timeout_seconds = 900;
  workspace_capacity_retry_backoff_seconds = 30;
  workspace_job_stuck_timeout_seconds = 3600;
  workspace_session_ttl_seconds = 3600;
  devnest_reconcile_lease_ttl_seconds = 120;
  devnest_workspace_required_cpu = 1000;
  devnest_workspace_required_memory_mb = 512;
  devnest_workspace_required_disk_mb = 4096;
  devnest_workspace_required_slots = 1;
}

abbrev pub env_at : ℕ → Env
env_at now = record {
  settings = settings;
  now = now;
  randint = λ a b. a;
  route_target_port = λ _. none;
  month_start = λ t. t - t % 2592000;
  show = λ _. [];
  node_key_from_error_message = λ _. none;
}

abbrev pub workspace : ℕ → ℕ → WorkspaceStatus → Workspace
workspace wid owner status = record {
  workspace_id = wid;
  execution_node_id = none;
  owner_user_id = owner;
  status = status;
  status_reason = none;
  last_error_code = none;
  last_error_message = none;
  endpoint_ref = none;
  active_sessions_count = 0;
  is_private = true;
  updated_at = 0;
  last_started = some 100;
  last_stopped = none;
}

-- A job that was claimed at the time 1000.
abbrev pub running_job : ℕ → WorkspaceJobType → WorkspaceJob
running_job job_id job_type = record (new_job 900 job_id job_type 1 7 1) {
  status = WorkspaceJobStatus.running;
  attempt = 1;
  started_at = some 1000;
}

abbrev pub reserved_runtime : WorkspaceRuntime
reserved_runtime = record (new_runtime 1 900) {
  reserved_cpu = 1000;
  reserved_memory_mb = 512;
  reserved_disk_mb = 4096;
}

abbrev pub session : ℕ → ℕ → ℕ → Text → WorkspaceSession
session i wid expires_at hash = record {
  workspace_session_id = i;
  workspace_id = wid;
  user_id = 7;
  status = WorkspaceSessionStatus.active;
  session_token_hash = hash;
  issued_at = 0;
  expires_at = expires_at;
  last_seen_at = 0;
  updated_at = 0;
}

abbrev pub config : ℕ → WorkspaceConfig
config version = record {
  workspace_id = 1;
  version = version;
  cpu_limit_cores = none;
  memory_limit_mib = some 1024;
}

-- One workspace may run for the user 7.
abbrev pub quota : Quota
quota = record {
  scope_type = ScopeType.user;
  scope_id = some 7;
  max_workspaces = none;
  max_running_workspaces = some 1;
  max_cpu = none;
  max_memory_mb = none;
  max_sessions = none;
  max_snapshots = none;
  max_runtime_hours = none;
}

abbrev pub no_start : Policy
no_start = record {
  policy_id = 4;
  scope_type = ScopeType.workspace;
  scope_id = some 2;
  rules_json = record {
    allow_workspace_creation = none;
    allow_workspace_start = some false;
    allow_snapshot_creation = none;
    allow_session_creation = none;
    allow_node_provisioning = none;
    require_private_workspaces = some true;
    allowed_runtime_images = none;
  };
  is_active = true;
  created_at = 0;
}

abbrev pub db_with : List Workspace → List WorkspaceJob → Db
db_with workspaces jobs = record {
  workspaces = workspaces;
  jobs = jobs;
  runtimes = [];
  sessions = [];
  snapshots = [];
  cleanup_tasks = [];
  nodes = [];
  audits = [];
  usages = [];
  events = [];
  configs = config 1 ∷ [];
  quotas = quota ∷ [];
  policies = no_start ∷ [];
}

abbrev pub txn : WorkspaceStatus → WorkspaceJob → Txn
txn status job = record {
  ws = workspace 1 7 status;
  job = job;
  runtime = some reserved_runtime;
  sessions = session 1 1 5000 (text "a") ∷ session 2 2 5000 (text "b") ∷ [];
  snapshots = [];
  cleanup_tasks = [];
  nodes = [];
  audits = [];
  usages = [];
  events = [];
}

abbrev pub container : RunningRuntime
container = record {
  node_id = some (text "node-1");
  topology_id = some 1;
  container_id = some (text "c1");
  container_state = some (text "running");
  workspace_ip = some 167772162;
  internal_endpoint = some (text "http://10.0.0.2:8080");
  gateway_route_target = some (text "http://10.0.0.2:8080");
  probe_healthy = some true;
  applied_cpu_limit_cores = none;
  applied_memory_limit_mib = none;
  applied_pids_limit = none;
  applied_security_options = none;
}

-- An orchestrator on which everything succeeds, but for the limits.
abbrev pub orchestrator : Option Text → OrchestratorService
orchestrator limits_error = record {
  node_id = some (text "node-1");
  limits_error = limits_error;
  bring_up_workspace_runtime = returned (record {
    success = true;
    running = container;
    issues = [];
    rollback_attempted = false;
    rollback_succeeded = none;
    rollback_issues = [];
  });
  stop_workspace_runtime = returned (record {
    success = true;
    container_id = some (text "c1");
    container_state = some (text "exited");
    topology_detached = some true;
    issues = [];
  });
  delete_workspace_runtime = returned (record { success = true; issues = [] });
  restart_workspace_runtime = returned (record {
    success = true;
    stop_success = true;
    bringup_success = true;
    running = container;
    issues = [];
  });
  update_workspace_runtime = returned (record {
    success = true;
    current_config_version = 1;
    requested_config_version = 2;
    no_op = false;
    running = container;
    issues = [];
  });
}
