-- ===== src/Worker/Db.antt =====
-- The tables that the worker's sessions see, and how a job's transaction is read from them and
-- written back.
use devnest.Base.{
  ℕ, Bool, Option, none, some, List, [], ◌∷◌, ◌++◌, if◌then◌else◌, ◌==◌, first, any, update_where,
  select, not,
}
use devnest.Model.Rows.{
  Workspace, WorkspaceJob, WorkspaceRuntime, WorkspaceSession, WorkspaceSnapshot,
  WorkspaceCleanupTask, ExecutionNode, WorkspaceConfig, Quota, Policy,
}
use devnest.Model.Logs.{AuditLog, WorkspaceUsageRecord, WorkspaceEvent}
use devnest.Worker.State.{Txn}

pub record Db : Type 0 where
  pub workspaces : List Workspace
  pub jobs : List WorkspaceJob
  pub runtimes : List WorkspaceRuntime
  pub sessions : List WorkspaceSession
  pub snapshots : List WorkspaceSnapshot
  pub cleanup_tasks : List WorkspaceCleanupTask
  pub nodes : List ExecutionNode
  pub audits : List AuditLog
  pub usages : List WorkspaceUsageRecord
  pub events : List WorkspaceEvent
  pub configs : List WorkspaceConfig
  pub quotas : List Quota
  pub policies : List Policy

abbrev pub has_job_id : ℕ → WorkspaceJob → Bool
has_job_id i j = j.workspace_job_id == i

abbrev pub has_workspace_id : ℕ → Workspace → Bool
has_workspace_id i w = w.workspace_id == i

abbrev pub runtime_of : ℕ → WorkspaceRuntime → Bool
runtime_of i r = r.workspace_id == i

-- `session.add` of a row that is loaded: it is written under its key.
unfoldable pub put_job : WorkspaceJob → List WorkspaceJob → List WorkspaceJob
put_job j = update_where (has_job_id j.workspace_job_id) (λ _. j)

unfoldable pub put_workspace : Workspace → List Workspace → List Workspace
put_workspace w = update_where (has_workspace_id w.workspace_id) (λ _. w)

-- A workspace has one row of a runtime at most: it is deleted, inserted or written.
unfoldable pub put_runtime :
    ℕ → Option WorkspaceRuntime → List WorkspaceRuntime → List WorkspaceRuntime
put_runtime wid none rows = select (λ r. not (runtime_of wid r)) rows
put_runtime wid (some rt) rows =
    if any (runtime_of wid) rows
    then update_where (runtime_of wid) (λ _. rt) rows
    else rows ++ rt ∷ []

unfoldable pub open_txn : Db → Workspace → WorkspaceJob → Txn
open_txn db ws job = record {
  ws = ws;
  job = job;
  runtime = first (runtime_of ws.workspace_id) db.runtimes;
  sessions = db.sessions;
  snapshots = db.snapshots;
  cleanup_tasks = db.cleanup_tasks;
  nodes = db.nodes;
  audits = db.audits;
  usages = db.usages;
  events = db.events;
}

unfoldable pub commit : Db → Txn → Db
unfolding put_job put_workspace put_runtime
commit db t = record db {
  workspaces = put_workspace t.ws db.workspaces;
  jobs = put_job t.job db.jobs;
  runtimes = put_runtime t.ws.workspace_id t.runtime db.runtimes;
  sessions = t.sessions;
  snapshots = t.snapshots;
  cleanup_tasks = t.cleanup_tasks;
  nodes = t.nodes;
  audits = t.audits;
  usages = t.usages;
  events = t.events;
}
