-- ===== src/Lib.antt =====
-- A model of the control plane of DevNest (backend/app): what users may ask of their workspaces, the
-- jobs that this queues, the worker that runs them, and the nodes, networks and limits it runs on.
--
-- Parts. A request (Intent) passes the guards of ownership and status, the quotas and the policies
-- (Admission), sets the workspace's transitional status and queues a job. The worker (Worker) claims
-- the oldest job that is due, asks the placement for an orchestrator, runs the job, and settles the
-- rows of the job, the workspace and its runtime by what the orchestrator answers; a failure is
-- retried by the rules of Retry. Stopping, deleting, restarting and updating revoke the workspace's
-- sessions (Session). The orchestrator (Orchestrator) brings a workspace's runtime up and lets it go,
-- and rolls a bring-up back that fails; what it could not let go is recorded as a task that is drained
-- later (Cleanup). The placement (Placement) chooses the node of a workspace, the topology
-- (Topology) gives the node a network and the workspace an address in it, and the limiter
-- (RateLimit) bounds the requests of a client.
--
-- - Base: numbers, lists, options and texts; `truncate` is `_truncate` of worker.py.
-- - Model: the rows of backend/app/services/*/models (Rows, Logs), the enumerations stored in them
--   (Enums), and the settings and functions that come from outside (Env).
-- - Retry: backend/app/workers/workspace_job_worker/failure_handling.py.
-- - Session: backend/app/services/workspace_service/services/workspace_session_service.py.
-- - Admission: backend/app/services/quota_service/service.py (Quotas) and
--   backend/app/services/policy_service/service.py (Policies).
-- - Placement: backend/app/services/placement_service: capacity.py (Capacity), node_placement.py
--   (Select), and the ranking of backend/app/services/scheduler_service/policy.py (Policy). Order,
--   Laws and Alignment hold proofs.
-- - RateLimit: the in-memory limiter of backend/app/libs/security/rate_limit.py. History has the
--   specification; Laws and Window hold proofs.
-- - Topology: backend/app/libs/topology/db_topology_adapter.py. Net has the networks of Python's
--   `ipaddress` and the scans, Rows the tables, Subnet and Ensure the network of a node, Lease the
--   addresses of workspaces, Attach and Detach the attachments, their deletion and the janitor. Scan,
--   Hosts, SubnetLaws, LeaseLaws, Allocate, Alone, RoundTrip, Release, Settled, Janitor,
--   Delete, AttachSteps, AttachLaws, Unique and AttachUnique hold proofs.
-- - Orchestrator: backend/app/services/orchestrator_service/service.py. Adapters has the interfaces
--   it is built from and Texts the texts it reads, Stop the stop and Delete the deletion, Context,
--   BringUp, Wire and Rollback the bring-up in the order of its steps, Update the restart and the
--   update, and OnTables fills the interface of the topology with Topology. StopSays, StopLaws, Kept,
--   StartKept, WireKept, ProbeKept, Plain, Undone, Ended, Clean, CleanLaws, DeleteLaws and
--   Cleaned hold proofs.
-- - Cleanup: backend/app/services/cleanup_service/service.py; Laws holds proofs.
-- - Intent: backend/app/services/workspace_service/services/workspace_intent_service.py, with
--   `create_workspace` and `enqueue_reconcile_runtime_job` in Create.
-- - Worker: backend/app/workers/workspace_job_worker/worker.py. State has the transaction of a job
--   and the orchestrator's results, Mark the changes of single rows, Runtime the runtime row,
--   Finalize the `_finalize_*` functions, Failure the error paths, Process the run of one claimed
--   job, Db the tables, Queue claiming and reclaiming. Outcome, Finish, Lifecycle, Claim,
--   Attempts, Limits, Keys, Rewrites and Tick hold proofs.
-- - Examples: concrete rows, and the theorems applied to them.
--
-- State. The ORM hands all functions of a transaction the same objects, so a function that changes
-- rows takes the record of the rows (`Txn`, `Db`, or a row with a table) and returns it; one that
-- raises returns a value that names the exception. Times are seconds, with one reading of the clock
-- to a transaction; CPU shares are thousandths of a core, and the limit of runtime hours is kept in
-- seconds. A `str` is the list of its code points, and `lower` works on ASCII. Error codes are a data
-- type: all are constants of at most 64 characters, so that the cuts to 64 leave them alone. JSON
-- columns are the fields that the code reads from them. `SKIP LOCKED` is a test that says which rows
-- another transaction has locked. An address is its number, and a column with an address or a
-- network holds what `ipaddress` reads in it. Recursion is on lists, on the 24 and 16 attempts that
-- the code makes against conflicts, and on the rounds of a scan, of which there is one for each
-- element; `fail_each_time` of Worker/Attempts, which repeats the claim of a job and the failure of its
-- result, counts claims, of which its theorem says how many are enough. What other workers commit between the reads and the commit of an attempt is a function
-- (`Others`), and the commit tests the unique constraints.
-- A method of the orchestrator runs on a world that its adapters change, and returns or raises; the
-- waits of a bring-up, which the code ends by the clock, are as many polls as fit in them: 21, 100 and
-- 25 for a container that starts, and for the IDE what fits in the configured wait (`ide_polls`).
--
-- From outside: what the orchestrator answers the worker, and the binding to a node; the runtime
-- adapter, the probes and the host's directories of the orchestrator; the JSON of a task's payload;
-- the commands on a host, the bodies of the jobs REPO_IMPORT, RECONCILE_RUNTIME, SNAPSHOT_CREATE and
-- SNAPSHOT_RESTORE, the check of a workspace's files before it is opened again, the hash of a token,
-- new ids, the clock and `random.randint`.
--
-- Not modelled: log lines, metrics, correlation ids, notifications and calls of the gateway, on which
-- no row depends; ids that are spliced into messages; row locks of the placement; the checks of a
-- topology and of an attachment; a commit that fails in a release or a detach; the row of the local
-- node that a new workspace makes sure of; a rollback of the session inside a stop of a drain; the
-- orchestrator's seeding of bind mounts, its health check and its snapshots; the limiter on Redis. Autoscaling, reconciling, infrastructure, authentication and the
-- HTTP layer are left out: they wrap the calls of a cloud, of a container engine or of a web framework.
pub mod Admission
pub mod Base
pub mod Cleanup
pub mod Examples
pub mod Intent
pub mod Model
pub mod Orchestrator
pub mod Placement
pub mod RateLimit
pub mod Retry
pub mod Session
pub mod Topology
pub mod Worker
