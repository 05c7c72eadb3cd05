-- ===== src/Worker.antt =====
-- backend/app/workers/workspace_job_worker/worker.py: the worker that executes workspace jobs.
-- State: what one job's transaction works on. Mark, Runtime: changes of the rows. Finalize,
-- Failure: what a result or an exception of the orchestrator leads to. Process: one claimed job.
-- Queue: claiming a job and reclaiming stuck ones. Below stand the proofs.
pub mod State
pub mod Mark
pub mod Runtime
pub mod Finalize
pub mod Failure
pub mod Process
pub mod Db
pub mod Queue
pub mod Outcome
pub mod Finish
pub mod Lifecycle
pub mod Claim
pub mod Attempts
pub mod Limits
pub mod Keys
pub mod Rewrites
pub mod Tick
