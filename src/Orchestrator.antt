-- ===== src/Orchestrator.antt =====
-- The orchestrator of backend/app/services/orchestrator_service/service.py. A method runs on a world,
-- which the adapters of the runtime, of the topology, of the probes and of the host change, and
-- returns or raises.
pub mod Adapters
pub mod Texts
pub mod Stop
pub mod Delete
pub mod Context
pub mod BringUp
pub mod Wire
pub mod Rollback
pub mod Update
pub mod StopSays
pub mod StopLaws
pub mod Kept
pub mod StartKept
pub mod WireKept
pub mod ProbeKept
pub mod Plain
pub mod Undone
pub mod Ended
pub mod OnTables
pub mod Clean
pub mod CleanLaws
pub mod DeleteLaws
pub mod Cleaned
