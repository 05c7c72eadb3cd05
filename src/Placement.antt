-- ===== src/Placement.antt =====
-- backend/app/services/placement_service and backend/app/services/scheduler_service: the capacity
-- of the nodes, and the choice of a node for a workspace.
pub mod Capacity
pub mod Select
pub mod Policy
pub mod Order
pub mod Laws
pub mod Alignment
