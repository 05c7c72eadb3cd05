-- ===== src/Topology.antt =====
-- backend/app/libs/topology: the networks of the nodes, the leases of workspace addresses and the
-- attachments, as backend/app/libs/topology/db_topology_adapter.py keeps them in the database.
pub mod Net
pub mod Rows
pub mod Lease
pub mod Scan
pub mod Hosts
pub mod LeaseLaws
pub mod Allocate
pub mod Alone
pub mod RoundTrip
pub mod Subnet
pub mod SubnetLaws
pub mod Ensure
pub mod Detach
pub mod Janitor
pub mod Release
pub mod Attach
pub mod AttachSteps
pub mod AttachLaws
pub mod Delete
pub mod Settled
pub mod Unique
pub mod AttachUnique
