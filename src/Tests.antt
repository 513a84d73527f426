-- ===== src/Tests.antt =====
-- The development on concrete inputs.
mod Topology
mod K3s
mod Recovery
mod Cluster
mod Lifecycle
pub mod Host
mod Data
mod Enrollment
mod Verify
pub mod Backup
mod Teardown
mod ProductConfig
mod Upgrade
mod Images
