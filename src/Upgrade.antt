-- ===== src/Upgrade.antt =====
-- internal/upgrade: the version policy of an upgrade, and the upgrade itself.
pub mod Admission
pub mod Charts
pub mod Foundation
pub mod Host
pub mod Options
pub mod Orchestration
pub mod Preparation
pub mod Protocol
pub mod Receipt
pub mod Resolved
pub mod Steps
pub mod Transaction
pub mod Undo
pub mod Version
