-- ===== src/Topology.antt =====
-- internal/clustertopology: the operator's server inventory and the receipt of a staged cluster.
pub mod Inventory
pub mod Bootstrap
