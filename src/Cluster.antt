-- ===== src/Cluster.antt =====
-- internal/cluster: what the control plane checks of the live Kubernetes nodes.
pub mod Nodes
pub mod Servers
pub mod Enrollment
