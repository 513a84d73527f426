-- ===== src/K3s.antt =====
-- internal/k3s: ownership of the K3s service on a host, its configuration and its repair.
pub mod Ownership
pub mod Config
pub mod Inspect
