-- ===== src/Lifecycle.antt =====
-- internal/lifecycle: the atomic write of a file and the transaction journal on top of it.
pub mod Atomic
pub mod Journal
