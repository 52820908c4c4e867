-- ===== src/Observer.antt =====
-- internal/platform/workers/chain_observer.go.
pub mod Scan
pub mod Recorded
pub mod Balance
pub mod Expiry
pub mod Atomic
mod Examples
