-- ===== src/Payout.antt =====
-- Payouts: internal/platform/workers/payout_scheduler.go and payout_executor.go.
pub mod Amount
pub mod Executor
pub mod Scheduler
pub mod Process
pub mod Atomic
pub mod Safety
pub mod Schedule
pub mod Unique
pub mod Refused
mod Examples
