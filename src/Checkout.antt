-- ===== src/Checkout.antt =====
-- internal/services/checkoutsvc/service.go: how a reported transfer changes an intent.
pub mod Confirm
pub mod Decision
pub mod Atomic
pub mod Quote
pub mod Create
pub mod Created
mod Examples
