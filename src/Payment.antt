-- ===== src/Payment.antt =====
-- Payment intents: internal/domain/payment.
pub mod Pricing
pub mod Status
pub mod Link
mod Examples
