-- ===== src/Payment.antt =====
-- internal/payment: collecting money through providers and applying it.
pub mod State
pub mod Types
pub mod Sync
pub mod Tables
pub mod Refund
pub mod Dispute
pub mod Examples
