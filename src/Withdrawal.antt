-- ===== src/Withdrawal.antt =====
-- internal/withdrawal: money that leaves a wallet for a customer's bank account.
pub mod Types
pub mod Engine
pub mod Vetted
pub mod Calls
pub mod Examples
