-- ===== src/Order.antt =====
-- internal/order: orders, their amounts, and their refunds.
pub mod Amounts
pub mod Refund
pub mod Journals
