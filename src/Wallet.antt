-- ===== src/Wallet.antt =====
-- internal/wallet: what a wallet's type and status allow, and the operations that move its money.
pub mod Policy
pub mod Types
pub mod Limits
pub mod Engine
pub mod Expiry
pub mod Examples
