-- ===== src/Provider.antt =====
pub mod Resilient
