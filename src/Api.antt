-- ===== src/Api.antt =====
-- src/bedjet_local/api: what the adapters may say and ask.
pub mod Models
pub mod Service
pub mod Lease
pub mod Contract
pub mod Tests
