-- ===== src/Service.antt =====
-- src/bedjet_local/service: acquisition of state, the write path and the connection lease.
pub mod Reader
pub mod Commander
pub mod Tests
pub mod Session
