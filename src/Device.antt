-- ===== src/Device.antt =====
-- src/bedjet_local/device.
pub mod State
pub mod Registry
mod Tests
