-- ===== src/Transport.antt =====
-- src/bedjet_local/transport: the link to the device as the layers above see it.
pub mod Contract
pub mod Mock
pub mod Ble
mod Tests
