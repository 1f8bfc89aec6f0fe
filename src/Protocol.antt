-- ===== src/Protocol.antt =====
-- src/bedjet_local/protocol: bytes in, records out; no input or output.
pub mod Constants
pub mod Packets
pub mod Decode
pub mod Encode
pub mod Tests
