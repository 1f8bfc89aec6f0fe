-- ===== src/Integrations.antt =====
-- src/bedjet_local/integrations: the adapters above the API.
pub mod Outbox
pub mod Http
pub mod Mqtt
