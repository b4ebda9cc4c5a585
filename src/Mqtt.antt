-- ===== src/Mqtt.antt =====
-- internal/mqtt: the client that publishes telemetry and the discovery messages for Home Assistant.
pub mod Classes
pub mod Slug
pub mod Client
