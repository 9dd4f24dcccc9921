-- ===== src/Satellites.antt =====
-- Services beside the core: webhooks of tenants.
pub mod Webhooks
