-- ===== src/Services.antt =====
-- The services, components/blusys/src/services.
pub mod Storage
pub mod Wifi
