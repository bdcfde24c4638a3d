-- ===== src/Drivers.antt =====
-- The device drivers, components/blusys/src/drivers.
pub mod SevenSeg
pub mod Button
pub mod Encoder
pub mod Dht
pub mod Buzzer
pub mod LedStrip
