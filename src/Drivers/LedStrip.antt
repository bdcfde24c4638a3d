-- ===== src/Drivers/LedStrip.antt =====
-- components/blusys/src/drivers/led_strip.c: the pixels of an addressable LED strip.
pub mod Defs
pub mod Calls
pub mod Open
pub mod Opened
pub mod Frame
pub mod Shown
pub mod Sent
mod Tests
