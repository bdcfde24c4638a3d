-- ===== src/Drivers/Button.antt =====
-- components/blusys/src/drivers/button.c: the debounced push button.
pub mod Defs
pub mod Open
pub mod Phases
pub mod Order
pub mod Opened
mod Tests
