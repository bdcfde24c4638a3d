-- ===== src/Drivers/Encoder.antt =====
-- components/blusys/src/drivers/encoder.c: the quadrature decoder on GPIO levels, where the chip
-- has no pulse counter, and the callbacks of the counter.
pub mod Defs
pub mod Count
pub mod Tick
pub mod Run
pub mod Wide
pub mod Pcnt
mod Tests
