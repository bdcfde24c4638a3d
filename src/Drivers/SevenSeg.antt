-- ===== src/Drivers/SevenSeg.antt =====
-- components/blusys/src/drivers/seven_seg.c: the seven-segment display driver for three kinds of
-- hardware.
pub mod Defs
pub mod Render
pub mod Wire
pub mod Life
pub mod Api
pub mod Fill
pub mod Digits
pub mod Hex
pub mod Bytes
pub mod Updates
mod Tests
