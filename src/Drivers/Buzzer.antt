-- ===== src/Drivers/Buzzer.antt =====
-- components/blusys/src/drivers/buzzer.c: tones and sequences of notes on a passive buzzer.
pub mod Defs
pub mod Open
pub mod Opened
pub mod Sequence
pub mod Session
mod Tests
