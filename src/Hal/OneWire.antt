-- ===== src/Hal/OneWire.antt =====
-- components/blusys/src/hal/one_wire.c: the 1-Wire bus master over the RMT peripheral.
pub mod Crc
pub mod CrcRegister
pub mod Slots
pub mod Defs
pub mod Bus
pub mod Rom
pub mod Idle
pub mod IdleRom
pub mod Waveform
pub mod Session
pub mod SearchState
mod Tests
