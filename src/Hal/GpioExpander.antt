-- ===== src/Hal/GpioExpander.antt =====
-- components/blusys/src/hal/gpio_expander.c: GPIO expanders on an I2C or SPI bus.
pub mod Defs
pub mod Bus
pub mod Open
pub mod Api
pub mod Pins
pub mod Bits
pub mod Registers
pub mod Writes
pub mod Reads
pub mod Sent
pub mod Ready
pub mod Opened
pub mod Session
mod Tests
