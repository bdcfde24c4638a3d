-- ===== src/Hal.antt =====
-- The hardware abstraction layer, components/blusys/src/hal.
pub mod Error
pub mod Result
pub mod OneWire
pub mod GpioExpander
pub mod Lifecycle
pub mod BtStack
pub mod Nvs
