-- ===== src/Hal/Nvs.antt =====
-- components/blusys/src/hal/nvs.c: the values of a namespace in flash, behind a handle with a lock.
pub mod Flash
pub mod Defs
pub mod Open
pub mod Opened
pub mod Session
pub mod Memory
mod Tests
