-- ===== src/Services/Storage.antt =====
-- components/blusys/src/services/internal/storage_helpers.c and the two file services that stand on
-- it, components/blusys/src/services/storage/fs.c and fatfs.c.
pub mod Vfs
pub mod Helpers
pub mod Files
pub mod Fs
pub mod Fatfs
pub mod Content
pub mod Calls
pub mod Spares
pub mod Frame
mod Memory
pub mod Mount
pub mod RoundTrip
mod Tests
