-- ===== src/Fs/Fat.antt =====
-- The FAT32 driver, VinixOS/kernel/src/kernel/fs/fat32.c, over sectors that it reads and writes through
-- the sector cache.
pub mod Bytes
pub mod Name
pub mod Volume
pub mod Chain
pub mod Table
pub mod Cached
pub mod Dir
pub mod File
pub mod Create
pub mod Bound
mod Tests
