-- ===== src/Fs.antt =====
-- File systems: VinixOS/kernel/src/kernel/fs.
pub mod Vfs
pub mod Fat
