-- ===== src/Mm.antt =====
-- Memory management: VinixOS/kernel/src/kernel/mm.
pub mod Word
pub mod PageAlloc
pub mod Slab
pub mod Vmm
