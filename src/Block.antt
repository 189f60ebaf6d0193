-- ===== src/Block.antt =====
-- The block layer: VinixOS/kernel/src/kernel/block.
pub mod Device
pub mod Cache
