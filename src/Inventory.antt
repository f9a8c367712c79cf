-- ===== src/Inventory.antt =====
-- src/arena_onsale/inventory: general admission and seat holds.
pub mod GaStock
pub mod GaService
pub mod Locking
pub mod Holds
