-- ===== src/Catalog.antt =====
-- src/arena_onsale/catalog: the stadium's layouts, the seed of a match, and the map that is shown.
pub mod Layout
pub mod MapView
pub mod Service
pub mod Seed
