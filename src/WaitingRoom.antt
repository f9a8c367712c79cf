-- ===== src/WaitingRoom.antt =====
-- src/arena_onsale/waiting_room: the queue in front of the onsale, and who is let in.
pub mod Store
pub mod Memory
pub mod Rate
pub mod Redis
pub mod Service
