-- ===== src/Checkout.antt =====
-- src/arena_onsale/checkout: payment, confirmation, expiry and the outbox.
pub mod Finalizer
pub mod Psp
pub mod Orders
pub mod Quotes
pub mod Service
pub mod Expiry
pub mod Outbox
