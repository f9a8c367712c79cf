-- ===== src/Tables/Database.antt =====
-- The database: one list of rows for each table.
use arena_onsale.Prelude.{List}
use arena_onsale.Tables.Catalog.{Match, Seat, GeneralAdmission}
use arena_onsale.Tables.Inventory.{Hold, GaReservation}
use arena_onsale.Tables.Checkout.{Order, Payment, OutboxEvent}

pub record Db : Type 0 where
  pub matches : List Match
  pub seats : List Seat
  pub ga_inventory : List GeneralAdmission
  pub holds : List Hold
  pub ga_reservations : List GaReservation
  pub orders : List Order
  pub payments : List Payment
  pub outbox : List OutboxEvent
