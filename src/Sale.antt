-- ===== src/Sale.antt =====
-- The sale as a history of transactions: what src/arena_onsale/inventory/{ga_stock,service}.py and
-- src/arena_onsale/checkout/finalizer.py commit, in any order. A step on a pool takes any version, so
-- the snapshot that its transaction has read may be as old as it likes; so may the row that a confirmation
-- of a reservation has read, if nobody has written it since (Checkout/Finalizer/GaRace is about the case
-- when somebody has). A step on seats runs with nothing between its statements.
pub mod House
pub mod Seating
pub mod History
use arena_onsale.Prelude.{ℕ, ◌≡◌, true, none, some, List}
use arena_onsale.Prelude.Query.{find?}
use arena_onsale.Tables.{Db, GaReservation, Hold, active, is_active}
use arena_onsale.Inventory.GaStock.{write_claim}
use arena_onsale.Inventory.Holds.{hold_is, persist_hold}
use arena_onsale.Checkout.Finalizer.{
  reservation_is, confirm_ga, write_release_ga, confirm_assigned, release_assigned,
}
use arena_onsale.Checkout.Finalizer.Pending.{undisturbed}

pub data Step : Db → Db → Type 0 where
  -- a new reservation claims its tickets, or fails to
  claims_tickets :
      (version : ℕ) (r : GaReservation) (db : Db)
      → r.status ≡ active
      → find? (reservation_is r.id) db.ga_reservations ≡ none
      → Step db (write_claim version r.match_id r.quantity r db).1
  -- a checkout has read a reservation in `read`, and confirms it in `db`; nobody has written its row since
  confirms_tickets :
      (i : ℕ) (read db : Db)
      → find? (reservation_is i) db.ga_reservations ≡ find? (reservation_is i) read.ga_reservations
      → (confirm_ga (λ d. db) i read).0 ≡ true
      → Step db (confirm_ga (λ d. db) i read).1
  -- the expiry gives the tickets of a reservation back, or fails to
  returns_tickets :
      (version : ℕ) (r : GaReservation) (db : Db)
      → is_active r.status ≡ true
      → find? (reservation_is r.id) db.ga_reservations ≡ some r
      → Step db (write_release_ga r version db).1
  -- a new hold takes its seats, or fails to
  holds_seats :
      (seat_ids : List ℕ) (h : Hold) (db : Db)
      → h.status ≡ active
      → find? (hold_is h.id) db.holds ≡ none
      → Step db (persist_hold seat_ids h db).1
  -- a checkout sells the seats of a hold; a confirmation that fails is rolled back
  sells_seats :
      (h : ℕ) (db : Db)
      → (confirm_assigned undisturbed h db).0 ≡ true
      → Step db (confirm_assigned undisturbed h db).1
  -- the expiry gives the seats of a hold back
  returns_seats : (h : ℕ) (db : Db) → Step db (release_assigned undisturbed h db).1

-- the databases that some history leads to
pub data Reachable (start : Db) : Db → Type 0 where
  now : Reachable start start
  later : (db db' : Db) → Reachable start db → Step db db' → Reachable start db'
