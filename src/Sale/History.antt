-- ===== src/Sale/History.antt =====
-- Histories of the sale, and the order of the house at their end.
use arena_onsale.Prelude.{ℕ, ◌≤◌, arith}
use arena_onsale.Prelude.Query.{sum_of}
use arena_onsale.Tables.{Db}
use arena_onsale.Inventory.GaStock.Accounts.{tickets_of, seats_in}
use arena_onsale.Sale.{
  Step, claims_tickets, confirms_tickets, returns_tickets, holds_seats, sells_seats, returns_seats,
  Reachable, now, later,
}
use arena_onsale.Sale.House.{
  InHouse, write_claim-InHouse, confirm_ga_late-InHouse, write_release_ga-InHouse,
}
use arena_onsale.Sale.Seating.{
  persist_hold-InHouse, confirm_assigned-InHouse, release_assigned-InHouse,
}

Step-InHouse : (m : ℕ) (db db' : Db) → Step db db' → InHouse m db → InHouse m db'
Step-InHouse m db db' (claims_tickets v r d a fresh) k = write_claim-InHouse m v r d a fresh k
Step-InHouse m db db' (confirms_tickets i read d same e) k =
    confirm_ga_late-InHouse m i read d same e k
Step-InHouse m db db' (returns_tickets v r d a e) k = write_release_ga-InHouse m v r d a e k
Step-InHouse m db db' (holds_seats ids h d a fresh) k = persist_hold-InHouse m ids h d a fresh k
Step-InHouse m db db' (sells_seats h d done) k = confirm_assigned-InHouse m h d done k
Step-InHouse m db db' (returns_seats h d) k = release_assigned-InHouse m h d k

Reachable-kept : (m : ℕ) (start db : Db) → InHouse m start → Reachable start db → InHouse m db
Reachable-kept m start db k now = k
Reachable-kept m start db k (later d d' before step) =
    Step-InHouse m d d' step (Reachable-kept m start d k before)

-- No oversell: from a database in order, after any sequence of steps of the sale each held seat belongs to
-- an active hold and each sold seat to a confirmed one, and the reservations that keep tickets of match `m`
-- keep no more than its capacity. The steps are claims and returns of tickets, however old the version of
-- the pool that they have read; confirmations of reservations, however long ago they have read the row, if
-- nobody has written it since; and holds, sales and releases of seats with nothing between their statements.
pub Reachable-InHouse :
    (m : ℕ) (start db : Db)
    → InHouse m start
    → Reachable start db
    → InHouse m db
      × (sum_of (tickets_of m) db.ga_reservations ≤ sum_of (seats_in m) db.ga_inventory)
Reachable-InHouse m start db k path =
    let here = Reachable-kept m start db k path in (here, omega (arith, here.books.conserved))
