-- ===== src/Tests/History.antt =====
-- A history of the sale at a concrete database.
use arena_onsale.Prelude.{◌≤◌, refl, arith}
use arena_onsale.Prelude.Query.{sum_of}
use arena_onsale.Tables.{Db}
use arena_onsale.Inventory.GaStock.Accounts.{tickets_of, seats_in}
use arena_onsale.Inventory.Holds.{seats_for_hold}
use arena_onsale.Checkout.Finalizer.{confirm_ga, confirm_assigned}
use arena_onsale.Checkout.Finalizer.Pending.{undisturbed}
use arena_onsale.Sale.{confirms_tickets, sells_seats, Reachable, now, later}
use arena_onsale.Sale.House.{InHouse}
use arena_onsale.Sale.History.{Reachable-InHouse}
use arena_onsale.Tests.Data.{seat_db, ga_db}

-- seats and tickets of match 1 on sale
abbrev both_db : Db
both_db = record seat_db {
  ga_inventory = ga_db.ga_inventory;
  ga_reservations = ga_db.ga_reservations;
}

both-InHouse : InHouse 1 both_db
both-InHouse = record {
  books = record { conserved = refl; one_row = λ i. ground arith; one_pool = λ n. ground arith };
  consistent = (refl, (refl, (refl, tt)));
  unique = λ i. ground arith;
}

abbrev tickets_sold : Db
tickets_sold = (confirm_ga (λ d. both_db) 7 both_db).1

abbrev all_sold : Db
all_sold = (confirm_assigned undisturbed 50 tickets_sold).1

-- reservation 7 is confirmed, then hold 50 is sold
two_sales : Reachable both_db all_sold
unfolding confirm_ga confirm_assigned seats_for_hold
two_sales =
    later tickets_sold all_sold
      (later both_db tickets_sold now (confirms_tickets 7 both_db both_db refl refl))
      (sells_seats 50 tickets_sold refl)

Reachable-InHouse_example :
    InHouse 1 all_sold
    × (sum_of (tickets_of 1) all_sold.ga_reservations ≤ sum_of (seats_in 1) all_sold.ga_inventory)
Reachable-InHouse_example = Reachable-InHouse 1 both_db all_sold both-InHouse two_sales
