-- ===== src/Checkout/Service/Frames.antt =====
-- The finalizer and the tables of orders and payments.
use arena_onsale.Prelude.{
  ℕ, ◌+◌, ◌≡◌, refl, Bool, true, false, List, [], ◌∷◌, arith, inl, inr, Option-cases,
}
use arena_onsale.Prelude.Query.{update_where}
use arena_onsale.Tables.{Db, Seat, Order}
use arena_onsale.Inventory.Holds.{seats_for_hold}
use arena_onsale.Checkout.Finalizer.{
  sell_guard, sell, sell_seats, confirmed_if_sold, confirm_assigned, confirm_ga,
}
use arena_onsale.Checkout.Orders.{Environment}
use arena_onsale.Checkout.Service.{confirm_reservation}

-- the same orders and payments
pub record SameBooks (db db' : Db) : Type 0 where
  pub orders : db'.orders ≡ db.orders
  pub payments : db'.payments ≡ db.payments

-- Nobody else writes orders or payments: no other checkout is at work.
pub record LeavesBooks (env : Environment) : Type 0 where
  pub paying : (db : Db) → SameBooks db (env.while_paying db)
  pub confirming : (i : ℕ) (db : Db) → SameBooks db (env.while_confirming i db)
  pub rolling_back : (db : Db) → SameBooks db (env.while_rolling_back db)

module _ (between : ℕ → Db → Db) (keep : (i : ℕ) (db : Db) → SameBooks db (between i db)) where
  sell_seats-SameBooks :
      (h i : ℕ) (seats : List Seat) (db : Db) → SameBooks db (sell_seats between h i seats db).1
  unfolding sell_seats
  sell_seats-SameBooks h i [] db = record { orders = refl; payments = refl }
  sell_seats-SameBooks h i (seat ∷ seats) db =
      let now = between i db in
      ground (
        arith,
        (keep i db).orders,
        (keep i db).payments,
        sell_seats-SameBooks h (i + 1) seats
            (record now { seats = update_where (sell_guard h seat) (sell seat) now.seats }),
      )

  confirmed_if_sold-SameBooks :
      (h : ℕ) (db : Db) (r : Bool × Db) → SameBooks db r.1 → SameBooks db (confirmed_if_sold h r).1
  unfolding confirmed_if_sold
  confirmed_if_sold-SameBooks h db (true, d) s = record { orders = s.orders; payments = s.payments }
  confirmed_if_sold-SameBooks h db (false, d) s = s

  confirm_assigned-SameBooks : (h : ℕ) (db : Db) → SameBooks db (confirm_assigned between h db).1
  unfolding confirm_assigned
  confirm_assigned-SameBooks h db = ground (
    arith,
    confirmed_if_sold-SameBooks h db (sell_seats between h 0 (seats_for_hold h db) db)
        (sell_seats-SameBooks h 0 (seats_for_hold h db) db),
  )

  confirm_ga-SameBooks : (i : ℕ) (db : Db) → SameBooks db (confirm_ga (between 0) i db).1
  unfolding confirm_ga
  confirm_ga-SameBooks i db = ground (arith, (keep 0 db).orders, (keep 0 db).payments)

pub confirm_reservation-SameBooks :
    (env : Environment) (o : Order) (db : Db)
    → LeavesBooks env
    → SameBooks db (confirm_reservation env o db).1
unfolding confirm_reservation
confirm_reservation-SameBooks env o db l = elim (Option-cases o.hold_id) [
  | inl ga ↦ elim (Option-cases o.ga_reservation_id) [
    | inl e ↦ ground arith
    | inr (i, e) ↦ ground (arith, confirm_ga-SameBooks env.while_confirming l.confirming i db)
  ]
  | inr (i, e) ↦ ground (arith, confirm_assigned-SameBooks env.while_confirming l.confirming i db)
]
