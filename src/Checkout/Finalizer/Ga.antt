-- ===== src/Checkout/Finalizer/Ga.antt =====
-- The accounts of a pool when a general-admission reservation is confirmed or released.
use arena_onsale.Prelude.{
  ℕ, ◌+◌, ◌≤◌, ◌≡◌, refl, true, some, List, if◌then◌else◌, ◌==◌, arith, inl, inr, Option-cases,
}
use arena_onsale.Prelude.Query.{find?, update_where, count_where, sum_of}
use arena_onsale.Prelude.Rows.{
  find?-holds, find?_of_count, sum_of-update_where, sum_of-update_same, update_where_none,
}
use arena_onsale.Tables.{
  Db, GeneralAdmission, GaReservation, HoldStatus, confirmed, expired, is_active,
}
use arena_onsale.Inventory.GaStock.{pool_of}
use arena_onsale.Inventory.GaStock.Accounts.{IsConserved, tickets_of, left_in, seats_in}
use arena_onsale.Checkout.Finalizer.{
  reservation_is, with_status, set_reservation_status, confirm_ga, release_ga, write_release_ga,
  version_guard, return_tickets, return_to_pool,
}

-- A status write moves the tickets of the one reservation that it hits.
pub tickets-set_status :
    (m i : ℕ) (st : HoldStatus) (db : Db) (r : GaReservation)
    → find? (reservation_is i) db.ga_reservations ≡ some r
    → count_where (reservation_is i) db.ga_reservations ≡ 1
    → sum_of (tickets_of m) (set_reservation_status i st db).ga_reservations + tickets_of m r
      ≡ sum_of (tickets_of m) db.ga_reservations + tickets_of m (with_status st r)
tickets-set_status m i st db r e c =
    sum_of-update_where (reservation_is i) (tickets_of m) (with_status st) db.ga_reservations r e c

-- An update of the pool gives the tickets back if it hits its row.
pub left-return :
    (m n v q : ℕ) (gs : List GeneralAdmission)
    → count_where (version_guard n v) gs ≡ 1
    → sum_of (left_in m) (update_where (version_guard n v) (return_tickets q) gs)
      ≡ sum_of (left_in m) gs + (if n == m then q else 0)
left-return m n v q gs c =
    let f = find?_of_count (version_guard n v) gs c in
    ground (
      arith,
      f.2,
      sum_of-update_where (version_guard n v) (left_in m) (return_tickets q) gs f.0 f.1 c,
    )

pub seats-return :
    (m n v q : ℕ) (gs : List GeneralAdmission)
    → sum_of (seats_in m) (update_where (version_guard n v) (return_tickets q) gs)
      ≡ sum_of (seats_in m) gs
seats-return m n v q gs =
    sum_of-update_same (version_guard n v) (seats_in m) (return_tickets q) (λ x. refl) gs

-- What a transaction that holds the row lock of a reservation may count on: nobody else has
-- written the row.
pub record Locked (i : ℕ) (db db' : Db) : Type 0 where
  pub same :
      find? (reservation_is i) db'.ga_reservations ≡ find? (reservation_is i) db.ga_reservations
  pub one : count_where (reservation_is i) db'.ga_reservations ≡ 1

-- Confirming under the row lock keeps the accounts of every pool.
pub confirm_ga-IsConserved :
    (between : Db → Db) (m i : ℕ) (db : Db)
    → Locked i db (between db)
    → IsConserved m db
    → IsConserved m (between db)
    → IsConserved m (confirm_ga between i db).1
unfolding confirm_ga
confirm_ga-IsConserved between m i db l c c' =
    elim (Option-cases (find? (reservation_is i) db.ga_reservations)) [
      | inl e ↦ ground arith
      | inr (r, e) ↦ ground (arith, l.same, l.one, tickets-set_status m i confirmed (between db) r)
    ]

pub write_release_ga-IsConserved :
    (m v : ℕ) (r : GaReservation) (db : Db)
    → is_active r.status ≡ true
    → find? (reservation_is r.id) db.ga_reservations ≡ some r
    → count_where (reservation_is r.id) db.ga_reservations ≡ 1
    → count_where (version_guard r.match_id v) db.ga_inventory ≤ 1
    → IsConserved m db
    → IsConserved m (write_release_ga r v db).1
unfolding write_release_ga
write_release_ga-IsConserved m v r db a e c p h = ground (
  arith,
  left-return m r.match_id v r.quantity db.ga_inventory,
  seats-return m r.match_id v r.quantity db.ga_inventory,
  update_where_none (version_guard r.match_id v) (return_tickets r.quantity) db.ga_inventory,
  tickets-set_status m r.id expired (return_to_pool r.match_id v r.quantity db) r,
)

-- Releasing under the row lock keeps the accounts of every pool, whoever wins the race for the pool.
pub release_ga-IsConserved :
    (between : Db → Db) (m i : ℕ) (db : Db)
    → Locked i db (between db)
    → ((n v : ℕ) → count_where (version_guard n v) (between db).ga_inventory ≤ 1)
    → IsConserved m db
    → IsConserved m (between db)
    → IsConserved m (release_ga between i db).1
unfolding release_ga
release_ga-IsConserved between m i db l pk c c' =
    elim (Option-cases (find? (reservation_is i) db.ga_reservations)) [
      | inl e ↦ ground arith
      | inr (r, e) ↦ elim (Option-cases (find? (pool_of r.match_id) db.ga_inventory)) [
        | inl e' ↦ ground arith
        | inr (g, e') ↦ ground (
          arith,
          l.same,
          l.one,
          find?-holds (reservation_is i) db.ga_reservations r e,
          pk r.match_id g.version,
          write_release_ga-IsConserved m g.version r (between db),
        )
      ]
    ]
