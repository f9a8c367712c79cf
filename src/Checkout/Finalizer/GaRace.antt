-- ===== src/Checkout/Finalizer/GaRace.antt =====
-- The race between `confirm_ga`, which reads the reservation without a lock and writes its status
-- without a guard, and the expiry worker, which holds the row lock.
use arena_onsale.Prelude.{ℕ, ◌+◌, ◌≡◌, refl, true, some, arith, inl, inr, Option-cases}
use arena_onsale.Prelude.Query.{find?, count_where, sum_of}
use arena_onsale.Prelude.Rows.{find?-holds, find?-update_where, count_where-update_where}
use arena_onsale.Tables.{Db, GaReservation, HoldStatus, confirmed, expired, is_active}
use arena_onsale.Inventory.GaStock.{pool_of}
use arena_onsale.Inventory.GaStock.Accounts.{IsConserved, tickets_of, left_in, seats_in}
use arena_onsale.Checkout.Finalizer.{
  reservation_is, with_status, set_reservation_status, confirm_ga, release_ga, write_release_ga,
  return_to_pool,
}
use arena_onsale.Checkout.Finalizer.Ga.{tickets-set_status, left-return, seats-return}

-- nothing happens meanwhile
abbrev pub alone : Db → Db
alone db = db

-- A status write leaves the row in its place, with the new status.
reservation-set_status :
    (i : ℕ) (st : HoldStatus) (db : Db) (r : GaReservation)
    → find? (reservation_is i) db.ga_reservations ≡ some r
    → find? (reservation_is i) (set_reservation_status i st db).ga_reservations
      ≡ some (with_status st r)
reservation-set_status i st db r e =
    find?-update_where (reservation_is i) (with_status st) (λ x. refl) db.ga_reservations r e

count-set_status :
    (i : ℕ) (st : HoldStatus) (db : Db)
    → count_where (reservation_is i) (set_reservation_status i st db).ga_reservations
      ≡ count_where (reservation_is i) db.ga_reservations
count-set_status i st db =
    count_where-update_where (reservation_is i) (reservation_is i) (with_status st) (λ x. refl)
      db.ga_reservations

-- The tickets in the pool and those of live reservations, together.
abbrev pub on_the_books : ℕ → Db → ℕ
on_the_books m db = sum_of (left_in m) db.ga_inventory + sum_of (tickets_of m) db.ga_reservations

abbrev pub capacity_of : ℕ → Db → ℕ
capacity_of m db = sum_of (seats_in m) db.ga_inventory

record Released (i : ℕ) (r : GaReservation) (db db' : Db) : Type 0 where
  row : find? (reservation_is i) db'.ga_reservations ≡ some (with_status expired r)
  one : count_where (reservation_is i) db'.ga_reservations ≡ 1
  books : on_the_books r.match_id db' ≡ on_the_books r.match_id db
  capacity : capacity_of r.match_id db' ≡ capacity_of r.match_id db

write_release_ga-Released :
    (v : ℕ) (r : GaReservation) (db : Db)
    → find? (reservation_is r.id) db.ga_reservations ≡ some r
    → count_where (reservation_is r.id) db.ga_reservations ≡ 1
    → is_active r.status ≡ true
    → (write_release_ga r v db).0 ≡ true
    → Released r.id r db (write_release_ga r v db).1
unfolding write_release_ga
write_release_ga-Released v r db e c a h = ground (
  arith,
  reservation-set_status r.id expired (return_to_pool r.match_id v r.quantity db) r,
  count-set_status r.id expired (return_to_pool r.match_id v r.quantity db),
  left-return r.match_id r.match_id v r.quantity db.ga_inventory,
  seats-return r.match_id r.match_id v r.quantity db.ga_inventory,
  tickets-set_status r.match_id r.id expired (return_to_pool r.match_id v r.quantity db) r,
)

release_ga-Released :
    (i : ℕ) (r : GaReservation) (db : Db)
    → find? (reservation_is i) db.ga_reservations ≡ some r
    → count_where (reservation_is i) db.ga_reservations ≡ 1
    → is_active r.status ≡ true
    → (release_ga alone i db).0 ≡ true
    → Released i r db (release_ga alone i db).1
unfolding release_ga
release_ga-Released i r db e c a h =
    elim (Option-cases (find? (pool_of r.match_id) db.ga_inventory)) [
      | inl e' ↦ ground arith
      | inr (g, e') ↦ ground (
        arith,
        find?-holds (reservation_is i) db.ga_reservations r e,
        write_release_ga-Released g.version r db,
      )
    ]

-- If the worker's release commits between the read and the write of `confirm_ga`, the reservation
-- is confirmed all the same although its tickets are back in the pool: the books then hold its
-- whole quantity more than the capacity of the pool.
pub confirm_ga-release_ga_oversells :
    (i : ℕ) (r : GaReservation) (db : Db)
    → find? (reservation_is i) db.ga_reservations ≡ some r
    → count_where (reservation_is i) db.ga_reservations ≡ 1
    → is_active r.status ≡ true
    → IsConserved r.match_id db
    → (release_ga alone i db).0 ≡ true
    → let (done, db') = confirm_ga (λ d. (release_ga alone i d).1) i db in
      (done ≡ true) × (on_the_books r.match_id db' ≡ capacity_of r.match_id db' + r.quantity)
unfolding confirm_ga
confirm_ga-release_ga_oversells i r db e c a k h =
    let v : Released i r db (release_ga alone i db).1 = release_ga-Released i r db e c a h in
    ground (
      arith,
      v.row,
      v.one,
      v.books,
      v.capacity,
      tickets-set_status r.match_id i confirmed (release_ga alone i db).1 (with_status expired r),
    )
