-- ===== src/Checkout/Finalizer.antt =====
-- src/arena_onsale/checkout/finalizer.py: confirm or release what a reservation keeps.
-- `between` is what other transactions commit between the reads and the writes of a call.
pub mod Ga
pub mod GaRace
pub mod Pending
pub mod Seats
pub mod Release
use arena_onsale.Prelude.{
  ℕ, ◌+◌, Bool, true, false, ◌&&◌, none, some, List, [], ◌∷◌, if◌then◌else◌, ◌==◌, is_empty,
  is_empty,
}
use arena_onsale.Prelude.Query.{find?, select, update_where, count_where}
use arena_onsale.Tables.{
  Db, GeneralAdmission, GaReservation, HoldStatus, active, confirmed, expired, is_active, Seat,
  Hold, SeatStatus, available, sold, is_held,
}
use arena_onsale.Inventory.GaStock.{pool_of}
use arena_onsale.Inventory.Holds.{hold_is, held_by, seats_for_hold}

abbrev pub reservation_is : ℕ → GaReservation → Bool
reservation_is i r = r.id == i

abbrev pub with_status : HoldStatus → GaReservation → GaReservation
with_status st r = record r { status = st }

-- `reservation.status = st`, as it is flushed
abbrev pub set_reservation_status : ℕ → HoldStatus → Db → Db
set_reservation_status i st db = record db {
  ga_reservations = update_where (reservation_is i) (with_status st) db.ga_reservations;
}

-- `SqlInventoryFinalizer.confirm_ga`
unfoldable pub confirm_ga : (Db → Db) → ℕ → Db → Bool × Db
confirm_ga between i db = elim (find? (reservation_is i) db.ga_reservations) [
  | none ↦ (false, db)
  | some r ↦
      if is_active r.status
      then (true, set_reservation_status i confirmed (between db))
      else (false, db)
]

abbrev pub version_guard : ℕ → ℕ → GeneralAdmission → Bool
version_guard m version g = (g.match_id == m) && (g.version == version)

abbrev pub return_tickets : ℕ → GeneralAdmission → GeneralAdmission
return_tickets quantity g = record g { available = g.available + quantity; version = g.version + 1 }

abbrev pub return_to_pool : ℕ → ℕ → ℕ → Db → Db
return_to_pool m version quantity db = record db {
  ga_inventory = update_where (version_guard m version) (return_tickets quantity) db.ga_inventory;
}

unfoldable pub write_release_ga : GaReservation → ℕ → Db → Bool × Db
write_release_ga r version db =
    let db' = return_to_pool r.match_id version r.quantity db in
    if count_where (version_guard r.match_id version) db.ga_inventory == 1
    then (true, set_reservation_status r.id expired db')
    else (false, db')

-- `SqlInventoryFinalizer.release_ga`
unfoldable pub release_ga : (Db → Db) → ℕ → Db → Bool × Db
unfolding write_release_ga
release_ga between i db = elim (find? (reservation_is i) db.ga_reservations) [
  | none ↦ (false, db)
  | some r ↦
      if is_active r.status
      then elim (find? (pool_of r.match_id) db.ga_inventory) [
        | none ↦ (false, db)
        | some snapshot ↦ write_release_ga r snapshot.version (between db)
      ]
      else (false, db)
]

abbrev pub set_hold_status : ℕ → HoldStatus → Db → Db
set_hold_status i st db = record db {
  holds = update_where (hold_is i) (λ (h : Hold). record h { status = st }) db.holds;
}

-- the `where` of the confirming update: still this seat, held by this hold, at the version read
abbrev pub sell_guard : ℕ → Seat → Seat → Bool
sell_guard h seat s =
    (s.id == seat.id) && (is_held s.status && ((s.version == seat.version) && held_by h s))

abbrev pub sell : Seat → Seat → Seat
sell seat s = record s { status = sold; version = seat.version + 1 }

-- the loop of `confirm_assigned`, which stops at the first seat that has changed since the read;
-- `between` is what others commit before each of its updates
unfoldable pub sell_seats : (ℕ → Db → Db) → ℕ → ℕ → List Seat → Db → Bool × Db
sell_seats between h i [] db = (true, db)
sell_seats between h i (seat ∷ seats) db =
    let now = between i db in
    let db' = record now { seats = update_where (sell_guard h seat) (sell seat) now.seats } in
    let rest = sell_seats between h (i + 1) seats db' in
    if count_where (sell_guard h seat) now.seats == 1 then rest else (false, db')

unfoldable pub confirmed_if_sold : ℕ → Bool × Db → Bool × Db
confirmed_if_sold h (true, db) = (true, set_hold_status h confirmed db)
confirmed_if_sold h (false, db) = (false, db)

-- `SqlInventoryFinalizer.confirm_assigned`; after `false` the caller rolls back
unfoldable pub confirm_assigned : (ℕ → Db → Db) → ℕ → Db → Bool × Db
unfolding sell_seats confirmed_if_sold
confirm_assigned between h db = elim (find? (hold_is h) db.holds) [
  | none ↦ (false, db)
  | some hold ↦
      if is_active hold.status
      then (let seats = seats_for_hold h db in
          if is_empty seats
          then (false, db)
          else confirmed_if_sold h (sell_seats between h 0 seats db))
      else (false, db)
]

abbrev pub release_guard : ℕ → Seat → Seat → Bool
release_guard h seat s = (s.id == seat.id) && held_by h s

abbrev pub free_seat : Seat → Seat → Seat
free_seat seat s = record s {
  status = available;
  hold_id = none;
  held_until = none;
  version = seat.version + 1;
}

-- the loop of `release_assigned`, with the ids that it has released
unfoldable pub free_seats : (ℕ → Db → Db) → ℕ → ℕ → List Seat → Db → List ℕ × Db
free_seats between h i [] db = ([], db)
free_seats between h i (seat ∷ seats) db =
    let now = between i db in
    let db' = record now {
      seats = update_where (release_guard h seat) (free_seat seat) now.seats;
    } in
    let (released, db'') = free_seats between h (i + 1) seats db' in
    (
      (if count_where (release_guard h seat) now.seats == 1 then seat.id ∷ released else released),
      db'',
    )

-- `SqlInventoryFinalizer.release_assigned`
unfoldable pub release_assigned : (ℕ → Db → Db) → ℕ → Db → List ℕ × Db
unfolding free_seats
release_assigned between h db = elim (find? (hold_is h) db.holds) [
  | none ↦ ([], db)
  | some hold ↦
      if is_active hold.status
      then (let (released, db') = free_seats between h 0 (seats_for_hold h db) db in
          (released, set_hold_status h expired db'))
      else ([], db)
]
