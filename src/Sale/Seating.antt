-- ===== src/Sale/Seating.antt =====
-- The order of the house under the transactions on seats.
use arena_onsale.Prelude.{
  ℕ, ◌+◌, ◌≡◌, refl, Bool, true, false, none, List, [], ◌∷◌, arith, inl, inr, Option-cases,
}
use arena_onsale.Prelude.Query.{find?, count_where, update_where}
use arena_onsale.Prelude.Rows.{count_where-update_where}
use arena_onsale.Tables.{Db, Seat, Hold, active}
use arena_onsale.Inventory.Holds.{
  hold_is, persist_hold, seats_for_hold, seat_is, is_wanted, mark_held,
}
use arena_onsale.Inventory.Holds.Seats.{persist_hold-IsConsistent}
use arena_onsale.Checkout.Finalizer.{
  confirm_assigned, release_assigned, sell_seats, free_seats, sell_guard, sell, release_guard,
  free_seat, confirmed_if_sold,
}
use arena_onsale.Checkout.Finalizer.Pending.{undisturbed}
use arena_onsale.Checkout.Finalizer.Seats.{UniqueSeats, confirm_assigned-Confirmed}
use arena_onsale.Checkout.Finalizer.Release.{release_assigned-Released}
use arena_onsale.Sale.House.{InHouse, InHouse-seats, pools_of}

-- A change of the seats that neither adds nor drops nor renames one, and leaves the pools alone.
record Reseated (db db' : Db) : Type 0 where
  ids : (i : ℕ) → count_where (seat_is i) db'.seats ≡ count_where (seat_is i) db.seats
  pools : pools_of db' ≡ pools_of db

Reseated-same : (db db' : Db) → db' ≡ db → Reseated db db'
Reseated-same db db' e = rw e (record { ids = λ i. refl; pools = refl })

persist_hold-Reseated :
    (seat_ids : List ℕ) (h : Hold) (db : Db) → Reseated db (persist_hold seat_ids h db).1
unfolding persist_hold
persist_hold-Reseated seat_ids h db = record {
  ids = λ i. ground (
    arith,
    count_where-update_where (is_wanted h.match_id seat_ids) (seat_is i) (mark_held h) (λ x. refl)
        db.seats,
  );
  pools = ground arith;
}

sell_seats-Reseated :
    (h i : ℕ) (seats : List Seat) (db : Db) → Reseated db (sell_seats undisturbed h i seats db).1
unfolding sell_seats
sell_seats-Reseated h i [] db = record { ids = λ i. refl; pools = refl }
sell_seats-Reseated h i (seat ∷ seats) db =
    let db' : Db = record db { seats = update_where (sell_guard h seat) (sell seat) db.seats } in
    let rest = sell_seats-Reseated h (i + 1) seats db' in
    record {
      ids = λ j. ground (
        arith,
        rest.ids j,
        count_where-update_where (sell_guard h seat) (seat_is j) (sell seat) (λ x. refl) db.seats,
      );
      pools = ground (arith, rest.pools);
    }

confirmed_if_sold-Reseated :
    (h : ℕ) (db : Db) (r : Bool × Db) → Reseated db r.1 → Reseated db (confirmed_if_sold h r).1
unfolding confirmed_if_sold
confirmed_if_sold-Reseated h db (true, db') k = record { ids = k.ids; pools = k.pools }
confirmed_if_sold-Reseated h db (false, db') k = record { ids = k.ids; pools = k.pools }

confirm_assigned-Reseated : (h : ℕ) (db : Db) → Reseated db (confirm_assigned undisturbed h db).1
unfolding confirm_assigned
confirm_assigned-Reseated h db = elim (Option-cases (find? (hold_is h) db.holds)) [
  | inl no_hold ↦ Reseated-same db _ (ground arith)
  | inr (x, found) ↦
      let sold = sell_seats-Reseated h 0 (seats_for_hold h db) db in
      let done =
        confirmed_if_sold-Reseated h db (sell_seats undisturbed h 0 (seats_for_hold h db) db)
          sold in
      record { ids = λ i. ground (arith, done.ids i); pools = ground (arith, done.pools) }
]

free_seats-Reseated :
    (h i : ℕ) (seats : List Seat) (db : Db) → Reseated db (free_seats undisturbed h i seats db).1
unfolding free_seats
free_seats-Reseated h i [] db = record { ids = λ i. refl; pools = refl }
free_seats-Reseated h i (seat ∷ seats) db =
    let db' : Db = record db {
      seats = update_where (release_guard h seat) (free_seat seat) db.seats;
    } in
    let rest = free_seats-Reseated h (i + 1) seats db' in
    record {
      ids = λ j. ground (
        arith,
        rest.ids j,
        count_where-update_where (release_guard h seat) (seat_is j) (free_seat seat) (λ x. refl)
            db.seats,
      );
      pools = rest.pools;
    }

release_assigned-Reseated : (h : ℕ) (db : Db) → Reseated db (release_assigned undisturbed h db).1
unfolding release_assigned
release_assigned-Reseated h db = elim (Option-cases (find? (hold_is h) db.holds)) [
  | inl no_hold ↦ Reseated-same db _ (ground arith)
  | inr (x, found) ↦
      let freed = free_seats-Reseated h 0 (seats_for_hold h db) db in
      record { ids = λ i. ground (arith, freed.ids i); pools = ground (arith, freed.pools) }
]

Reseated-unique : (db db' : Db) → Reseated db db' → UniqueSeats db.seats → UniqueSeats db'.seats
Reseated-unique db db' k u i = omega (arith, k.ids i, u i)

pub persist_hold-InHouse :
    (m : ℕ) (seat_ids : List ℕ) (h : Hold) (db : Db)
    → h.status ≡ active
    → find? (hold_is h.id) db.holds ≡ none
    → InHouse m db
    → InHouse m (persist_hold seat_ids h db).1
persist_hold-InHouse m seat_ids h db a fresh k =
    let r = persist_hold-Reseated seat_ids h db in
    InHouse-seats m db _ k r.pools (persist_hold-IsConsistent seat_ids h db fresh a k.consistent)
      (Reseated-unique db _ r k.unique)

pub confirm_assigned-InHouse :
    (m h : ℕ) (db : Db)
    → (confirm_assigned undisturbed h db).0 ≡ true
    → InHouse m db
    → InHouse m (confirm_assigned undisturbed h db).1
confirm_assigned-InHouse m h db done k =
    let r = confirm_assigned-Reseated h db in
    InHouse-seats m db _ k r.pools
      (confirm_assigned-Confirmed h db k.unique k.consistent done).consistent
      (Reseated-unique db _ r k.unique)

pub release_assigned-InHouse :
    (m h : ℕ) (db : Db) → InHouse m db → InHouse m (release_assigned undisturbed h db).1
release_assigned-InHouse m h db k =
    let r = release_assigned-Reseated h db in
    InHouse-seats m db _ k r.pools (release_assigned-Released h db k.consistent).consistent
      (Reseated-unique db _ r k.unique)
