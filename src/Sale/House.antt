-- ===== src/Sale/House.antt =====
-- The order of the house: pools, seats and holds, and the transactions on pools.
use arena_onsale.Prelude.{subst, sym}
use arena_onsale.Prelude.{
  ℕ, ◌≡◌, refl, true, none, some, List, [], ◌∷◌, arith, inl, inr, Bool-cases, Option-cases, ap,
  ◌==◌,
}
use arena_onsale.Prelude.Query.{find?, count_where}
use arena_onsale.Prelude.Rows.{count_where-update_where, count_where-pos}
use arena_onsale.Tables.{
  Db, Seat, Hold, GaReservation, GeneralAdmission, active, is_active, confirmed,
}
use arena_onsale.Inventory.GaStock.{write_claim, claim_guard, take_tickets, pool_of}
use arena_onsale.Inventory.GaStock.Accounts.{write_claim-IsConserved}
use arena_onsale.Inventory.Holds.Seats.{IsConsistent}
use arena_onsale.Checkout.Finalizer.{reservation_is, confirm_ga, write_release_ga, with_status}
use arena_onsale.Checkout.Finalizer.Seats.{UniqueSeats}
use arena_onsale.Checkout.Finalizer.Ga.{confirm_ga-IsConserved, write_release_ga-IsConserved}
use arena_onsale.Checkout.Expiry.Ga.{GaBooks, write_release_ga_unique, guard-le}

-- The accounts of the pool of match `m`, every seat tied to its hold, and the unique ids of seats.
pub record InHouse (m : ℕ) (db : Db) : Type 0 where
  pub books : GaBooks m db
  pub consistent : IsConsistent db
  pub unique : UniqueSeats db.seats

-- what a step on the pools leaves alone, and what a step on the seats leaves alone
abbrev pub seats_of : Db → List Seat × List Hold
seats_of db = (db.seats, db.holds)

abbrev pub pools_of : Db → List GeneralAdmission × List GaReservation
pools_of db = (db.ga_inventory, db.ga_reservations)

InHouse-pools :
    (m : ℕ) (db db' : Db)
    → InHouse m db
    → seats_of db' ≡ seats_of db
    → GaBooks m db'
    → InHouse m db'
InHouse-pools m db db' h e b = record {
  books = record { conserved = b.conserved; one_row = b.one_row; one_pool = b.one_pool };
  consistent = rw (ap (λ t. t.0) e) (rw (ap (λ t. t.1) e) h.consistent);
  unique = rw (ap (λ t. t.0) e) h.unique;
}

pub InHouse-seats :
    (m : ℕ) (db db' : Db)
    → InHouse m db
    → pools_of db' ≡ pools_of db
    → IsConsistent db'
    → UniqueSeats db'.seats
    → InHouse m db'
InHouse-seats m db db' h e k u = record {
  books = record {
    conserved = rw (ap (λ t. t.0) e) (rw (ap (λ t. t.1) e) h.books.conserved);
    one_row = rw (ap (λ t. t.1) e) h.books.one_row;
    one_pool = rw (ap (λ t. t.0) e) h.books.one_pool;
  };
  consistent = k;
  unique = u;
}

absent :
    (i : ℕ) (rs : List GaReservation)
    → find? (reservation_is i) rs ≡ none
    → count_where (reservation_is i) rs ≡ 0
absent i [] e = refl
absent i (r ∷ rs) e = ground (arith, absent i rs)

pub write_claim-InHouse :
    (m version : ℕ) (r : GaReservation) (db : Db)
    → r.status ≡ active
    → find? (reservation_is r.id) db.ga_reservations ≡ none
    → InHouse m db
    → InHouse m (write_claim version r.match_id r.quantity r db).1
unfolding write_claim
write_claim-InHouse m v r db a fresh h = InHouse-pools m db _ h (ground arith) (record {
  conserved = write_claim-IsConserved m v r.match_id r.quantity r db refl refl a h.books.conserved;
  one_row = λ i. elim (Bool-cases (r.id == i)) [
    | inl same ↦ ground (arith, absent r.id db.ga_reservations fresh, h.books.one_row i)
    | inr other ↦ ground (arith, h.books.one_row i)
  ];
  one_pool = λ n. ground (
    arith,
    h.books.one_pool n,
    count_where-update_where (claim_guard r.match_id v r.quantity) (pool_of n)
        (take_tickets r.quantity) (λ x. refl) db.ga_inventory,
  );
})

confirm_ga-InHouse : (m i : ℕ) (db : Db) → InHouse m db → InHouse m (confirm_ga (λ d. d) i db).1
unfolding confirm_ga
confirm_ga-InHouse m i db h = elim (Option-cases (find? (reservation_is i) db.ga_reservations)) [
  | inl none_there ↦ unchanged (ground arith)
  | inr (r, e) ↦ InHouse-pools m db _ h (ground arith) (record {
    conserved =
        confirm_ga-IsConserved (λ d. d) m i db
          (record {
            same = refl;
            one = omega (
              arith,
              count_where-pos (reservation_is i) db.ga_reservations r e,
              h.books.one_row i,
            );
          })
          h.books.conserved h.books.conserved;
    one_row = λ j. ground (
      arith,
      h.books.one_row j,
      count_where-update_where (reservation_is i) (reservation_is j) (with_status confirmed)
          (λ x. refl) db.ga_reservations,
    );
    one_pool = λ n. ground (arith, h.books.one_pool n);
  })
]
  where
    unchanged : (confirm_ga (λ d. d) i db).1 ≡ db → InHouse m (confirm_ga (λ d. d) i db).1
    unchanged e = rw e h

-- Reading the row earlier is the same as reading it now, if it has not been written.
confirm_ga_late :
    (i : ℕ) (read db : Db)
    → find? (reservation_is i) db.ga_reservations ≡ find? (reservation_is i) read.ga_reservations
    → (confirm_ga (λ d. db) i read).0 ≡ true
    → confirm_ga (λ d. db) i read ≡ confirm_ga (λ d. d) i db
unfolding confirm_ga
confirm_ga_late i read db same e =
    elim (Option-cases (find? (reservation_is i) db.ga_reservations)) [
      | inl none_there ↦ ground (arith, same, none_there)
      | inr (r, found) ↦ ground (arith, same, found)
    ]

pub confirm_ga_late-InHouse :
    (m i : ℕ) (read db : Db)
    → find? (reservation_is i) db.ga_reservations ≡ find? (reservation_is i) read.ga_reservations
    → (confirm_ga (λ d. db) i read).0 ≡ true
    → InHouse m db
    → InHouse m (confirm_ga (λ d. db) i read).1
confirm_ga_late-InHouse m i read db same e h =
    subst (λ t. InHouse m t.1) (sym (confirm_ga_late i read db same e))
      (confirm_ga-InHouse m i db h)

pub write_release_ga-InHouse :
    (m version : ℕ) (r : GaReservation) (db : Db)
    → is_active r.status ≡ true
    → find? (reservation_is r.id) db.ga_reservations ≡ some r
    → InHouse m db
    → InHouse m (write_release_ga r version db).1
unfolding write_release_ga
write_release_ga-InHouse m v r db a e h =
    let u = write_release_ga_unique m v r db h.books in
    InHouse-pools m db _ h (ground arith) (record {
      conserved =
          write_release_ga-IsConserved m v r db a e
            (omega (
              arith,
              count_where-pos (reservation_is r.id) db.ga_reservations r e,
              h.books.one_row r.id,
            ))
            (omega (arith, guard-le r.match_id v db.ga_inventory, h.books.one_pool r.match_id))
            h.books.conserved;
      one_row = u.0;
      one_pool = u.1;
    })
