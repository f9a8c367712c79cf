-- ===== src/Checkout/Finalizer/Seats.antt =====
-- Confirming and releasing the seats of a hold, with no step of others in between.
use arena_onsale.Prelude.{
  ℕ, ◌+◌, ◌≤◌, ◌≡◌, ◌≢◌, refl, Bool, true, false, none, some, List, [], ◌∷◌, if◌then◌else◌, ◌==◌,
  arith, inl, inr, Option, Option-cases, Bool-cases, All, is_empty, not,
}
use arena_onsale.Prelude.Query.{find?, update_where, count_where}
use arena_onsale.Prelude.Rows.{find?-update_where, find?-update_ne, count_where-update_where}
use arena_onsale.Tables.{
  Db, Seat, Hold, SeatStatus, available, held, sold, HoldStatus, confirmed, is_active, is_available,
}
use arena_onsale.Inventory.Holds.{hold_is, seat_is, held_by, seats_for_hold, seat_ids_of}
use arena_onsale.Inventory.Holds.Seats.{seat_ok, SeatsOk, IsConsistent, status_of}
use arena_onsale.Checkout.Finalizer.{
  set_hold_status, sell_guard, sell, sell_seats, confirmed_if_sold, confirm_assigned,
}
use arena_onsale.Checkout.Finalizer.Pending.{
  undisturbed, Pending, still_held, Pending-seats_for_hold, Pending-sell, guard_of_unique,
}

-- No two rows of the table have the same primary key.
abbrev pub UniqueSeats : List Seat → Type 0
UniqueSeats ss = (i : ℕ) → count_where (seat_is i) ss ≤ 1

-- while the seats of `h` are being sold
abbrev SellingOk : ℕ → List Hold → List Seat → Type 0
SellingOk h hs ss =
    All
      (λ s.
        (if held_by h s then not (is_available s.status) else seat_ok hs s.status s.hold_id) ≡ true)
      ss

SellingOk-start : (h : ℕ) (hs : List Hold) (ss : List Seat) → SeatsOk hs ss → SellingOk h hs ss
SellingOk-start h hs [] k = tt
SellingOk-start h hs (s ∷ ss) k = (ground (arith, k.0), SellingOk-start h hs ss k.1)

SellingOk-sell :
    (h : ℕ) (hs : List Hold) (seat : Seat) (ss : List Seat)
    → SellingOk h hs ss
    → SellingOk h hs (update_where (sell_guard h seat) (sell seat) ss)
SellingOk-sell h hs seat [] k = tt
SellingOk-sell h hs seat (s ∷ ss) k = (ground (arith, k.0), SellingOk-sell h hs seat ss k.1)

-- what a run of the selling loop that succeeds has come to
record Sold (h : ℕ) (db db' : Db) : Type 0 where
  same_holds : db'.holds ≡ db.holds
  ok_rows : SellingOk h db.holds db'.seats
  all_sold : Pending h still_held [] db'.seats

sell_seats-Sold :
    (h i : ℕ) (seats : List Seat) (db : Db)
    → UniqueSeats db.seats
    → SellingOk h db.holds db.seats
    → Pending h still_held (seat_ids_of seats) db.seats
    → (sell_seats undisturbed h i seats db).0 ≡ true
    → Sold h db (sell_seats undisturbed h i seats db).1
unfolding sell_seats
sell_seats-Sold h i [] db u k p e = record { same_holds = refl; ok_rows = k; all_sold = p }
sell_seats-Sold h i (seat ∷ seats) db u k p e =
    elim (Bool-cases (count_where (sell_guard h seat) db.seats == 1)) [
      | inl hit ↦
          let db' : Db = record db {
            seats = update_where (sell_guard h seat) (sell seat) db.seats;
          } in
          let v : Sold h db' (sell_seats undisturbed h (i + 1) seats db').1 =
            sell_seats-Sold h (i + 1) seats db'
              (λ j.
                rw
                  (count_where-update_where (sell_guard h seat) (seat_is j) (sell seat) (λ x. refl)
                    db.seats)
                  (u j))
              (SellingOk-sell h db.holds seat db.seats k)
              (Pending-sell h seat (seat_ids_of seats) db.seats
                (guard_of_unique h seat db.seats (ground arith) (u seat.id)) p)
              (ground arith) in
          rw hit (record { same_holds = v.same_holds; ok_rows = v.ok_rows; all_sold = v.all_sold })
      | inr miss ↦ ground arith
    ]

abbrev pub with_status : HoldStatus → Hold → Hold
with_status st h = record h { status = st }

pub status_of-set_self :
    (h : ℕ) (st : HoldStatus) (hs : List Hold) (x : Hold)
    → find? (hold_is h) hs ≡ some x
    → status_of h (update_where (hold_is h) (with_status st) hs) ≡ some st
status_of-set_self h st hs x e =
    ground (arith, find?-update_where (hold_is h) (with_status st) (λ y. refl) hs x e)

status_of-set_ne :
    (h k : ℕ) (st : HoldStatus) (hs : List Hold)
    → k ≢ h
    → status_of k (update_where (hold_is h) (with_status st) hs) ≡ status_of k hs
status_of-set_ne h k st hs ne = ground (
  arith,
  find?-update_ne (hold_is h) (hold_is k) (with_status st) (λ y. refl) (λ y e. ground arith) hs,
)

-- A row that is not the hold's does not see the hold's new status.
pub seat_ok-set_other :
    (h : ℕ) (st : HoldStatus) (hs : List Hold) (t : SeatStatus) (o : Option ℕ)
    → (elim o [ none ↦ false | some i ↦ i == h ]) ≡ false
    → seat_ok hs t o ≡ true
    → seat_ok (update_where (hold_is h) (with_status st) hs) t o ≡ true
seat_ok-set_other h st hs available o n k = k
seat_ok-set_other h st hs held none n k = k
seat_ok-set_other h st hs held (some i) n k = ground (arith, status_of-set_ne h i st hs)
seat_ok-set_other h st hs sold none n k = k
seat_ok-set_other h st hs sold (some i) n k = ground (arith, status_of-set_ne h i st hs)

SeatsOk-confirmed :
    (h : ℕ) (hs : List Hold) (x : Hold) (ss : List Seat)
    → find? (hold_is h) hs ≡ some x
    → SellingOk h hs ss
    → Pending h still_held [] ss
    → SeatsOk (update_where (hold_is h) (with_status confirmed) hs) ss
SeatsOk-confirmed h hs x [] e k p = tt
SeatsOk-confirmed h hs x (s ∷ ss) e k p = (
  ground (
    arith,
    k.0,
    p.0,
    status_of-set_self h confirmed hs x,
    seat_ok-set_other h confirmed hs s.status s.hold_id,
  ),
  SeatsOk-confirmed h hs x ss e k.1 p.1,
)

confirmed_if_sold-cases :
    (h : ℕ) (r : Bool × Db)
    → (confirmed_if_sold h r).0 ≡ true
    → (r.0 ≡ true) × ((confirmed_if_sold h r).1 ≡ set_hold_status h confirmed r.1)
unfolding confirmed_if_sold
confirmed_if_sold-cases h (true, db) e = (refl, refl)
confirmed_if_sold-cases h (false, db) e = cc

-- What a confirmed hold has come to: its seats are sold and every seat is still tied to its hold.
pub record Confirmed (h : ℕ) (db' : Db) : Type 0 where
  pub consistent : IsConsistent db'
  pub hold : status_of h db'.holds ≡ some confirmed
  pub all_sold : All (λ s. held_by h s ≡ true → s.status ≡ sold) db'.seats

All-sold_of :
    (h : ℕ) (hs : List Hold) (ss : List Seat)
    → SellingOk h hs ss
    → Pending h still_held [] ss
    → All (λ s. held_by h s ≡ true → s.status ≡ sold) ss
All-sold_of h hs [] k p = tt
All-sold_of h hs (s ∷ ss) k p = ((λ e. ground (arith, k.0, p.0)), All-sold_of h hs ss k.1 p.1)

sold-Confirmed :
    (h : ℕ) (x : Hold) (db : Db)
    → find? (hold_is h) db.holds ≡ some x
    → UniqueSeats db.seats
    → IsConsistent db
    → (sell_seats undisturbed h 0 (seats_for_hold h db) db).0 ≡ true
    → Confirmed h
        (set_hold_status h confirmed (sell_seats undisturbed h 0 (seats_for_hold h db) db).1)
sold-Confirmed h x db e u k t =
    let v : Sold h db (sell_seats undisturbed h 0 (seats_for_hold h db) db).1 =
      sell_seats-Sold h 0 (seats_for_hold h db) db u (SellingOk-start h db.holds db.seats k)
        (Pending-seats_for_hold h still_held db) t in
    record {
      consistent = rw v.same_holds (SeatsOk-confirmed h db.holds x _ e v.ok_rows v.all_sold);
      hold = rw v.same_holds (status_of-set_self h confirmed db.holds x e);
      all_sold = All-sold_of h db.holds _ v.ok_rows v.all_sold;
    }

-- A confirmation that reports success has sold every seat of the hold and confirmed the hold, and
-- every seat of the database is tied to its hold as before.
pub confirm_assigned-Confirmed :
    (h : ℕ) (db : Db)
    → UniqueSeats db.seats
    → IsConsistent db
    → (confirm_assigned undisturbed h db).0 ≡ true
    → Confirmed h (confirm_assigned undisturbed h db).1
unfolding confirm_assigned
confirm_assigned-Confirmed h db u k e = elim (Option-cases (find? (hold_is h) db.holds)) [
  | inl no_hold ↦ absurd (ground arith)
  | inr (x, found) ↦ elim (Bool-cases (is_active x.status)) [
    | inl a ↦ elim (Bool-cases (is_empty (seats_for_hold h db))) [
      | inl none_left ↦ absurd (ground arith)
      | inr some_left ↦
          let c =
            confirmed_if_sold-cases h (sell_seats undisturbed h 0 (seats_for_hold h db) db)
              (ground arith) in
          let e' : (confirm_assigned undisturbed h db).1
              ≡ set_hold_status h confirmed
                  (sell_seats undisturbed h 0 (seats_for_hold h db) db).1 =
            ground (arith, c.1) in
          rw e' (sold-Confirmed h x db found u k c.0)
    ]
    | inr i ↦ absurd (ground arith)
  ]
]
