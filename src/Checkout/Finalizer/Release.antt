-- ===== src/Checkout/Finalizer/Release.antt =====
-- Releasing the seats of a hold, with no step of others in between.
use arena_onsale.Prelude.{
  ℕ, ◌+◌, ◌≡◌, refl, Bool, true, false, some, List, [], ◌∷◌, if◌then◌else◌, arith, inl, inr,
  Option-cases, Bool-cases, All, ◌∙◌,
}
use arena_onsale.Prelude.Query.{find?, update_where, count_where}
use arena_onsale.Tables.{Db, Seat, Hold, sold, HoldStatus, active, expired, is_active, is_held}
use arena_onsale.Inventory.Holds.{hold_is, held_by, seats_for_hold, seat_ids_of}
use arena_onsale.Inventory.Holds.Seats.{seat_ok, SeatsOk, IsConsistent, status_of}
use arena_onsale.Checkout.Finalizer.{
  set_hold_status, release_guard, free_seat, free_seats, release_assigned,
}
use arena_onsale.Checkout.Finalizer.Pending.{
  undisturbed, Pending, any, Pending-seats_for_hold, Pending-free,
}
use arena_onsale.Checkout.Finalizer.Seats.{with_status, seat_ok-set_other}

abbrev pub is_sold : Seat → Bool
is_sold s = elim s.status [ sold ↦ true | _ ↦ false ]

-- while the seats of `h` are being freed
abbrev FreeingOk : ℕ → List Hold → List Seat → Type 0
FreeingOk h hs ss =
    All (λ s. (if held_by h s then is_held s.status else seat_ok hs s.status s.hold_id) ≡ true) ss

FreeingOk-start :
    (h : ℕ) (hs : List Hold) (ss : List Seat)
    → status_of h hs ≡ some active
    → SeatsOk hs ss
    → FreeingOk h hs ss
FreeingOk-start h hs [] a k = tt
FreeingOk-start h hs (s ∷ ss) a k = (ground (arith, k.0), FreeingOk-start h hs ss a k.1)

FreeingOk-free :
    (h : ℕ) (hs : List Hold) (seat : Seat) (ss : List Seat)
    → FreeingOk h hs ss
    → FreeingOk h hs (update_where (release_guard h seat) (free_seat seat) ss)
FreeingOk-free h hs seat [] k = tt
FreeingOk-free h hs seat (s ∷ ss) k = (ground (arith, k.0), FreeingOk-free h hs seat ss k.1)

sold-free :
    (h : ℕ) (hs : List Hold) (seat : Seat) (ss : List Seat)
    → FreeingOk h hs ss
    → count_where is_sold (update_where (release_guard h seat) (free_seat seat) ss)
      ≡ count_where is_sold ss
sold-free h hs seat [] k = refl
sold-free h hs seat (s ∷ ss) k = ground (arith, k.0, sold-free h hs seat ss k.1)

record Freed (h : ℕ) (db db' : Db) : Type 0 where
  same_holds : db'.holds ≡ db.holds
  ok_rows : FreeingOk h db.holds db'.seats
  all_free : Pending h any [] db'.seats
  same_sold : count_where is_sold db'.seats ≡ count_where is_sold db.seats

free_seats-Freed :
    (h i : ℕ) (seats : List Seat) (db : Db)
    → FreeingOk h db.holds db.seats
    → Pending h any (seat_ids_of seats) db.seats
    → Freed h db (free_seats undisturbed h i seats db).1
unfolding free_seats
free_seats-Freed h i [] db k p = record {
  same_holds = refl;
  ok_rows = k;
  all_free = p;
  same_sold = refl;
}
free_seats-Freed h i (seat ∷ seats) db k p =
    let db' : Db = record db {
      seats = update_where (release_guard h seat) (free_seat seat) db.seats;
    } in
    let v : Freed h db' (free_seats undisturbed h (i + 1) seats db').1 =
      free_seats-Freed h (i + 1) seats db' (FreeingOk-free h db.holds seat db.seats k)
        (Pending-free h seat (seat_ids_of seats) db.seats p) in
    record {
      same_holds = v.same_holds;
      ok_rows = v.ok_rows;
      all_free = v.all_free;
      same_sold = v.same_sold ∙ sold-free h db.holds seat db.seats k;
    }

SeatsOk-expired :
    (h : ℕ) (st : HoldStatus) (hs : List Hold) (ss : List Seat)
    → FreeingOk h hs ss
    → Pending h any [] ss
    → SeatsOk (update_where (hold_is h) (with_status st) hs) ss
SeatsOk-expired h st hs [] k p = tt
SeatsOk-expired h st hs (s ∷ ss) k p = (
  ground (arith, k.0, p.0, seat_ok-set_other h st hs s.status s.hold_id),
  SeatsOk-expired h st hs ss k.1 p.1,
)

-- What a release leaves: every seat tied to its hold, and as many seats sold as before.
pub record Released (db db' : Db) : Type 0 where
  pub consistent : IsConsistent db'
  pub same_sold : count_where is_sold db'.seats ≡ count_where is_sold db.seats

release_same : (db db' : Db) → db' ≡ db → IsConsistent db → Released db db'
release_same db db' e k = rw e (record { consistent = k; same_sold = refl })

-- Releasing a hold, whatever its status, keeps every seat tied to its hold and returns no sold seat to
-- the sale, where nothing else is written between its statements.
pub release_assigned-Released :
    (h : ℕ) (db : Db) → IsConsistent db → Released db (release_assigned undisturbed h db).1
unfolding release_assigned
release_assigned-Released h db k = elim (Option-cases (find? (hold_is h) db.holds)) [
  | inl no_hold ↦ release_same db _ (ground arith) k
  | inr (x, found) ↦ elim (Bool-cases (is_active x.status)) [
    | inl a ↦
        let v : Freed h db (free_seats undisturbed h 0 (seats_for_hold h db) db).1 =
          free_seats-Freed h 0 (seats_for_hold h db) db
            (FreeingOk-start h db.holds db.seats (ground arith) k)
            (Pending-seats_for_hold h any db) in
        let e : (release_assigned undisturbed h db).1
            ≡ set_hold_status h expired (free_seats undisturbed h 0 (seats_for_hold h db) db).1 =
          ground arith in
        rw e (record {
          consistent = rw v.same_holds (SeatsOk-expired h expired db.holds _ v.ok_rows v.all_free);
          same_sold = v.same_sold;
        })
    | inr i ↦ release_same db _ (ground arith) k
  ]
]
