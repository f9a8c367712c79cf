-- ===== src/Worker/Frames.antt =====
-- Which tables the two expiry passes leave alone.
use arena_onsale.Prelude.{
  ℕ, ◌+◌, ◌≡◌, refl, Bool, none, some, List, [], ◌∷◌, arith, take, inl, inr, Bool-cases,
  Option-cases, ◌∙◌, is_empty,
}
use arena_onsale.Prelude.Query.{find?, select, update_where}
use arena_onsale.Prelude.Sort.{sort_by}
use arena_onsale.Tables.{Db, Hold, Seat, GaReservation, OutboxEvent, GeneralAdmission, is_active}
use arena_onsale.Inventory.Locking.{SeatLockGate, release_all}
use arena_onsale.Inventory.Holds.{hold_is, seats_for_hold}
use arena_onsale.Inventory.GaStock.{pool_of}
use arena_onsale.Checkout.Finalizer.{
  release_assigned, free_seats, free_seat, release_guard, release_ga, write_release_ga,
  reservation_is,
}
use arena_onsale.Checkout.Finalizer.Pending.{undisturbed}
use arena_onsale.Checkout.Expiry.{
  expire_each, expire_holds, expire_each_ga, expire_ga, has_captured_payment, hold_due, hold_before,
  ga_due, reservation_before,
}
use arena_onsale.Checkout.Expiry.Seats.{nobody_between}
use arena_onsale.Checkout.Expiry.Ga.{ga_undisturbed}

-- the tables of general admission and the outbox
abbrev pub ga_side : Db → List GeneralAdmission × List GaReservation × List OutboxEvent
ga_side db = (db.ga_inventory, db.ga_reservations, db.outbox)

-- the tables of seats and the outbox
abbrev pub seat_side : Db → List Seat × List Hold × List OutboxEvent
seat_side db = (db.seats, db.holds, db.outbox)

free_seats-ga_side :
    (h i : ℕ) (seats : List Seat) (db : Db)
    → ga_side (free_seats undisturbed h i seats db).1 ≡ ga_side db
unfolding free_seats
free_seats-ga_side h i [] db = refl
free_seats-ga_side h i (seat ∷ seats) db =
    free_seats-ga_side h (i + 1) seats
      (record db { seats = update_where (release_guard h seat) (free_seat seat) db.seats })

release_assigned-ga_side :
    (h : ℕ) (db : Db) → ga_side (release_assigned undisturbed h db).1 ≡ ga_side db
unfolding release_assigned
release_assigned-ga_side h db = elim (Option-cases (find? (hold_is h) db.holds)) [
  | inl e ↦ ground arith
  | inr (x, e) ↦ elim (Bool-cases (is_active x.status)) [
    | inl a ↦ ground (arith, free_seats-ga_side h 0 (seats_for_hold h db) db)
    | inr i ↦ ground arith
  ]
]

module _ (gate : SeatLockGate) where
  open gate use {State}

  expire_each-ga_side :
      (i : ℕ) (hs : List Hold) (locks : State) (db : Db)
      → ga_side (expire_each gate nobody_between i hs locks db).2 ≡ ga_side db
  unfolding expire_each
  expire_each-ga_side i [] locks db = refl
  expire_each-ga_side i (h ∷ hs) locks db =
      let db' : Db = (release_assigned undisturbed h.id db).1 in
      let seats = (release_assigned undisturbed h.id db).0 in
      elim (Bool-cases (has_captured_payment (some h.id) none db)) [
        | inl paid ↦ rw paid (expire_each-ga_side (i + 1) hs locks db)
        | inr unpaid ↦ elim (Bool-cases (is_empty seats)) [
          | inl e ↦
              rw unpaid
                (rw e (expire_each-ga_side (i + 1) hs locks db' ∙ release_assigned-ga_side h.id db))
          | inr e ↦ rw unpaid (
              rw e (
                expire_each-ga_side (i + 1) hs (release_all gate h.match_id seats h.id locks) db'
                ∙ release_assigned-ga_side h.id db))
        ]
      ]

  pub expire_holds-ga_side :
      (skip : ℕ → Bool) (now batch_size : ℕ) (locks : State) (db : Db)
      → ga_side (expire_holds gate nobody_between skip now batch_size locks db).2 ≡ ga_side db
  unfolding expire_holds
  expire_holds-ga_side skip now batch_size locks db =
      expire_each-ga_side 0
        (take batch_size (sort_by hold_before (select (hold_due skip now) db.holds))) locks db

release_ga-seat_side : (i : ℕ) (db : Db) → seat_side (release_ga (λ d. d) i db).1 ≡ seat_side db
unfolding release_ga write_release_ga
release_ga-seat_side i db = elim (Option-cases (find? (reservation_is i) db.ga_reservations)) [
  | inl e ↦ ground arith
  | inr (r, e) ↦ elim (Option-cases (find? (pool_of r.match_id) db.ga_inventory)) [
    | inl e' ↦ ground arith
    | inr (g, e') ↦ ground arith
  ]
]

expire_each_ga-seat_side :
    (i : ℕ) (rs : List GaReservation) (db : Db)
    → seat_side (expire_each_ga ga_undisturbed i rs db).1 ≡ seat_side db
unfolding expire_each_ga
expire_each_ga-seat_side i [] db = refl
expire_each_ga-seat_side i (r ∷ rs) db =
    let db' : Db = (release_ga (λ d. d) r.id db).1 in
    elim (Bool-cases (has_captured_payment none (some r.id) db)) [
      | inl paid ↦ rw paid (expire_each_ga-seat_side (i + 1) rs db)
      | inr unpaid ↦
          rw unpaid (expire_each_ga-seat_side (i + 1) rs db' ∙ release_ga-seat_side r.id db)
    ]

pub expire_ga-seat_side :
    (skip : ℕ → Bool) (now batch_size : ℕ) (db : Db)
    → seat_side (expire_ga ga_undisturbed skip now batch_size db).1 ≡ seat_side db
unfolding expire_ga
expire_ga-seat_side skip now batch_size db =
    expire_each_ga-seat_side 0
      (take batch_size (sort_by reservation_before (select (ga_due skip now) db.ga_reservations)))
      db
