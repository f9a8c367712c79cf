-- ===== src/Checkout/Expiry/Paid.antt =====
-- The expiry of holds, and a hold that a captured payment pays for.
use arena_onsale.Prelude.{
  ℕ, ◌+◌, ◌≡◌, refl, Bool, true, false, none, some, List, [], ◌∷◌, arith, take, inl, inr,
  Bool-cases, Option-cases, ◌∙◌, is_empty, ◌==◌,
}
use arena_onsale.Prelude.Query.{find?, select, update_where}
use arena_onsale.Prelude.Rows.{find?-update_ne}
use arena_onsale.Prelude.Sort.{sort_by}
use arena_onsale.Tables.{Db, Hold, Seat, HoldStatus, expired, is_active}
use arena_onsale.Inventory.Locking.{SeatLockGate, release_all}
use arena_onsale.Inventory.Holds.{hold_is, held_by, seats_for_hold}
use arena_onsale.Checkout.Finalizer.{
  release_assigned, free_seats, free_seat, release_guard, set_hold_status,
}
use arena_onsale.Checkout.Expiry.{
  expire_each, expire_holds, has_captured_payment, hold_due, hold_before,
}

-- The hold and its seats as they were, and paid for if it was.
pub record Spared (h : ℕ) (db db' : Db) : Type 0 where
  pub same_hold : find? (hold_is h) db'.holds ≡ find? (hold_is h) db.holds
  pub same_seats : select (held_by h) db'.seats ≡ select (held_by h) db.seats
  pub still_paid :
      has_captured_payment (some h) none db ≡ true → has_captured_payment (some h) none db' ≡ true

Spared-refl : (h : ℕ) (db : Db) → Spared h db db
Spared-refl h db = record { same_hold = refl; same_seats = refl; still_paid = λ p. p }

unchanged : (h : ℕ) (db db' : Db) → db' ≡ db → Spared h db db'
unchanged h db db' e = rw e (Spared-refl h db)

Spared-trans : (h : ℕ) (a b c : Db) → Spared h a b → Spared h b c → Spared h a c
Spared-trans h a b c r s = record {
  same_hold = s.same_hold ∙ r.same_hold;
  same_seats = s.same_seats ∙ r.same_seats;
  still_paid = λ p. s.still_paid (r.still_paid p);
}

free-other :
    (h j : ℕ) (seat : Seat) (ss : List Seat)
    → (h == j) ≡ false
    → select (held_by h) (update_where (release_guard j seat) (free_seat seat) ss)
      ≡ select (held_by h) ss
free-other h j seat [] d = refl
free-other h j seat (s ∷ ss) d = ground (arith, free-other h j seat ss d)

freed-Spared :
    (h j : ℕ) (seat : Seat) (db : Db)
    → (h == j) ≡ false
    → Spared h db
        (record db { seats = update_where (release_guard j seat) (free_seat seat) db.seats })
unfolding has_captured_payment
freed-Spared h j seat db d = record {
  same_hold = refl;
  same_seats = free-other h j seat db.seats d;
  still_paid = λ p. p;
}

expired-Spared :
    (h j : ℕ) (st : HoldStatus) (db : Db) → (h == j) ≡ false → Spared h db (set_hold_status j st db)
unfolding has_captured_payment
expired-Spared h j st db d = record {
  same_hold =
      find?-update_ne (hold_is j) (hold_is h) (λ x. record x { status = st }) (λ x. refl)
        (λ x e. ground arith) db.holds;
  same_seats = refl;
  still_paid = λ p. p;
}

module _ (h : ℕ) (between : ℕ → Db → Db)
    (keep : (i : ℕ) (db : Db) → Spared h db (between i db)) where
  free_seats-Spared :
      (j i : ℕ) (seats : List Seat) (db : Db)
      → (h == j) ≡ false
      → Spared h db (free_seats between j i seats db).1
  unfolding free_seats
  free_seats-Spared j i [] db d = Spared-refl h db
  free_seats-Spared j i (seat ∷ seats) db d =
      let now : Db = between i db in
      let db' : Db = record now {
        seats = update_where (release_guard j seat) (free_seat seat) now.seats;
      } in
      Spared-trans h db now _ (keep i db) (
        Spared-trans h now db' _ (freed-Spared h j seat now d)
          (free_seats-Spared j (i + 1) seats db' d))

  release_assigned-Spared :
      (j : ℕ) (db : Db) → (h == j) ≡ false → Spared h db (release_assigned between j db).1
  unfolding release_assigned
  release_assigned-Spared j db d = elim (Option-cases (find? (hold_is j) db.holds)) [
    | inl e ↦ unchanged h db _ (ground arith)
    | inr (x, e) ↦ elim (Bool-cases (is_active x.status)) [
      | inl a ↦
          let freed : Db = (free_seats between j 0 (seats_for_hold j db) db).1 in
          let shape : (release_assigned between j db).1 ≡ set_hold_status j expired freed =
            ground arith in
          rw shape (
            Spared-trans h db freed _ (free_seats-Spared j 0 (seats_for_hold j db) db d)
              (expired-Spared h j expired freed d))
      | inr i ↦ unchanged h db _ (ground arith)
    ]
  ]

paid-differs :
    (h j : ℕ) (db : Db)
    → has_captured_payment (some h) none db ≡ true
    → has_captured_payment (some j) none db ≡ false
    → (h == j) ≡ false
paid-differs h j db p u = ground arith

module _ (gate : SeatLockGate) (between : ℕ → ℕ → Db → Db) where
  open gate use {State}

  expire_each-Spared :
      (h i : ℕ) (hs : List Hold) (locks : State) (db : Db)
      → ((i j : ℕ) (db : Db) → Spared h db (between i j db))
      → has_captured_payment (some h) none db ≡ true
      → Spared h db (expire_each gate between i hs locks db).2
  unfolding expire_each
  expire_each-Spared h i [] locks db keep p = Spared-refl h db
  expire_each-Spared h i (x ∷ hs) locks db keep p =
      let (seats, db') = release_assigned (between i) x.id db in
      elim (Bool-cases (has_captured_payment (some x.id) none db)) [
        | inl paid ↦ rw paid (expire_each-Spared h (i + 1) hs locks db keep p)
        | inr unpaid ↦
            let other : (h == x.id) ≡ false = paid-differs h x.id db p unpaid in
            let first = release_assigned-Spared h (between i) (keep i) x.id db other in
            elim (Bool-cases (is_empty seats)) [
              | inl none_freed ↦ rw unpaid (
                  rw none_freed (
                    Spared-trans h db db' _ first
                      (expire_each-Spared h (i + 1) hs locks db' keep (first.still_paid p))))
              | inr some_freed ↦ rw unpaid (
                  rw some_freed (
                    Spared-trans h db db' _ first (
                      expire_each-Spared h (i + 1) hs (release_all gate x.match_id seats x.id locks)
                        db' keep (first.still_paid p))))
            ]
      ]

  -- However late the pass comes, a hold that has a captured payment before the pass stays as it is and keeps
  -- its seats, whatever others commit between the statements of the pass, payments and sales of other holds
  -- included, if they leave this hold, its seats and its being paid for alone.
  pub expire_holds-Spared :
      (skip : ℕ → Bool) (now batch_size h : ℕ) (locks : State) (db : Db)
      → ((i j : ℕ) (db : Db) → Spared h db (between i j db))
      → has_captured_payment (some h) none db ≡ true
      → Spared h db (expire_holds gate between skip now batch_size locks db).2
  unfolding expire_holds
  expire_holds-Spared skip now batch_size h locks db keep p =
      expire_each-Spared h 0
        (take batch_size (sort_by hold_before (select (hold_due skip now) db.holds))) locks db keep
        p
