-- ===== src/Checkout/Expiry.antt =====
-- src/arena_onsale/checkout/expiry.py: give back what unpaid holds and reservations keep.
-- `locked_by_others` says which rows `SKIP LOCKED` passes over; `between` is what other transactions
-- commit during the release of a row.
pub mod Seats
pub mod Ga
pub mod Paid
use arena_onsale.Prelude.{
  ℕ, ◌+◌, Bool, true, false, not, ◌&&◌, ◌||◌, Option, none, some, List, [], ◌∷◌, if◌then◌else◌, leb,
  ◌==◌, take, is_empty,
}
use arena_onsale.Prelude.Query.{select}
use arena_onsale.Prelude.Sort.{sort_by}
use arena_onsale.Tables.{
  Db, Hold, GaReservation, Order, Payment, PaymentStatus, captured, is_active,
}
use arena_onsale.Inventory.Locking.{SeatLockGate, release_all}
use arena_onsale.Checkout.Finalizer.{release_assigned, release_ga}

abbrev pub is_captured : PaymentStatus → Bool
is_captured captured = true
is_captured _ = false

abbrev pub names : ℕ → Option ℕ → Bool
names i none = false
names i (some j) = j == i

-- a captured payment joined with its order
abbrev pub pays_for : (Order → Bool) → Payment → List Order → Bool
pays_for wanted p [] = false
pays_for wanted p (o ∷ os) =
    (is_captured p.status && ((p.order_id == o.id) && wanted o)) || pays_for wanted p os

abbrev pub any_payment : (Order → Bool) → List Order → List Payment → Bool
any_payment wanted os [] = false
any_payment wanted os (p ∷ ps) = pays_for wanted p os || any_payment wanted os ps

abbrev pub order_of_hold : ℕ → Order → Bool
order_of_hold h o = names h o.hold_id

abbrev pub order_of_ga : ℕ → Order → Bool
order_of_ga i o = names i o.ga_reservation_id

unfoldable pub has_captured_payment : Option ℕ → Option ℕ → Db → Bool
has_captured_payment (some h) ga db = any_payment (order_of_hold h) db.orders db.payments
has_captured_payment none (some i) db = any_payment (order_of_ga i) db.orders db.payments
has_captured_payment none none db = false

abbrev pub hold_due : (ℕ → Bool) → ℕ → Hold → Bool
hold_due locked_by_others now h =
    is_active h.status && (leb h.expires_at now && not (locked_by_others h.id))

abbrev pub hold_before : Hold → Hold → Bool
hold_before h x = leb h.id x.id

module _ (gate : SeatLockGate) (between : ℕ → ℕ → Db → Db) where
  open gate use {State}

  -- the loop of `expire_holds`: the count, the locks and the database after it
  unfoldable pub expire_each : ℕ → List Hold → State → Db → ℕ × State × Db
  expire_each i [] locks db = (0, locks, db)
  expire_each i (h ∷ hs) locks db =
      let (seats, db') = release_assigned (between i) h.id db in
      let kept = expire_each (i + 1) hs locks db in
      let empty = expire_each (i + 1) hs locks db' in
      let (n, locks', db'') =
        expire_each (i + 1) hs (release_all gate h.match_id seats h.id locks) db' in
      if has_captured_payment (some h.id) none db
      then kept
      else (if is_empty seats then empty else (n + 1, locks', db''))

  unfoldable pub expire_holds : (ℕ → Bool) → ℕ → ℕ → State → Db → ℕ × State × Db
  unfolding expire_each sort_by
  expire_holds locked_by_others now batch_size locks db =
      expire_each 0
        (take batch_size (sort_by hold_before (select (hold_due locked_by_others now) db.holds)))
        locks db

abbrev pub ga_due : (ℕ → Bool) → ℕ → GaReservation → Bool
ga_due locked_by_others now r =
    is_active r.status && (leb r.expires_at now && not (locked_by_others r.id))

abbrev pub reservation_before : GaReservation → GaReservation → Bool
reservation_before r x = leb r.id x.id

-- the loop of `expire_ga`
unfoldable pub expire_each_ga : (ℕ → Db → Db) → ℕ → List GaReservation → Db → ℕ × Db
expire_each_ga between i [] db = (0, db)
expire_each_ga between i (r ∷ rs) db =
    let (done, db') = release_ga (between i) r.id db in
    let kept = expire_each_ga between (i + 1) rs db in
    let (n, db'') = expire_each_ga between (i + 1) rs db' in
    if has_captured_payment none (some r.id) db then kept else (if done then n + 1 else n, db'')

unfoldable pub expire_ga : (ℕ → Db → Db) → (ℕ → Bool) → ℕ → ℕ → Db → ℕ × Db
unfolding expire_each_ga sort_by
expire_ga between locked_by_others now batch_size db =
    expire_each_ga between 0
      (take batch_size
        (sort_by reservation_before (select (ga_due locked_by_others now) db.ga_reservations)))
      db
