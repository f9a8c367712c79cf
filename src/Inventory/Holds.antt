-- ===== src/Inventory/Holds.antt =====
-- src/arena_onsale/inventory/service.py: hold seats under their locks.
-- `between` is what other transactions commit between the idempotency check and the locked rows;
-- the rows that `FOR UPDATE` has locked then change no more until the commit.
pub mod Seats
pub mod Outcomes
pub mod Replay
use arena_onsale.Prelude.{
  ℕ, ◌+◌, String, Bool, true, false, not, ◌&&◌, Option, none, some, List, [], ◌∷◌, map,
  if◌then◌else◌, leb, ◌==◌, length, is_empty, contains,
}
use arena_onsale.Prelude.Query.{find?, select, update_where, count_where}
use arena_onsale.Prelude.Text.{str_eq}
use arena_onsale.Settings.{Settings, seconds}
use arena_onsale.Tables.{Db, Seat, Hold, SeatStatus, held, is_available, HoldStatus, active}
use arena_onsale.Inventory.Locking.{SeatLockGate, ordered_seat_ids, acquire_all, release_all}

pub record HoldRequest : Type 0 where
  pub match_id : ℕ
  pub seat_ids : List ℕ
  pub session_id : String
  pub idempotency_key : String

pub data HoldError : Type 0 where
  seat_unavailable : List ℕ → HoldError
  hold_conflict hold_integrity : HoldError

pub data HoldResult : Type 0 where
  ok : Hold → Bool → HoldResult
  err : HoldError → HoldResult

abbrev pub hold_is : ℕ → Hold → Bool
hold_is i h = h.id == i

abbrev pub seat_is : ℕ → Seat → Bool
seat_is i s = s.id == i

abbrev pub hold_has_key : String → Hold → Bool
hold_has_key key h = str_eq h.idempotency_key key

-- the seats of the request: `Seat.id.in_(seat_ids), Seat.match_id == match_id`
abbrev pub is_wanted : ℕ → List ℕ → Seat → Bool
is_wanted m seat_ids s = contains s.id seat_ids && (s.match_id == m)

abbrev pub insert_seat : Seat → List Seat → List Seat
insert_seat s [] = s ∷ []
insert_seat s (t ∷ ts) = if leb s.id t.id then s ∷ t ∷ ts else t ∷ insert_seat s ts

-- `order_by(Seat.id)`
unfoldable pub order_by_id : List Seat → List Seat
order_by_id [] = []
order_by_id (s ∷ ss) = insert_seat s (order_by_id ss)

abbrev pub seat_ids_of : List Seat → List ℕ
seat_ids_of = map (λ s. s.id)

abbrev pub is_taken : Seat → Bool
is_taken s = not (is_available s.status)

unfoldable pub new_hold : Settings → HoldRequest → ℕ → ℕ → Hold
new_hold s rq hold_id now = record {
  id = hold_id;
  match_id = rq.match_id;
  session_id = rq.session_id;
  idempotency_key = rq.idempotency_key;
  status = active;
  expires_at = now + seconds s.hold_ttl_seconds;
  created_at = now;
}

abbrev pub mark_held : Hold → Seat → Seat
mark_held h s = record s {
  status = held;
  hold_id = some h.id;
  held_until = some h.expires_at;
  version = s.version + 1;
}

-- the insert of the hold, the writes to the locked rows, and the commit
abbrev pub write_hold : ℕ → List ℕ → Hold → Db → Db
write_hold m seat_ids h db = record db {
  holds = h ∷ db.holds;
  seats = update_where (is_wanted m seat_ids) (mark_held h) db.seats;
}

-- `_persist_hold`
unfoldable pub persist_hold : List ℕ → Hold → Db → HoldResult × Db
unfolding order_by_id
persist_hold seat_ids h db =
    let seats = order_by_id (select (is_wanted h.match_id seat_ids) db.seats) in
    let taken = seat_ids_of (select is_taken seats) in
    if length seats == length seat_ids
    then (if is_empty taken
        then (if count_where (hold_has_key h.idempotency_key) db.holds == 0
            then (ok h true, write_hold h.match_id seat_ids h db)
            else (err hold_integrity, db))
        else (err (seat_unavailable taken), db))
    else (err (seat_unavailable seat_ids), db)

unfoldable pub existing_hold : String → Db → Option Hold
existing_hold key db = find? (hold_has_key key) db.holds

-- `HoldService.get`
unfoldable pub get : ℕ → Db → Option Hold
get i db = find? (hold_is i) db.holds

abbrev pub held_by : ℕ → Seat → Bool
held_by h s = elim s.hold_id [ none ↦ false | some i ↦ i == h ]

-- `seats_for_hold`, and the same query in the finalizer
unfoldable pub seats_for_hold : ℕ → Db → List Seat
unfolding order_by_id
seats_for_hold h db = order_by_id (select (held_by h) db.seats)

module _ (gate : SeatLockGate) where
  open gate use {State}

  -- `except Exception: release_all(...); raise`
  unfoldable pub settle : ℕ → List ℕ → ℕ → State → HoldResult × Db → HoldResult × State × Db
  settle m acquired token locks (ok h created, db) = (ok h created, locks, db)
  settle m acquired token locks (err e, db) = (err e, release_all gate m acquired token locks, db)

  -- with no lock the rows are not touched
  unfoldable pub proceed :
      ℕ → List ℕ → ℕ → List ℕ × State → Db → HoldResult × Db → HoldResult × State × Db
  unfolding settle
  proceed m ordered token (acquired, locks) db persisted =
      if is_empty acquired
      then (err (seat_unavailable ordered), locks, db)
      else settle m acquired token locks persisted

  -- the part of `reserve` that takes the locks
  unfoldable pub reserve_new :
      (Db → Db) → Settings → HoldRequest → ℕ → ℕ → State → Db → HoldResult × State × Db
  unfolding proceed new_hold persist_hold
  reserve_new between s rq hold_id now locks db =
      let ordered = ordered_seat_ids rq.seat_ids in
      proceed rq.match_id ordered hold_id
        (acquire_all gate rq.match_id ordered hold_id s.hold_ttl_seconds locks) db
        (persist_hold ordered (new_hold s rq hold_id now) (between db))

  -- `HoldService.reserve`
  unfoldable pub reserve :
      (Db → Db) → Settings → HoldRequest → ℕ → ℕ → State → Db → HoldResult × State × Db
  unfolding reserve_new existing_hold
  reserve between s rq hold_id now locks db =
      if is_empty rq.seat_ids
      then (err (seat_unavailable []), locks, db)
      else elim (existing_hold rq.idempotency_key db) [
        | some h ↦
            if str_eq h.session_id rq.session_id
            then (ok h false, locks, db)
            else (err hold_conflict, locks, db)
        | none ↦ reserve_new between s rq hold_id now locks db
      ]
