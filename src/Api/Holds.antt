-- ===== src/Api/Holds.antt =====
-- src/arena_onsale/inventory/router.py: the routes of the holds.
pub mod Rows
pub mod Answers
pub mod Again
use arena_onsale.Prelude.{
  ℕ, String, Bool, true, false, not, ◌&&◌, Option, none, some, List, map, if◌then◌else◌, is_none,
}
use arena_onsale.Prelude.Text.{strip, is_empty_text}
use arena_onsale.Settings.{Settings}
use arena_onsale.Tables.{Db, Seat, Hold, HoldStatus, active, confirmed, expired, released}
use arena_onsale.WaitingRoom.Store.{WaitingRoomStore}
use arena_onsale.Admission.{require_admission}
use arena_onsale.Inventory.Locking.{SeatLockGate}
use arena_onsale.Inventory.Holds.{
  HoldRequest, HoldResult, ok, err, seat_unavailable, hold_conflict, hold_integrity, reserve, get,
  seats_for_hold,
}
use arena_onsale.Api.{
  Detail, text, seat_taken, Reply, replied, refused, crashed, created_or_replayed, admitted,
}
use arena_onsale.Api.Schemas.{CreateHoldRequest, hold_fits, header_or_empty}

pub record HeldSeat : Type 0 where
  pub id : ℕ
  pub section : String
  pub row : String
  pub number : String

pub record HoldResponse : Type 0 where
  pub id : ℕ
  pub match_id : ℕ
  pub status : String
  pub expires_at : ℕ
  pub seats : List HeldSeat

-- `HoldStatus.value`
abbrev pub hold_status_value : HoldStatus → String
hold_status_value active = "ACTIVE"
hold_status_value confirmed = "CONFIRMED"
hold_status_value expired = "EXPIRED"
hold_status_value released = "RELEASED"

abbrev pub held_seat : Seat → HeldSeat
held_seat s = record { id = s.id; section = s.section; row = s.row; number = s.number }

-- `_held_seats`
unfoldable pub held_seats : ℕ → Db → List HeldSeat
unfolding seats_for_hold
held_seats h db = map held_seat (seats_for_hold h db)

-- `_response`
unfoldable pub response : Hold → List HeldSeat → HoldResponse
response h seats = record {
  id = h.id;
  match_id = h.match_id;
  status = hold_status_value h.status;
  expires_at = h.expires_at;
  seats = seats;
}

unfoldable pub show_hold : Hold → Db → HoldResponse
unfolding held_seats response
show_hold h db = response h (held_seats h.id db)

-- the `try` of `create_hold` and what follows it, on the rows that `reserve` leaves
unfoldable pub answer_hold : HoldResult → Db → Reply HoldResponse
unfolding show_hold
answer_hold (ok h created) db = created_or_replayed created (show_hold h db)
answer_hold (err (seat_unavailable ids)) db = refused 409 (seat_taken ids)
answer_hold (err hold_conflict) db =
    refused 409 (text "idempotency key already used by another session")
answer_hold (err hold_integrity) db = crashed

abbrev pub hold_request : ℕ → CreateHoldRequest → String → HoldRequest
hold_request m b key = record {
  match_id = m;
  seat_ids = b.seat_ids;
  session_id = b.session_id;
  idempotency_key = key;
}

-- `get_hold`
unfoldable pub get_hold : ℕ → Db → Reply HoldResponse
unfolding show_hold
get_hold i db = elim (get i db) [
  | none ↦ refused 404 (text "hold not found")
  | some h ↦ replied 200 (show_hold h db)
]

module _ (gate : SeatLockGate) where
  open gate use {State}

  -- `create_hold`
  unfoldable pub create_hold :
      (Db → Db)
      → Settings
      → ℕ
      → CreateHoldRequest
      → String
      → ℕ
      → ℕ
      → State
      → Db
      → Reply HoldResponse × (State × Db)
  unfolding answer_hold
  create_hold between cfg m b key hold_id now locks db =
      if is_empty_text (strip key)
      then (refused 400 (text "Idempotency-Key is required"), (locks, db))
      else (let (r, locks', db') =
            reserve gate between cfg (hold_request m b key) hold_id now locks db in
          (answer_hold r db', (locks', db')))

  -- POST /matches/{match_id}/holds; the first header is Admission-Token, the second Idempotency-Key
  unfoldable pub post_hold :
      (rooms : WaitingRoomStore)
      → (Db → Db)
      → Settings
      → Option String
      → ℕ
      → CreateHoldRequest
      → Option String
      → ℕ
      → ℕ
      → rooms.State
      → State
      → Db
      → Reply HoldResponse × rooms.State × (State × Db)
  unfolding create_hold
  post_hold rooms between cfg token m b key hold_id now room locks db =
      admitted {A = HoldResponse} {Room = rooms.State} {S = State × Db}
        (require_admission rooms now token room) (hold_fits b && not (is_none key)) (locks, db)
        (create_hold between cfg m b (header_or_empty key) hold_id now locks db)
