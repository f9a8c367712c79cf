-- ===== src/Api/Ga.antt =====
-- src/arena_onsale/inventory/ga_router.py: the routes of the general-admission reservations.
pub mod Answers
use arena_onsale.Prelude.{
  ℕ, String, Bool, true, false, not, ◌&&◌, Option, none, some, List, if◌then◌else◌, is_none,
}
use arena_onsale.Prelude.Text.{strip, is_empty_text}
use arena_onsale.Settings.{Settings}
use arena_onsale.Tables.{Db, GaReservation}
use arena_onsale.WaitingRoom.Store.{WaitingRoomStore}
use arena_onsale.Admission.{require_admission}
use arena_onsale.Inventory.GaService.{
  Surroundings, GaRequest, GaResult, ok, err, ga_quantity, hold_conflict, ga_not_found,
  ga_unavailable, bad_window, ga_integrity, Reserved, reserve, get,
}
use arena_onsale.Api.{
  Detail, text, quantity_not_allowed, Reply, replied, refused, crashed, created_or_replayed,
  admitted,
}
use arena_onsale.Api.Schemas.{CreateGaReservationRequest, ga_fits, header_or_empty}
use arena_onsale.Api.Holds.{hold_status_value}

pub record GaReservationResponse : Type 0 where
  pub id : ℕ
  pub match_id : ℕ
  pub quantity : ℕ
  pub status : String
  pub expires_at : ℕ

-- `_response`
unfoldable pub response : GaReservation → GaReservationResponse
response r = record {
  id = r.id;
  match_id = r.match_id;
  quantity = r.quantity;
  status = hold_status_value r.status;
  expires_at = r.expires_at;
}

-- the `try` of `create_ga_reservation` and what follows it
unfoldable pub answer_ga : GaResult → Reply GaReservationResponse
unfolding response
answer_ga (ok r created) = created_or_replayed created (response r)
answer_ga (err (ga_quantity quantity maximum)) = refused 400 (quantity_not_allowed maximum)
answer_ga (err ga_not_found) = refused 404 (text "ga pool not found")
answer_ga (err ga_unavailable) = refused 409 (text "tickets unavailable, please try another match")
answer_ga (err hold_conflict) = refused 409 (text "idempotency key already used by another session")
answer_ga (err bad_window) = crashed
answer_ga (err ga_integrity) = crashed

abbrev pub ga_request : ℕ → CreateGaReservationRequest → String → GaRequest
ga_request m b key = record {
  match_id = m;
  quantity = b.quantity;
  session_id = b.session_id;
  idempotency_key = key;
}

-- `create_ga_reservation`
unfoldable pub create_ga_reservation :
    Surroundings
    → Settings
    → ℕ
    → CreateGaReservationRequest
    → String
    → Db
    → Reply GaReservationResponse × Db
unfolding answer_ga
create_ga_reservation w cfg m b key db =
    if is_empty_text (strip key)
    then (refused 400 (text "Idempotency-Key is required"), db)
    else (let done = reserve w cfg (ga_request m b key) db in (answer_ga done.result, done.db))

-- POST /matches/{match_id}/ga-reservations
unfoldable pub post_ga_reservation :
    (rooms : WaitingRoomStore)
    → Surroundings
    → Settings
    → ℕ
    → Option String
    → ℕ
    → CreateGaReservationRequest
    → Option String
    → rooms.State
    → Db
    → Reply GaReservationResponse × rooms.State × Db
unfolding create_ga_reservation
post_ga_reservation rooms w cfg now token m b key room db =
    admitted (require_admission rooms now token room) (ga_fits b && not (is_none key)) db
      (create_ga_reservation w cfg m b (header_or_empty key) db)

-- `get_ga_reservation`
unfoldable pub get_ga_reservation : ℕ → Db → Reply GaReservationResponse
unfolding response
get_ga_reservation i db = elim (get i db) [
  | none ↦ refused 404 (text "reservation not found")
  | some r ↦ replied 200 (response r)
]
