-- ===== src/Api/Schemas.antt =====
-- What the schemas accept: inventory/schemas.py, inventory/ga_schemas.py, checkout/schemas.py and
-- waiting_room/schemas.py.
use arena_onsale.Prelude.{
  ℕ, String, Bool, not, ◌&&◌, Option, none, some, List, leb, is_empty, is_none,
}
use arena_onsale.Prelude.Text.{text_length}

-- `Field(min_length=1, max_length=128)`
unfoldable pub fits_field : String → Bool
unfolding text_length
fits_field s = leb 1 (text_length s) && leb (text_length s) 128

pub record CreateHoldRequest : Type 0 where
  pub session_id : String
  pub seat_ids : List ℕ

abbrev pub hold_fits : CreateHoldRequest → Bool
hold_fits b = fits_field b.session_id && not (is_empty b.seat_ids)

pub record CreateGaReservationRequest : Type 0 where
  pub session_id : String
  pub quantity : ℕ

abbrev pub ga_fits : CreateGaReservationRequest → Bool
ga_fits b = fits_field b.session_id && leb 1 b.quantity

pub record CheckoutBody : Type 0 where
  pub session_id : String
  pub hold_id : Option ℕ
  pub ga_reservation_id : Option ℕ

-- `exactly_one_reservation`, true where it does not raise
abbrev pub exactly_one : Option ℕ → Option ℕ → Bool
exactly_one none g = not (is_none g)
exactly_one (some h) g = is_none g

abbrev pub checkout_fits : CheckoutBody → Bool
checkout_fits b = fits_field b.session_id && exactly_one b.hold_id b.ga_reservation_id

-- a header that the handler declares without a default
abbrev pub header_or_empty : Option String → String
header_or_empty none = ""
header_or_empty (some h) = h
