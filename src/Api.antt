-- ===== src/Api.antt =====
-- The HTTP layer: the answers of the routers of src/arena_onsale, the admission check in front of
-- them (`dependencies=[Depends(require_admission)]`), and the check of the request by its schema.
pub mod Schemas
pub mod Refusals
pub mod Holds
pub mod Ga
pub mod Checkout
pub mod WaitingRoom
pub mod Catalog
use arena_onsale.Prelude.{
  ℕ, String, Bool, true, false, Option, none, some, List, if◌then◌else◌, leb,
}
use arena_onsale.Admission.{Admission, visitor, token_required, token_rejected}

-- the `detail` of an `HTTPException`
pub data Detail : Type 0 where
  text : String → Detail
  seat_taken : List ℕ → Detail
  quantity_not_allowed : ℕ → Detail
  -- the list of what the schema rejects
  unprocessable : Detail

-- A body with its status, an `HTTPException`, or an exception that no handler catches.
pub data Reply (A : Type 0) : Type 0 where
  replied : ℕ → A → Reply A
  refused : ℕ → Detail → Reply A
  crashed : Reply A

module _ {A : Type 0} where
  abbrev pub status_code : Reply A → ℕ
  status_code (replied n a) = n
  status_code (refused n d) = n
  status_code crashed = 500

  abbrev pub is_refusal : Reply A → Bool
  is_refusal r = leb 400 (status_code r)

  -- `response.status_code = 200` unless the row is new
  abbrev pub created_or_replayed : Bool → A → Reply A
  created_or_replayed true a = replied 201 a
  created_or_replayed false a = replied 200 a

module _ {A Room S : Type 0} where
  -- A route behind `require_admission`, whose request its schema has found to fit or not.
  unfoldable pub admitted : Admission × Room → Bool → S → Reply A × S → Reply A × Room × S
  admitted (visitor v, room) true s (r, s') = (r, room, s')
  admitted (visitor v, room) false s handled = (refused 422 unprocessable, room, s)
  admitted (token_required, room) fits s handled =
      (refused 401 (text "Admission-Token is required"), room, s)
  admitted (token_rejected, room) fits s handled =
      (refused 403 (text "admission token is invalid or expired"), room, s)
