-- ===== src/Api/Checkout.antt =====
-- src/arena_onsale/checkout/router.py: the routes of the checkout.
pub mod Answers
pub mod Promises
use arena_onsale.Prelude.{
  ℕ, String, Bool, true, false, not, ◌&&◌, Option, none, some, List, if◌then◌else◌, is_none,
}
use arena_onsale.Prelude.Text.{strip, is_empty_text}
use arena_onsale.Settings.{Settings}
use arena_onsale.Tables.{
  Db, Order, OrderStatus, payment_pending, confirmed, payment_failed, compensated, expired,
}
use arena_onsale.WaitingRoom.Store.{WaitingRoomStore}
use arena_onsale.Admission.{require_admission}
use arena_onsale.Checkout.Orders.{
  World, CheckoutRequest, Environment, CheckoutResult, ok, err, reservation_not_found,
  reservation_not_active, finalize_failed, order_integrity, missing_greenlet, payment_declined,
}
use arena_onsale.Checkout.Service.{checkout, get}
use arena_onsale.Api.{Detail, text, Reply, replied, refused, crashed, created_or_replayed, admitted}
use arena_onsale.Api.Schemas.{CheckoutBody, checkout_fits, header_or_empty}

pub record CheckoutResponse : Type 0 where
  pub id : ℕ
  pub status : String
  pub amount_cents : ℕ
  pub currency : String
  pub created_at : ℕ

-- `OrderStatus.value`
abbrev pub order_status_value : OrderStatus → String
order_status_value payment_pending = "PAYMENT_PENDING"
order_status_value confirmed = "CONFIRMED"
order_status_value payment_failed = "PAYMENT_FAILED"
order_status_value compensated = "COMPENSATED"
order_status_value expired = "EXPIRED"

-- `_response`; every order has the default currency of the table
unfoldable pub response : Order → CheckoutResponse
response o = record {
  id = o.id;
  status = order_status_value o.status;
  amount_cents = o.amount_cents;
  currency = "INR";
  created_at = o.created_at;
}

-- `charge.message or "payment failed"`
abbrev pub declined_text : Option String → String
declined_text none = "payment failed"
declined_text (some message) = if is_empty_text message then "payment failed" else message

unfoldable pub not_active : Detail
not_active = text "reservation is not active"

unfoldable pub booking_lost : Detail
booking_lost = text "booking could not be confirmed; payment was refunded"

-- the `try` of `create_checkout` and what follows it
unfoldable pub answer_checkout : CheckoutResult → Reply CheckoutResponse
unfolding response
answer_checkout (ok o created) = created_or_replayed created (response o)
answer_checkout (err reservation_not_found) = refused 404 (text "reservation not found")
answer_checkout (err reservation_not_active) = refused 409 not_active
answer_checkout (err (payment_declined message)) = refused 402 (text (declined_text message))
answer_checkout (err finalize_failed) = refused 409 booking_lost
answer_checkout (err order_integrity) = crashed
answer_checkout (err missing_greenlet) = crashed

abbrev pub checkout_request : CheckoutBody → String → CheckoutRequest
checkout_request b key = record {
  session_id = b.session_id;
  idempotency_key = key;
  hold_id = b.hold_id;
  ga_reservation_id = b.ga_reservation_id;
}

-- `create_checkout`
unfoldable pub create_checkout :
    Environment → Settings → CheckoutBody → String → World → Reply CheckoutResponse × World
unfolding answer_checkout
create_checkout env cfg b key w =
    if is_empty_text (strip key)
    then (refused 400 (text "Idempotency-Key is required"), w)
    else (let (r, w') = checkout env cfg (checkout_request b key) w in (answer_checkout r, w'))

-- POST /checkout
unfoldable pub post_checkout :
    (rooms : WaitingRoomStore)
    → Environment
    → Settings
    → ℕ
    → Option String
    → CheckoutBody
    → Option String
    → rooms.State
    → World
    → Reply CheckoutResponse × rooms.State × World
unfolding create_checkout
post_checkout rooms env cfg now token b key room w =
    admitted (require_admission rooms now token room) (checkout_fits b && not (is_none key)) w
      (create_checkout env cfg b (header_or_empty key) w)

-- `get_order`
unfoldable pub get_order : ℕ → Db → Reply CheckoutResponse
unfolding response
get_order i db = elim (get i db) [
  | none ↦ refused 404 (text "order not found")
  | some o ↦ replied 200 (response o)
]
