-- ===== src/Api/Checkout/Promises.antt =====
-- What the refusals of the checkout route promise about the money.
use arena_onsale.Prelude.{◌≡◌, Bool, true, false, some, ◌⊎◌, is_none}
use arena_onsale.Prelude.Query.{find?}
use arena_onsale.Prelude.Text.{str_eq}
use arena_onsale.Settings.{Settings}
use arena_onsale.Tables.{Order, compensated, pay, refund_of}
use arena_onsale.Checkout.Psp.{lookup}
use arena_onsale.Checkout.Orders.{World, order_is}
use arena_onsale.Checkout.Service.{is_finished}
use arena_onsale.Checkout.Service.Saga.{paid}
use arena_onsale.Api.{Detail, unprocessable, Reply, refused, crashed, is_refusal, status_code, text}
use arena_onsale.Api.Checkout.{booking_lost, CheckoutResponse}

abbrev pub not_confirmed : Reply CheckoutResponse
not_confirmed = refused 409 booking_lost

-- The order that the request is about is in the table and has not come to an end.
pub record LeftOpen (w : World) : Type 0 where
  pub order : Order
  pub in_table : find? (order_is order.id) w.db.orders ≡ some order
  pub is_open : is_finished order.status ≡ false

-- The request has crashed at a row that the rollback has expired.
abbrev pub Crashed : Bool → Reply CheckoutResponse × World → Type 0
Crashed expire (r, w') = (r ≡ crashed) × (expire ≡ true) × LeftOpen w'

-- A refusal has changed nothing, unless the card was declined or the booking was lost.
abbrev pub Harmless : Bool → World → Reply CheckoutResponse × World → Type 0
Harmless expire w (r, w') =
    is_refusal r ≡ true
    → (w' ≡ w) ⊎ ((status_code r ≡ 402) ⊎ ((r ≡ not_confirmed) ⊎ Crashed expire (r, w')))

-- The order was compensated: its charge is in the provider's books, and so is its refund.
pub record Refunded (w : World) : Type 0 where
  pub order : Order
  pub in_table : find? (order_is order.id) w.db.orders ≡ some order
  pub is_compensated : order.status ≡ compensated
  pub charged : paid (lookup (pay order.id) w.psp.charges) ≡ true
  pub refunded : is_none (lookup (refund_of (pay order.id)) w.psp.refunds) ≡ false

abbrev says_not_active : Detail → Bool
says_not_active (text t) = str_eq t "reservation is not active"
says_not_active _ = false

abbrev detail_of : Reply CheckoutResponse → Detail
detail_of (refused n d) = d
detail_of _ = unprocessable
