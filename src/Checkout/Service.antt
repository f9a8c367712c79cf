-- ===== src/Checkout/Service.antt =====
-- src/arena_onsale/checkout/service.py: quote, order, charge, confirm or refund.
-- Each commit of the source ends a step on the database; a rollback forgets the uncommitted writes
-- and keeps what others have committed, which the environment of the request says.
pub mod Saga
pub mod Frames
pub mod Steps
pub mod Charging
pub mod Books
pub mod Declined
pub mod Stranded
pub mod Endings
pub mod Resumed
pub mod Turns
use arena_onsale.Prelude.{
  ℕ, ◌+◌, ◌*◌, String, Bool, true, false, ◌&&◌, Option, none, some, List, [], ◌∷◌, if◌then◌else◌,
  ltb, leb, ◌==◌, is_none,
}
use arena_onsale.Prelude.Query.{find?, update_where, count_where}
use arena_onsale.Prelude.Text.{str_eq}
use arena_onsale.Settings.{Settings}
use arena_onsale.Tables.{
  Db, Order, OrderStatus, payment_pending, confirmed, payment_failed, compensated, expired, Payment,
  PaymentStatus, pending, captured, failed, refunded, PspKey, pay, refund_of, PspRef, OutboxEvent,
  ticket, failure, HoldStatus, is_active,
}
use arena_onsale.Inventory.Holds.{hold_is, held_by}
use arena_onsale.Checkout.Finalizer.{reservation_is, confirm_assigned, confirm_ga}
use arena_onsale.Checkout.Psp.{ChargeResult, MockPsp, charge, refund}
use arena_onsale.Checkout.Orders.{
  World, CheckoutRequest, Environment, CheckoutError, CheckoutResult, order_is, order_has_key,
  payment_of, has_id, order_fits, new_order, new_payment, ensure_payment, save_payment, save_order,
  add_event, bumped, confirmed_event, failed_event, reservation_not_found, reservation_not_active,
  finalize_failed, order_integrity, missing_greenlet, payment_declined, ok, err,
}
use arena_onsale.Checkout.Quotes.{usable, Quote, quote_hold, quote_ga, quote, quoted, refused}

-- the refund of `_compensate`
unfoldable pub refund_payment : Payment → MockPsp → Payment × MockPsp
refund_payment p psp = elim p.status [
  | captured ↦ elim p.psp_ref [
    | some ref ↦ (record p { status = refunded }, (refund ref (refund_of p.idempotency_key) psp).1)
    | none ↦ (p, psp)
  ]
  | _ ↦ (p, psp)
]

-- `_compensate`, of rows that can be read
unfoldable pub compensate : Environment → Order → Payment → World → World
unfolding refund_payment
compensate env o p w =
    let (p', psp') = refund_payment p w.psp in
    record {
      db =
          add_event (failed_event env o) (save_order (bumped compensated o) (save_payment p' w.db));
      psp = psp';
    }

unfoldable pub confirm_reservation : Environment → Order → Db → Bool × Db
confirm_reservation env o db = elim o.hold_id [
  | some i ↦ confirm_assigned env.while_confirming i db
  | none ↦ elim o.ga_reservation_id [
    | some i ↦ confirm_ga (env.while_confirming 0) i db
    | none ↦ (false, db)
  ]
]

-- What `_finalize` does with the answer of the finalizer. Where the rollback has expired the rows,
-- `_compensate` raises at its first read, `payment.status`.
unfoldable pub settle_order :
    Environment → Order → Payment → World → Bool × Db → CheckoutResult × World
unfolding compensate
settle_order env o p w (true, db) = (
  ok (bumped confirmed o) true,
  record w { db = add_event (confirmed_event env o) (save_order (bumped confirmed o) db) },
)
settle_order env o p w (false, db) =
    let rolled = record w { db = env.while_rolling_back w.db } in
    if env.rows_expire
    then (err missing_greenlet, rolled)
    else (err finalize_failed, compensate env o p rolled)

-- `_finalize`
unfoldable pub finalize : Environment → Order → Payment → World → CheckoutResult × World
finalize env o p w = settle_order env o p w (confirm_reservation env o w.db)

-- the tail of `_resume`, after the payment is known
unfoldable pub finish : Environment → Order → Payment → World → CheckoutResult × World
finish env o p w = elim p.status [
  | refunded ↦ (ok o true, w)
  | _ ↦ elim o.status [ confirmed ↦ (ok o true, w) | _ ↦ finalize env o p w ]
]

abbrev pub declined_payment : Option String → Payment → Payment
declined_payment message p = record p { status = failed; failure_reason = message }

abbrev pub captured_payment : Option PspRef → Payment → Payment
captured_payment ref p = record p { status = captured; psp_ref = ref }

-- what `_resume` does with the answer of the provider
unfoldable pub after_charge :
    Environment → Order → Payment → ChargeResult → World → CheckoutResult × World
after_charge env o p c w =
    if c.accepted
    then finish env o (captured_payment c.psp_ref p)
        (record w { db = save_payment (captured_payment c.psp_ref p) w.db })
    else (
      err (payment_declined c.message),
      record w {
        db =
            save_order (record o { status = payment_failed })
              (save_payment (declined_payment c.message p) w.db);
      },
    )

unfoldable pub pay_order : Environment → Order → Payment → World → CheckoutResult × World
pay_order env o p w = elim p.status [
  | pending ↦
      let (c, psp') = charge p.idempotency_key w.psp in
      after_charge env o p c (record { db = env.while_paying w.db; psp = psp' })
  | _ ↦ finish env o p w
]

-- `_resume`
unfoldable pub resume : Environment → Order → World → CheckoutResult × World
resume env o w = let (p, db') = ensure_payment o w.db in pay_order env o p (record w { db = db' })

abbrev pub is_finished : OrderStatus → Bool
is_finished confirmed = true
is_finished payment_failed = true
is_finished compensated = true
is_finished payment_pending = false
is_finished expired = false

-- `return resumed, False`
unfoldable pub as_replay : CheckoutResult × World → CheckoutResult × World
as_replay (ok o created, w) = (ok o false, w)
as_replay (err e, w) = (err e, w)

-- a request whose key has an order
unfoldable pub replay : Environment → CheckoutRequest → Order → World → CheckoutResult × World
unfolding as_replay
replay env rq o w =
    if str_eq o.session_id rq.session_id
    then (if is_finished o.status then (ok o false, w) else as_replay (resume env o w))
    else (err reservation_not_active, w)

-- a request whose key is new
unfoldable pub place : Environment → Settings → CheckoutRequest → World → CheckoutResult × World
place env s rq w = elim (quote s env.quoted_at rq w.db) [
  | refused e ↦ (err e, w)
  | quoted match_id amount ↦
      let o = new_order env rq match_id amount in
      if order_fits o w.db.orders
      then resume env o (record w { db = record (w.db) { orders = o ∷ w.db.orders } })
      else (err order_integrity, w)
]

unfoldable pub order_by_key : String → Db → Option Order
order_by_key key db = find? (order_has_key key) db.orders

-- `(hold_id is None) == (ga_reservation_id is None)`
abbrev pub both_or_neither : Option ℕ → Option ℕ → Bool
both_or_neither none o = is_none o
both_or_neither (some i) o = if is_none o then false else true

-- `CheckoutService.checkout`
unfoldable pub checkout : Environment → Settings → CheckoutRequest → World → CheckoutResult × World
unfolding order_by_key
checkout env s rq w =
    if both_or_neither rq.hold_id rq.ga_reservation_id
    then (err reservation_not_found, w)
    else elim (order_by_key rq.idempotency_key w.db) [
      | some o ↦ replay env rq o w
      | none ↦ place env s rq w
    ]

-- `CheckoutService.get`
unfoldable pub get : ℕ → Db → Option Order
get i db = find? (order_is i) db.orders
