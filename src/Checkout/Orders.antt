-- ===== src/Checkout/Orders.antt =====
-- src/arena_onsale/checkout/service.py: what a checkout works on, and the rows that it writes.
use arena_onsale.Prelude.{
  ℕ, ◌+◌, String, Bool, false, ◌&&◌, Option, none, some, List, ◌∷◌, leb, ◌==◌,
}
use arena_onsale.Prelude.Query.{find?, update_where, count_where}
use arena_onsale.Prelude.Text.{str_eq}
use arena_onsale.Tables.{
  Db, Order, OrderStatus, payment_pending, Payment, pending, pay, OutboxEvent, ticket, failure,
}
use arena_onsale.Checkout.Psp.{MockPsp}

pub record World : Type 0 where
  pub db : Db
  pub psp : MockPsp

pub record CheckoutRequest : Type 0 where
  pub session_id : String
  pub idempotency_key : String
  pub hold_id : Option ℕ
  pub ga_reservation_id : Option ℕ

-- What the outside decides: fresh ids, the clock, what other transactions commit while the card is
-- charged, between the statements of the confirmation, and until a rollback is done, and whether a
-- rollback expires the loaded rows, so that the next read of one raises. SQLAlchemy's AsyncSession expires
-- them, and raises MissingGreenlet at the read; the session of tests/test_checkout_saga.py does not.
pub record Environment : Type 0 where
  pub order_id : ℕ
  pub event_id : ℕ
  pub quoted_at : ℕ
  pub created_at : ℕ
  pub finished_at : ℕ
  pub while_paying : Db → Db
  pub while_confirming : ℕ → Db → Db
  pub while_rolling_back : Db → Db
  pub rows_expire : Bool

pub data CheckoutError : Type 0 where
  reservation_not_found reservation_not_active finalize_failed order_integrity missing_greenlet :
      CheckoutError
  payment_declined : Option String → CheckoutError

pub data CheckoutResult : Type 0 where
  ok : Order → Bool → CheckoutResult
  err : CheckoutError → CheckoutResult

abbrev pub order_is : ℕ → Order → Bool
order_is i o = o.id == i

abbrev pub order_has_key : String → Order → Bool
order_has_key key o = str_eq o.idempotency_key key

abbrev pub payment_of : ℕ → Payment → Bool
payment_of i p = p.order_id == i

abbrev pub has_id : Option ℕ → Option ℕ → Bool
has_id none o = false
has_id (some i) none = false
has_id (some i) (some j) = i == j

-- the unique indexes and the check on the amount, alembic/versions/0004_checkout.py
unfoldable pub order_fits : Order → List Order → Bool
order_fits o os =
    leb 1 o.amount_cents
    && ((count_where (order_has_key o.idempotency_key) os == 0)
        && ((count_where (λ (q : Order). has_id o.hold_id q.hold_id) os == 0)
            && (count_where (λ (q : Order). has_id o.ga_reservation_id q.ga_reservation_id) os
                == 0)))

unfoldable pub new_order : Environment → CheckoutRequest → ℕ → ℕ → Order
new_order env rq match_id amount = record {
  id = env.order_id;
  match_id = match_id;
  session_id = rq.session_id;
  idempotency_key = rq.idempotency_key;
  hold_id = rq.hold_id;
  ga_reservation_id = rq.ga_reservation_id;
  status = payment_pending;
  amount_cents = amount;
  version = 1;
  created_at = env.created_at;
}

abbrev pub new_payment : Order → Payment
new_payment o = record {
  order_id = o.id;
  idempotency_key = pay o.id;
  psp_ref = none;
  status = pending;
  amount_cents = o.amount_cents;
  failure_reason = none;
}

-- `_ensure_payment`
unfoldable pub ensure_payment : Order → Db → Payment × Db
ensure_payment o db = elim (find? (payment_of o.id) db.payments) [
  | some p ↦ (p, db)
  | none ↦ (new_payment o, record db { payments = new_payment o ∷ db.payments })
]

-- the writes that a flush sends for the loaded payment and order
abbrev pub save_payment : Payment → Db → Db
save_payment p db = record db {
  payments = update_where (payment_of p.order_id) (λ q. p) db.payments;
}

abbrev pub save_order : Order → Db → Db
save_order o db = record db { orders = update_where (order_is o.id) (λ q. o) db.orders }

abbrev pub add_event : OutboxEvent → Db → Db
add_event e db = record db { outbox = e ∷ db.outbox }

abbrev pub bumped : OrderStatus → Order → Order
bumped st o = record o { status = st; version = o.version + 1 }

abbrev pub confirmed_event : Environment → Order → OutboxEvent
confirmed_event env o = record {
  id = env.event_id;
  aggregate_id = o.id;
  event_type = "TicketConfirmed";
  payload = ticket o.id o.match_id;
  created_at = env.finished_at;
  published_at = none;
}

abbrev pub failed_event : Environment → Order → OutboxEvent
failed_event env o = record {
  id = env.event_id;
  aggregate_id = o.id;
  event_type = "FinalizeFailed";
  payload = failure o.id "optimistic_confirm_conflict";
  created_at = env.finished_at;
  published_at = none;
}
