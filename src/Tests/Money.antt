-- ===== src/Tests/Money.antt =====
-- Checkout, expiry and the outbox at concrete inputs.
use arena_onsale.Prelude.{
  ℕ, ◌+◌, ◌-◌, ◌*◌, ◌≡◌, refl, List, Bool, true, false, none, some, [], ◌∷◌, arith, length,
}
use arena_onsale.Settings.{default_settings}
use arena_onsale.Tables.{Db, OutboxEvent, ticket, pay, confirmed, captured, psp}
use arena_onsale.Inventory.Locking.RedisGate.{redis_gate}
use arena_onsale.Inventory.Holds.{seats_for_hold}
use arena_onsale.Checkout.Finalizer.{confirm_assigned}
use arena_onsale.Checkout.Finalizer.Release.{Released}
use arena_onsale.Checkout.Psp.{MockPsp, charge}
use arena_onsale.Checkout.Orders.{
  err, order_integrity, order_fits, ensure_payment, World, CheckoutRequest, Environment, new_order,
  bumped, ok,
}
use arena_onsale.Checkout.Service.{
  order_by_key, checkout, place, resume, pay_order, after_charge, finish, finalize, settle_order,
  confirm_reservation,
}
use arena_onsale.Checkout.Quotes.{quote}
use arena_onsale.Checkout.Service.Saga.{IsSettled}
use arena_onsale.Checkout.Service.Frames.{LeavesBooks}
use arena_onsale.Tables.{Order, Payment}
use arena_onsale.Checkout.Service.Declined.{checkout-checkout_declined}
use arena_onsale.Checkout.Service.Books.{checkout-IsSettled}
use arena_onsale.Checkout.Expiry.{has_captured_payment, expire_holds}
use arena_onsale.Checkout.Expiry.Seats.{nobody_between, expire_holds-Released}
use arena_onsale.Checkout.Expiry.Paid.{Spared, expire_holds-Spared}
use arena_onsale.Checkout.Outbox.{publish_outbox}
use arena_onsale.Checkout.Outbox.Drain.{
  backlog, UniqueEvents, publish_outbox-backlog, passes, passes-backlog,
}
use arena_onsale.Tests.Data.{seat_db}

abbrev pub no_money : MockPsp
no_money = record {
  charges = [];
  refunds = [];
  capture_count = 0;
  refund_count = 0;
  fail_next_charges = 0;
}

abbrev pub world : World
world = record { db = seat_db; psp = no_money }

abbrev pub buy : CheckoutRequest
buy = record {
  session_id = "priya";
  idempotency_key = "co-1";
  hold_id = some 50;
  ga_reservation_id = none;
}

abbrev pub alone : Environment
alone = record {
  order_id = 80;
  event_id = 90;
  quoted_at = 5;
  created_at = 6;
  finished_at = 7;
  while_paying = λ db. db;
  while_confirming = λ i db. db;
  while_rolling_back = λ db. db;
  rows_expire = false;
}

-- the two seats of hold 50 are bought
buys :
    (checkout alone default_settings buy world).0
    ≡ ok (bumped confirmed (new_order alone buy 1 30_000)) true
unfolding checkout place quote order_fits new_order resume pay_order ensure_payment after_charge
    charge finish finalize settle_order confirm_reservation confirm_assigned seats_for_hold
buys = refl

books_left : LeavesBooks alone
books_left = record {
  paying = λ db. record { orders = refl; payments = refl };
  confirming = λ i db. record { orders = refl; payments = refl };
  rolling_back = λ db. record { orders = refl; payments = refl };
}

checkout-IsSettled_example : IsSettled 80 (checkout alone default_settings buy world).1
checkout-IsSettled_example =
    checkout-IsSettled 80 alone default_settings buy world books_left (λ i. omega arith) refl
      (λ j. refl)

expire_holds-Released_example :
    Released seat_db
      (expire_holds redis_gate nobody_between (λ i. false) 700_000_000 50 [] seat_db).2
expire_holds-Released_example =
    expire_holds-Released redis_gate (λ i. false) 700_000_000 50 [] seat_db
      (refl, (refl, (refl, tt)))

-- hold 50 is paid for, but its order is not yet confirmed
abbrev paid_db : Db
paid_db = record seat_db {
  orders = new_order alone buy 1 30_000 ∷ [];
  payments =
      record {
        order_id = 80;
        idempotency_key = pay 80;
        psp_ref = some (psp (pay 80));
        status = captured;
        amount_cents = 30_000;
        failure_reason = none;
      }
      ∷ [];
}

-- between the statements of the pass the pools are emptied
abbrev elsewhere : ℕ → ℕ → Db → Db
elsewhere i j db = record db { ga_inventory = [] }

leaves_paid : (i j : ℕ) (db : Db) → Spared 50 db (elsewhere i j db)
unfolding has_captured_payment
leaves_paid i j db = record { same_hold = refl; same_seats = refl; still_paid = λ p. p }

expire_holds-Spared_example :
    Spared 50 paid_db (expire_holds redis_gate elsewhere (λ i. false) 700_000_000 50 [] paid_db).2
unfolding new_order has_captured_payment
expire_holds-Spared_example =
    expire_holds-Spared redis_gate elsewhere (λ i. false) 700_000_000 50 50 [] paid_db leaves_paid
      refl

abbrev event : ℕ → OutboxEvent
event i = record {
  id = i;
  aggregate_id = 80;
  event_type = "TicketConfirmed";
  payload = ticket 80 1;
  created_at = 7;
  published_at = none;
}

abbrev three_events : List OutboxEvent
three_events = event 91 ∷ event 92 ∷ event 93 ∷ []

unique_events : UniqueEvents three_events
unique_events i = ground arith

abbrev sent : OutboxEvent → Bool
sent e = true

publish_outbox-backlog_example :
    let pass = publish_outbox sent (λ i. false) 8 2 three_events in
    (backlog pass.rows + length pass.delivered ≡ 3)
    × UniqueEvents pass.rows
    × ((n : ℕ) → pass.published ≡ some n → n ≡ length pass.delivered)
publish_outbox-backlog_example =
    publish_outbox-backlog sent (λ i. false) 8 2 three_events unique_events

passes-backlog_example : backlog (passes sent 8 2 2 three_events) ≡ 3 - 2 * 2
passes-backlog_example = passes-backlog sent 8 2 2 three_events (λ e. refl) unique_events

-- the provider declines the next charge
abbrev declining : World
declining = record { db = seat_db; psp = record no_money { fail_next_charges = 1 } }

abbrev buy_again : CheckoutRequest
buy_again = record buy { idempotency_key = "co-2" }

abbrev later_on : Environment
later_on = record alone {
  order_id = 81;
  event_id = 91;
  quoted_at = 8;
  created_at = 9;
  finished_at = 10;
}

checkout-checkout_declined_example :
    let w' = (checkout alone default_settings buy declining).1 in
    checkout later_on default_settings buy_again w' ≡ (err order_integrity, w')
unfolding checkout place quote order_fits new_order resume pay_order ensure_payment after_charge
    charge order_by_key
checkout-checkout_declined_example =
    checkout-checkout_declined 50 alone later_on default_settings buy buy_again declining
      (some "mock decline") 1 30_000 books_left refl refl refl refl refl refl refl refl

-- an AsyncSession
abbrev expiring : Environment
expiring = record later_on { rows_expire = true }

-- the card was charged for order 80, and hold 50 is gone
abbrev lost : World
lost = record { db = record paid_db { holds = [] }; psp = (charge (pay 80) no_money).1 }

abbrev paid_order : Order
paid_order = new_order alone buy 1 30_000

abbrev paid_row : Payment
paid_row = record {
  order_id = 80;
  idempotency_key = pay 80;
  psp_ref = some (psp (pay 80));
  status = captured;
  amount_cents = 30_000;
  failure_reason = none;
}
