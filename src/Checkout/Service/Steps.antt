-- ===== src/Checkout/Service/Steps.antt =====
-- The books across each step of the saga.
use arena_onsale.Prelude.{
  ℕ, ◌≡◌, Bool, true, false, none, some, if◌then◌else◌, ◌==◌, arith, inl, inr, Option-cases,
  Bool-cases, is_none,
}
use arena_onsale.Prelude.Query.{find?}
use arena_onsale.Tables.{Db, Order, confirmed, compensated, Payment, refunded, pay, refund_of}
use arena_onsale.Checkout.Psp.{MockPsp, lookup}
use arena_onsale.Checkout.Psp.Laws.{key_eq_refl, refund_lem}
use arena_onsale.Checkout.Orders.{World, Environment, order_is, payment_of, bumped}
use arena_onsale.Checkout.Service.{
  compensate, refund_payment, settle_order, finalize, finish, confirm_reservation,
}
use arena_onsale.Checkout.Service.Saga.{
  IsSettled, is_captured, paid, find?-save_order, find?-save_payment,
}
use arena_onsale.Checkout.Service.Frames.{SameBooks, LeavesBooks, confirm_reservation-SameBooks}

-- An order and its payment as they were loaded.
pub record Loaded (o : Order) (p : Payment) (w : World) : Type 0 where
  pub order_row : find? (order_is o.id) w.db.orders ≡ some o
  pub payment_row : find? (payment_of o.id) w.db.payments ≡ some p
  pub key : p.idempotency_key ≡ pay o.id
  pub of_order : p.order_id ≡ o.id

-- The card has been charged and nothing refunded.
pub record Charged (o : Order) (p : Payment) (w : World) : Type 0 where
  pub loaded : Loaded o p w
  pub is_paid : paid (lookup (pay o.id) w.psp.charges) ≡ true
  pub captured_row : is_captured p ≡ true
  pub not_refunded : lookup (refund_of (pay o.id)) w.psp.refunds ≡ none

refund_payment_lem :
    (i : ℕ) (o : Order) (p : Payment) (psp : MockPsp)
    → p.idempotency_key ≡ pay o.id
    → is_captured p ≡ true
    → ((refund_payment p psp).0 ≡ record p { status = refunded })
      × ((refund_payment p psp).1.charges ≡ psp.charges)
      × (is_none (lookup (refund_of (pay i)) (refund_payment p psp).1.refunds)
          ≡ (if o.id == i then false else is_none (lookup (refund_of (pay i)) psp.refunds)))
unfolding refund_payment
refund_payment_lem i o p psp k c = elim (Option-cases p.psp_ref) [
  | inl e ↦ ground arith
  | inr (ref, e) ↦
      ground (arith, refund_lem ref (refund_of p.idempotency_key) (refund_of (pay i)) psp)
]

compensate-IsSettled :
    (i : ℕ) (env : Environment) (o : Order) (p : Payment) (w : World)
    → Charged o p w
    → IsSettled i w
    → IsSettled i (compensate env o p w)
unfolding compensate
compensate-IsSettled i env o p w c s = ground (
  arith,
  key_eq_refl (pay o.id),
  refund_payment_lem i o p w.psp,
  find?-save_order i (bumped compensated o) w.db.orders,
  find?-save_payment i (record p { status = refunded }) w.db.payments,
)

pub SameBooks-IsSettled :
    (i : ℕ) (db db' : Db) (psp : MockPsp)
    → SameBooks db db'
    → IsSettled i (record { db = db; psp = psp })
    → IsSettled i (record { db = db'; psp = psp })
SameBooks-IsSettled i db db' psp b s = rw (b.orders, b.payments) s

pub SameBooks-Charged :
    (o : Order) (p : Payment) (db db' : Db) (psp : MockPsp)
    → SameBooks db db'
    → Charged o p (record { db = db; psp = psp })
    → Charged o p (record { db = db'; psp = psp })
SameBooks-Charged o p db db' psp b c = record {
  loaded = record {
    order_row = rw b.orders c.loaded.order_row;
    payment_row = rw b.payments c.loaded.payment_row;
    key = c.loaded.key;
    of_order = c.loaded.of_order;
  };
  is_paid = c.is_paid;
  captured_row = c.captured_row;
  not_refunded = c.not_refunded;
}

settle_order-IsSettled :
    (i : ℕ) (env : Environment) (o : Order) (p : Payment) (w : World) (r : Bool × Db)
    → LeavesBooks env
    → SameBooks w.db r.1
    → Charged o p w
    → IsSettled i w
    → IsSettled i (settle_order env o p w r).1
unfolding settle_order
settle_order-IsSettled i env o p w (true, db) l b c s =
    ground (arith, b.orders, b.payments, find?-save_order i (bumped confirmed o) w.db.orders)
settle_order-IsSettled i env o p w (false, db) l b c s =
    let rolled : World = record w { db = env.while_rolling_back w.db } in
    let settled : IsSettled i rolled =
      SameBooks-IsSettled i w.db rolled.db w.psp (l.rolling_back w.db) s in
    elim (Bool-cases env.rows_expire) [
      | inl expired ↦ rw expired settled
      | inr kept ↦ rw kept (
          compensate-IsSettled i env o p rolled
            (SameBooks-Charged o p w.db rolled.db w.psp (l.rolling_back w.db) c) settled)
    ]

pub finish-IsSettled :
    (i : ℕ) (env : Environment) (o : Order) (p : Payment) (w : World)
    → LeavesBooks env
    → Charged o p w
    → IsSettled i w
    → IsSettled i (finish env o p w).1
unfolding finish finalize
finish-IsSettled i env o p w l c s = ground (
  arith,
  settle_order-IsSettled i env o p w (confirm_reservation env o w.db) l
      (confirm_reservation-SameBooks env o w.db l) c s,
)
