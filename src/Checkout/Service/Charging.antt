-- ===== src/Checkout/Service/Charging.antt =====
-- The books across the charge of an order.
use arena_onsale.Prelude.{ℕ, ◌≡◌, true, false, none, some, arith, inl, inr, Bool-cases}
use arena_onsale.Tables.{
  Db, Order, payment_pending, payment_failed, Payment, PspKey, pay, refund_of,
}
use arena_onsale.Checkout.Psp.{ChargeResult, MockPsp, lookup, charge}
use arena_onsale.Checkout.Psp.Laws.{key_eq_refl, charge_lem}
use arena_onsale.Checkout.Orders.{World, Environment, save_payment}
use arena_onsale.Checkout.Service.{after_charge, pay_order, declined_payment, captured_payment}
use arena_onsale.Checkout.Service.Saga.{
  IsSettled, is_captured, paid, find?-save_order, find?-save_payment, is_unpaid, has_ref,
}
use arena_onsale.Checkout.Service.Frames.{SameBooks, LeavesBooks}
use arena_onsale.Checkout.Service.Steps.{Loaded, Charged, SameBooks-IsSettled, finish-IsSettled}

-- what the provider has answered, on an order that is still pending
record Answered (o : Order) (p : Payment) (c : ChargeResult) (w : World) : Type 0 where
  loaded : Loaded o p w
  is_pending : o.status ≡ payment_pending
  stored : lookup (pay o.id) w.psp.charges ≡ some c
  good_ref : has_ref (some c) ≡ true
  not_refunded : lookup (refund_of (pay o.id)) w.psp.refunds ≡ none

captured-Charged :
    (o : Order) (p : Payment) (c : ChargeResult) (w : World)
    → c.accepted ≡ true
    → Answered o p c w
    → Charged o
        (captured_payment c.psp_ref p)
        (record w { db = save_payment (captured_payment c.psp_ref p) w.db })
captured-Charged o p c w a v = record {
  loaded = record {
    order_row = v.loaded.order_row;
    payment_row = ground (
      arith,
      v.loaded.payment_row,
      v.loaded.of_order,
      find?-save_payment o.id (captured_payment c.psp_ref p) w.db.payments,
    );
    key = v.loaded.key;
    of_order = v.loaded.of_order;
  };
  is_paid = ground (arith, v.stored);
  captured_row = ground (arith, v.good_ref);
  not_refunded = v.not_refunded;
}

captured-IsSettled :
    (i : ℕ) (o : Order) (p : Payment) (c : ChargeResult) (w : World)
    → c.accepted ≡ true
    → Answered o p c w
    → IsSettled i w
    → IsSettled i (record w { db = save_payment (captured_payment c.psp_ref p) w.db })
captured-IsSettled i o p c w a v s = ground (
  arith,
  v.loaded.payment_row,
  v.loaded.order_row,
  v.loaded.of_order,
  v.is_pending,
  v.stored,
  v.good_ref,
  find?-save_payment i (captured_payment c.psp_ref p) w.db.payments,
)

after_charge-IsSettled :
    (i : ℕ) (env : Environment) (o : Order) (p : Payment) (c : ChargeResult) (w : World)
    → LeavesBooks env
    → Answered o p c w
    → IsSettled i w
    → IsSettled i (after_charge env o p c w).1
unfolding after_charge
after_charge-IsSettled i env o p c w l v s = elim (Bool-cases c.accepted) [
  | inl a ↦ ground (
    arith,
    finish-IsSettled i env o (captured_payment c.psp_ref p)
        (record w { db = save_payment (captured_payment c.psp_ref p) w.db }) l
        (captured-Charged o p c w a v) (captured-IsSettled i o p c w a v s),
  )
  | inr d ↦ ground (
    arith,
    v.loaded.payment_row,
    v.loaded.order_row,
    v.loaded.of_order,
    v.loaded.key,
    v.is_pending,
    v.stored,
    v.not_refunded,
    find?-save_payment i (declined_payment c.message p) w.db.payments,
    find?-save_order i (record o { status = payment_failed }) w.db.orders,
    key_eq_refl (pay o.id),
  )
]

has_ref-charge :
    (k : PspKey) (p : MockPsp)
    → has_ref (lookup k p.charges) ≡ true
    → has_ref (some (charge k p).0) ≡ true
unfolding charge
has_ref-charge k p h = ground arith

-- Charging the key of a pending order leaves every order settled.
charge-IsSettled :
    (i : ℕ) (o : Order) (p : Payment) (db : Db) (psp : MockPsp)
    → Loaded o p (record { db = db; psp = psp })
    → is_unpaid p ≡ true
    → o.status ≡ payment_pending
    → has_ref (lookup (pay o.id) psp.charges) ≡ true
    → IsSettled i (record { db = db; psp = psp })
    → IsSettled i (record { db = db; psp = (charge (pay o.id) psp).1 })
charge-IsSettled i o p db psp l u e h s = ground (
  arith,
  l.order_row,
  l.payment_row,
  l.key,
  l.of_order,
  charge_lem (pay o.id) (pay i) psp,
  has_ref-charge (pay o.id) psp,
)

SameBooks-Loaded :
    (o : Order) (p : Payment) (db db' : Db) (psp psp' : MockPsp)
    → SameBooks db db'
    → Loaded o p (record { db = db; psp = psp })
    → Loaded o p (record { db = db'; psp = psp' })
SameBooks-Loaded o p db db' psp psp' b l = record {
  order_row = rw b.orders l.order_row;
  payment_row = rw b.payments l.payment_row;
  key = l.key;
  of_order = l.of_order;
}

-- what the books say of a pending order
settled_pending :
    (o : Order) (p : Payment) (w : World)
    → Loaded o p w
    → o.status ≡ payment_pending
    → IsSettled o.id w
    → (has_ref (lookup (pay o.id) w.psp.charges) ≡ true)
      × (lookup (refund_of (pay o.id)) w.psp.refunds ≡ none)
      × ((is_unpaid p ≡ false)
          → (is_captured p ≡ true) × (paid (lookup (pay o.id) w.psp.charges) ≡ true))
settled_pending o p w l e s = (
  ground (arith, l.order_row, l.payment_row),
  ground (arith, l.order_row, l.payment_row),
  λ n. ground (arith, l.order_row, l.payment_row),
)

charged_anew :
    (o : Order) (p : Payment) (db db' : Db) (psp : MockPsp)
    → SameBooks db db'
    → Loaded o p (record { db = db; psp = psp })
    → o.status ≡ payment_pending
    → IsSettled o.id (record { db = db; psp = psp })
    → Answered o p (charge (pay o.id) psp).0 (record { db = db'; psp = (charge (pay o.id) psp).1 })
charged_anew o p db db' psp b l e s =
    let v = settled_pending o p (record { db = db; psp = psp }) l e s in
    let c = charge_lem (pay o.id) (pay o.id) psp in
    record {
      loaded = SameBooks-Loaded o p db db' psp (charge (pay o.id) psp).1 b l;
      is_pending = e;
      stored = c.0;
      good_ref = has_ref-charge (pay o.id) psp v.0;
      not_refunded = rw c.2 v.1;
    }

pub pay_order-IsSettled :
    (i : ℕ) (env : Environment) (o : Order) (p : Payment) (w : World)
    → LeavesBooks env
    → Loaded o p w
    → o.status ≡ payment_pending
    → IsSettled o.id w
    → IsSettled i w
    → IsSettled i (pay_order env o p w).1
unfolding pay_order
pay_order-IsSettled i env o p w l v e so s = elim (Bool-cases (is_unpaid p)) [
  | inl u ↦
      let b = l.paying w.db in
      let c = charge (pay o.id) w.psp in
      let db' = env.while_paying w.db in
      let w' : World = record { db = db'; psp = c.1 } in
      let h = settled_pending o p w v e so in
      ground (
        arith,
        v.key,
        after_charge-IsSettled i env o p c.0 w' l (charged_anew o p w.db db' w.psp b v e so) (
            charge-IsSettled i o p db' w.psp (SameBooks-Loaded o p w.db db' w.psp w.psp b v) u e h.0
              (SameBooks-IsSettled i w.db db' w.psp b s)),
      )
  | inr n ↦
      let h = settled_pending o p w v e so in
      ground (
        arith,
        (h.2 n).0,
        finish-IsSettled i env o p w l
            (record {
              loaded = v;
              is_paid = (h.2 n).1;
              captured_row = (h.2 n).0;
              not_refunded = h.1;
            })
            s,
      )
]
