-- ===== src/Checkout/Service/Resumed.antt =====
-- What a resumed order can end in, and its row then.
use arena_onsale.Prelude.{
  ◌≡◌, refl, Bool, true, false, Option, some, List, arith, inl, inr, Bool-cases, String, ◌⊎◌,
}
use arena_onsale.Prelude.Query.{find?}
use arena_onsale.Tables.{Db, Order, compensated, Payment}
use arena_onsale.Checkout.Psp.{ChargeResult, charge}
use arena_onsale.Checkout.Orders.{
  World, Environment, CheckoutResult, ok, err, finalize_failed, missing_greenlet, payment_declined,
  ensure_payment, save_payment, order_is, bumped,
}
use arena_onsale.Checkout.Service.{
  resume, pay_order, after_charge, finish, finalize, settle_order, compensate, confirm_reservation,
  captured_payment,
}
use arena_onsale.Checkout.Service.Frames.{LeavesBooks}
use arena_onsale.Checkout.Service.Saga.{find?-save_order}

-- The answer to a resumed order `o`; after a failed confirmation its row is the
-- compensated one, or untouched where the rollback has expired the rows.
pub data Resumes (expire : Bool) (o : Order) : CheckoutResult → List Order → Type 0 where
  done : (q : Order) (b : Bool) (os : List Order) → Resumes expire o (ok q b) os
  given_back :
      (os : List Order)
      → find? (order_is o.id) os ≡ some (bumped compensated o)
      → expire ≡ false
      → Resumes expire o (err finalize_failed) os
  stuck :
      (os : List Order)
      → find? (order_is o.id) os ≡ some o
      → expire ≡ true
      → Resumes expire o (err missing_greenlet) os
  turned_down :
      (m : Option String) (os : List Order) → Resumes expire o (err (payment_declined m)) os

settle_order-Resumes :
    (env : Environment) (o : Order) (p : Payment) (w : World) (r : Bool × Db)
    → LeavesBooks env
    → find? (order_is o.id) w.db.orders ≡ some o
    → Resumes env.rows_expire o (settle_order env o p w r).0 (settle_order env o p w r).1.db.orders
unfolding settle_order compensate
settle_order-Resumes env o p w (true, db) l e = done _ _ _
settle_order-Resumes env o p w (false, db) l e = elim (Bool-cases env.rows_expire) [
  | inl expired ↦ rw expired (stuck _ (rw ((l.rolling_back w.db).orders) e) refl)
  | inr kept ↦ rw kept (
      given_back _
        (rw ((l.rolling_back w.db).orders)
          (ground (arith, find?-save_order o.id (bumped compensated o) w.db.orders, e)))
        refl)
]

finalize-Resumes :
    (env : Environment) (o : Order) (p : Payment) (w : World)
    → LeavesBooks env
    → find? (order_is o.id) w.db.orders ≡ some o
    → Resumes env.rows_expire o (finalize env o p w).0 (finalize env o p w).1.db.orders
unfolding finalize
finalize-Resumes env o p w l e = settle_order-Resumes env o p w (confirm_reservation env o w.db) l e

finish-cases :
    (env : Environment) (o : Order) (p : Payment) (w : World)
    → (finish env o p w ≡ (ok o true, w)) ⊎ (finish env o p w ≡ finalize env o p w)
unfolding finish
finish-cases env o p w = ground arith

finish-Resumes :
    (env : Environment) (o : Order) (p : Payment) (w : World)
    → LeavesBooks env
    → find? (order_is o.id) w.db.orders ≡ some o
    → Resumes env.rows_expire o (finish env o p w).0 (finish env o p w).1.db.orders
finish-Resumes env o p w l e = elim (finish-cases env o p w) [
  | inl replayed ↦ rw replayed (done _ _ _)
  | inr final ↦ rw final (finalize-Resumes env o p w l e)
]

after_charge-Resumes :
    (env : Environment) (o : Order) (p : Payment) (c : ChargeResult) (w : World)
    → LeavesBooks env
    → find? (order_is o.id) w.db.orders ≡ some o
    → Resumes env.rows_expire o (after_charge env o p c w).0 (after_charge env o p c w).1.db.orders
unfolding after_charge
after_charge-Resumes env o p c w l e = elim (Bool-cases c.accepted) [
  | inl accepted ↦
      let p' = captured_payment c.psp_ref p in
      rw accepted (finish-Resumes env o p' (record w { db = save_payment p' w.db }) l e)
  | inr declined ↦ rw declined (turned_down c.message _)
]

pay_order-cases :
    (env : Environment) (o : Order) (p : Payment) (w : World)
    → let (c, psp') = charge p.idempotency_key w.psp in
      (pay_order env o p w ≡ finish env o p w)
      ⊎ (pay_order env o p w
          ≡ after_charge env o p c (record { db = env.while_paying w.db; psp = psp' }))
unfolding pay_order
pay_order-cases env o p w = ground arith

pay_order-Resumes :
    (env : Environment) (o : Order) (p : Payment) (w : World)
    → LeavesBooks env
    → find? (order_is o.id) w.db.orders ≡ some o
    → Resumes env.rows_expire o (pay_order env o p w).0 (pay_order env o p w).1.db.orders
pay_order-Resumes env o p w l e =
    let (c, psp') = charge p.idempotency_key w.psp in
    elim (pay_order-cases env o p w) [
      | inl known ↦ rw known (finish-Resumes env o p w l e)
      | inr asked ↦ rw asked (
          after_charge-Resumes env o p c (record { db = env.while_paying w.db; psp = psp' }) l
            (rw ((l.paying w.db).orders) e))
    ]

ensure_payment-orders : (o : Order) (db : Db) → (ensure_payment o db).1.orders ≡ db.orders
unfolding ensure_payment
ensure_payment-orders o db = ground arith

pub resume-Resumes :
    (env : Environment) (o : Order) (w : World)
    → LeavesBooks env
    → find? (order_is o.id) w.db.orders ≡ some o
    → Resumes env.rows_expire o (resume env o w).0 (resume env o w).1.db.orders
unfolding resume
resume-Resumes env o w l e =
    let (p, db') = ensure_payment o w.db in
    pay_order-Resumes env o p (record w { db = db' }) l (rw (ensure_payment-orders o w.db) e)
