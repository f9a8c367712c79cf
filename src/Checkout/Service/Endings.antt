-- ===== src/Checkout/Service/Endings.antt =====
-- How a checkout under a new key ends: sold, given back, declined, or turned away.
use arena_onsale.Prelude.{
  ℕ, ◌≡◌, refl, Bool, true, false, Option, none, List, ◌∷◌, arith, inl, inr, Bool-cases, ◌∙◌,
  String,
}
use arena_onsale.Prelude.Query.{find?, update_where}
use arena_onsale.Settings.{Settings}
use arena_onsale.Tables.{
  Db, Order, payment_pending, confirmed, payment_failed, compensated, Payment, captured, pending,
}
use arena_onsale.Checkout.Psp.{ChargeResult, charge}
use arena_onsale.Checkout.Orders.{
  World, CheckoutRequest, Environment, CheckoutError, CheckoutResult, ok, err, finalize_failed,
  missing_greenlet, payment_declined, new_order, ensure_payment, save_payment, order_is, payment_of,
  new_payment, bumped, order_fits, order_integrity,
}
use arena_onsale.Checkout.Quotes.{Quote, quote, quoted, refused}
use arena_onsale.Checkout.Service.{
  place, resume, pay_order, after_charge, finish, finalize, settle_order, compensate,
  confirm_reservation, captured_payment,
}
use arena_onsale.Checkout.Service.Frames.{LeavesBooks, confirm_reservation-SameBooks}

-- The answer to the placing of `o`, and the order at the head of the table after it.
pub data Ends (expire : Bool) (o : Order) : CheckoutResult → List Order → Type 0 where
  sold : (os : List Order) → Ends expire o (ok (bumped confirmed o) true) (bumped confirmed o ∷ os)
  given_back :
      (os : List Order)
      → expire ≡ false
      → Ends expire o (err finalize_failed) (bumped compensated o ∷ os)
  stuck : (os : List Order) → expire ≡ true → Ends expire o (err missing_greenlet) (o ∷ os)
  turned_down :
      (m : Option String) (os : List Order)
      → Ends expire o (err (payment_declined m)) (record o { status = payment_failed } ∷ os)

-- a flush of the order at the head of the table
saved_head :
    (o q : Order) (os : List Order)
    → q.id ≡ o.id
    → update_where (order_is q.id) (λ x. q) (o ∷ os) ≡ q ∷ update_where (order_is q.id) (λ x. q) os
saved_head o q os e = ground (arith, e)

settle_order-Ends :
    (env : Environment) (o : Order) (p : Payment) (w : World) (r : Bool × Db) (os : List Order)
    → LeavesBooks env
    → w.db.orders ≡ o ∷ os
    → r.1.orders ≡ o ∷ os
    → Ends env.rows_expire o (settle_order env o p w r).0 (settle_order env o p w r).1.db.orders
unfolding settle_order compensate
settle_order-Ends env o p w (true, db) os l e k =
    rw k (rw (saved_head o (bumped confirmed o) os refl) (sold _))
settle_order-Ends env o p w (false, db) os l e k = elim (Bool-cases env.rows_expire) [
  | inl expired ↦ rw expired (rw ((l.rolling_back w.db).orders) (rw e (stuck _ refl)))
  | inr kept ↦ rw kept (
      rw ((l.rolling_back w.db).orders)
        (rw e (rw (saved_head o (bumped compensated o) os refl) (given_back _ refl))))
]

finalize-Ends :
    (env : Environment) (o : Order) (p : Payment) (w : World) (os : List Order)
    → LeavesBooks env
    → w.db.orders ≡ o ∷ os
    → Ends env.rows_expire o (finalize env o p w).0 (finalize env o p w).1.db.orders
unfolding finalize
finalize-Ends env o p w os l e =
    settle_order-Ends env o p w (confirm_reservation env o w.db) os l e
      ((confirm_reservation-SameBooks env o w.db l).orders ∙ e)

finish_new :
    (env : Environment) (o : Order) (p : Payment) (w : World)
    → p.status ≡ captured
    → o.status ≡ payment_pending
    → finish env o p w ≡ finalize env o p w
unfolding finish
finish_new env o p w e k = rw e (rw k refl)

after_charge-Ends :
    (env : Environment) (o : Order) (p : Payment) (c : ChargeResult) (w : World) (os : List Order)
    → LeavesBooks env
    → o.status ≡ payment_pending
    → w.db.orders ≡ o ∷ os
    → Ends env.rows_expire o (after_charge env o p c w).0 (after_charge env o p c w).1.db.orders
unfolding after_charge
after_charge-Ends env o p c w os l k e = elim (Bool-cases c.accepted) [
  | inl accepted ↦
      let p' = captured_payment c.psp_ref p in
      let w' : World = record w { db = save_payment p' w.db } in
      rw accepted (rw (finish_new env o p' w' refl k) (finalize-Ends env o p' w' os l e))
  | inr declined ↦ rw declined (
      rw e (
        rw (saved_head o (record o { status = payment_failed }) os refl) (turned_down c.message _)))
]

pay_order_new :
    (env : Environment) (o : Order) (p : Payment) (w : World)
    → p.status ≡ pending
    → let (c, psp') = charge p.idempotency_key w.psp in
      pay_order env o p w
      ≡ after_charge env o p c (record { db = env.while_paying w.db; psp = psp' })
unfolding pay_order after_charge
pay_order_new env o p w e = rw e refl

pay_order-Ends :
    (env : Environment) (o : Order) (p : Payment) (w : World) (os : List Order)
    → LeavesBooks env
    → p.status ≡ pending
    → o.status ≡ payment_pending
    → w.db.orders ≡ o ∷ os
    → Ends env.rows_expire o (pay_order env o p w).0 (pay_order env o p w).1.db.orders
pay_order-Ends env o p w os l n k e =
    let (c, psp') = charge p.idempotency_key w.psp in
    rw (pay_order_new env o p w n) (
      after_charge-Ends env o p c (record { db = env.while_paying w.db; psp = psp' }) os l k
        ((l.paying w.db).orders ∙ e))

ensured_new :
    (o : Order) (db : Db)
    → find? (payment_of o.id) db.payments ≡ none
    → ensure_payment o db ≡ (new_payment o, record db { payments = new_payment o ∷ db.payments })
unfolding ensure_payment
ensured_new o db e = ground (arith, e)

resume-Ends :
    (env : Environment) (o : Order) (w : World) (os : List Order)
    → LeavesBooks env
    → find? (payment_of o.id) w.db.payments ≡ none
    → o.status ≡ payment_pending
    → w.db.orders ≡ o ∷ os
    → Ends env.rows_expire o (resume env o w).0 (resume env o w).1.db.orders
unfolding resume
resume-Ends env o w os l n k e = rw (ensured_new o w.db n) (
    pay_order-Ends env o (new_payment o)
      (record w { db = record (w.db) { payments = new_payment o ∷ w.db.payments } }) os l refl k e)

-- What the environment may do and which ids are fresh, for a checkout that places a new order.
pub record Fresh (env : Environment) (rq : CheckoutRequest) (w : World) : Type 0 where
  pub leaves_books : LeavesBooks env
  pub no_payment : find? (payment_of env.order_id) w.db.payments ≡ none

-- the errors that come after the card was asked
abbrev pub after_card : CheckoutError → Bool
after_card finalize_failed = true
after_card missing_greenlet = true
after_card (payment_declined m) = true
after_card _ = false

quote_before_card :
    (s : Settings) (now : ℕ) (rq : CheckoutRequest) (db : Db) (x : CheckoutError)
    → quote s now rq db ≡ refused x
    → after_card x ≡ false
unfolding quote
quote_before_card s now rq db x e = ground arith

-- A checkout under a new key that neither sold, gave back nor was turned down has changed nothing.
pub data Placing (env : Environment) (rq : CheckoutRequest) (w : World)
    : CheckoutResult × World → Type 0 where
  ended :
      (m amount : ℕ) (r : CheckoutResult) (w' : World)
      → Ends env.rows_expire (new_order env rq m amount) r w'.db.orders
      → Placing env rq w (r, w')
  turned_away : (e : CheckoutError) → after_card e ≡ false → Placing env rq w (err e, w)

pub place-Placing :
    (env : Environment) (s : Settings) (rq : CheckoutRequest) (w : World) (q : Quote)
    → Fresh env rq w
    → quote s env.quoted_at rq w.db ≡ q
    → Placing env rq w (place env s rq w)
unfolding place new_order
place-Placing env s rq w (refused x) f e =
    let shape : place env s rq w ≡ (err x, w) = ground (arith, e) in
    rw shape (turned_away x (quote_before_card s env.quoted_at rq w.db x e))
place-Placing env s rq w (quoted m a) f e =
    let o = new_order env rq m a in
    let w' : World = record w { db = record (w.db) { orders = o ∷ w.db.orders } } in
    elim (Bool-cases (order_fits o w.db.orders)) [
      | inl fits ↦
          let shape : place env s rq w ≡ resume env o w' = ground (arith, e, fits) in
          rw shape
            (ended m a _ _ (resume-Ends env o w' w.db.orders f.leaves_books f.no_payment refl refl))
      | inr clash ↦
          let shape : place env s rq w ≡ (err order_integrity, w) = ground (arith, e, clash) in
          rw shape (turned_away order_integrity refl)
    ]
