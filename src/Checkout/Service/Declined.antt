-- ===== src/Checkout/Service/Declined.antt =====
-- A buyer whose card was declined and who tries again with a new key.
use arena_onsale.Prelude.{
  ℕ, ◌≤◌, ◌≡◌, refl, Bool, true, false, Option, none, some, List, ◌∷◌, arith, inl, inr,
  Option-cases, Bool-cases, String, ap, sym, ◌∙◌,
}
use arena_onsale.Prelude.Query.{find?, count_where, update_where}
use arena_onsale.Settings.{Settings}
use arena_onsale.Tables.{Db, Order, Payment, payment_failed}
use arena_onsale.Checkout.Psp.{ChargeResult, charge}
use arena_onsale.Checkout.Orders.{
  World, CheckoutRequest, Environment, err, order_integrity, payment_declined, has_id, order_fits,
  new_order, ensure_payment, order_is, save_payment, payment_of, new_payment,
}
use arena_onsale.Checkout.Quotes.{Quote, quote, quoted, refused}
use arena_onsale.Checkout.Service.{
  checkout, place, resume, pay_order, after_charge, finish, finalize, settle_order, order_by_key,
  confirm_reservation, captured_payment,
}
use arena_onsale.Checkout.Service.Frames.{LeavesBooks}

abbrev orders_of_hold : ℕ → List Order → ℕ
orders_of_hold h os = count_where (λ (q : Order). has_id (some h) q.hold_id) os

settle_order_not_declined :
    (env : Environment) (o : Order) (p : Payment) (w : World) (m : Option String) (r : Bool × Db)
    → (settle_order env o p w r).0 ≡ err (payment_declined m)
    → ⊥
unfolding settle_order
settle_order_not_declined env o p w m (true, db) e = cc
settle_order_not_declined env o p w m (false, db) e = ground arith

finish_not_declined :
    (env : Environment) (o : Order) (p : Payment) (w : World) (m : Option String)
    → (finish env o p w).0 ≡ err (payment_declined m)
    → ⊥
unfolding finish finalize
finish_not_declined env o p w m e =
    ground (arith, settle_order_not_declined env o p w m (confirm_reservation env o w.db))

-- what a declined charge leaves of an order that stands first in the table
kept_order :
    (h : ℕ) (env : Environment) (o : Order) (os : List Order)
    → o.hold_id ≡ some h
    → 1
      ≤ orders_of_hold h
          (update_where (order_is o.id) (λ q. record o { status = payment_failed }) (o ∷ os))
kept_order h env o os e = ground arith

marked : Order → List Order → List Order
marked o os = update_where (order_is o.id) (λ q. record o { status = payment_failed }) os

after_charge-declined :
    (env : Environment) (o : Order) (p : Payment) (c : ChargeResult) (w : World) (m : Option String)
    → (after_charge env o p c w).0 ≡ err (payment_declined m)
    → (after_charge env o p c w).1.db.orders ≡ marked o w.db.orders
unfolding after_charge marked
after_charge-declined env o p c w m e = elim (Bool-cases c.accepted) [
  | inl accepted ↦ absurd (
      ground (
        arith,
        finish_not_declined env o (captured_payment c.psp_ref p)
            (record w { db = save_payment (captured_payment c.psp_ref p) w.db }) m,
      ))
  | inr declined ↦ ground arith
]

pay_order-declined :
    (env : Environment) (o : Order) (p : Payment) (w : World) (m : Option String)
    → LeavesBooks env
    → (pay_order env o p w).0 ≡ err (payment_declined m)
    → (pay_order env o p w).1.db.orders ≡ marked o w.db.orders
unfolding pay_order
pay_order-declined env o p w m l e =
    let (c, psp') = charge p.idempotency_key w.psp in
    let charged : World = record { db = env.while_paying w.db; psp = psp' } in
    ground (
      arith,
      finish_not_declined env o p w m,
      after_charge-declined env o p c charged m,
      (l.paying w.db).orders,
    )

resume-declined :
    (env : Environment) (o : Order) (w : World) (m : Option String)
    → LeavesBooks env
    → (resume env o w).0 ≡ err (payment_declined m)
    → (resume env o w).1.db.orders ≡ marked o w.db.orders
unfolding resume ensure_payment
resume-declined env o w m l e = elim (Option-cases (find? (payment_of o.id) w.db.payments)) [
  | inl none_yet ↦ ground (
    arith,
    pay_order-declined env o (new_payment o)
        (record w { db = record (w.db) { payments = new_payment o ∷ w.db.payments } }) m l,
  )
  | inr (p, found) ↦ ground (arith, pay_order-declined env o p w m l)
]

quote_not_declined :
    (s : Settings) (now : ℕ) (rq : CheckoutRequest) (db : Db) (m : Option String)
    → quote s now rq db ≡ refused (payment_declined m)
    → ⊥
unfolding quote
quote_not_declined s now rq db m e = ground arith

place-declined :
    (h : ℕ) (env : Environment) (s : Settings) (rq : CheckoutRequest) (w : World)
    (m : Option String) (q : Quote)
    → quote s env.quoted_at rq w.db ≡ q
    → LeavesBooks env
    → rq.hold_id ≡ some h
    → (place env s rq w).0 ≡ err (payment_declined m)
    → 1 ≤ orders_of_hold h (place env s rq w).1.db.orders
unfolding place new_order marked
place-declined h env s rq w m (refused x) eq l named e =
    absurd (ground (arith, quote_not_declined s env.quoted_at rq w.db m))
place-declined h env s rq w m (quoted i a) eq l named e =
    let o = new_order env rq i a in
    let written : World = record w { db = record (w.db) { orders = o ∷ w.db.orders } } in
    ground (arith, resume-declined env o written m l, kept_order h env o w.db.orders)

placed :
    (env : Environment) (s : Settings) (rq : CheckoutRequest) (w : World) (h : ℕ)
    → rq.hold_id ≡ some h
    → rq.ga_reservation_id ≡ none
    → order_by_key rq.idempotency_key w.db ≡ none
    → checkout env s rq w ≡ place env s rq w
unfolding checkout
placed env s rq w h n g fresh = ground arith

clash :
    (h : ℕ) (env : Environment) (s : Settings) (rq : CheckoutRequest) (w : World)
    (match_id amount : ℕ)
    → rq.hold_id ≡ some h
    → quote s env.quoted_at rq w.db ≡ quoted match_id amount
    → 1 ≤ orders_of_hold h w.db.orders
    → place env s rq w ≡ (err order_integrity, w)
unfolding place order_fits new_order
clash h env s rq w match_id amount n q one =
    let same : 1 ≤ count_where (λ (o : Order). has_id rq.hold_id o.hold_id) w.db.orders =
      rw n one in
    let full : order_fits (new_order env rq match_id amount) w.db.orders ≡ false =
      ground (arith, same) in
    ground (arith, full)

-- A declined checkout leaves an order for the hold. A second checkout of the same hold under a new key,
-- still quoted, does not get to the card: the insert of its order breaks the unique index on the hold, and
-- nothing is written.
pub checkout-checkout_declined :
    (h : ℕ) (env env' : Environment) (s : Settings) (rq rq' : CheckoutRequest) (w : World)
    (m : Option String) (match_id amount : ℕ)
    → LeavesBooks env
    → rq.hold_id ≡ some h
    → rq'.hold_id ≡ some h
    → rq.ga_reservation_id ≡ none
    → rq'.ga_reservation_id ≡ none
    → order_by_key rq.idempotency_key w.db ≡ none
    → (checkout env s rq w).0 ≡ err (payment_declined m)
    → let w' = (checkout env s rq w).1 in
      order_by_key rq'.idempotency_key w'.db ≡ none
      → quote s env'.quoted_at rq' w'.db ≡ quoted match_id amount
      → checkout env' s rq' w' ≡ (err order_integrity, w')
checkout-checkout_declined h env env' s rq rq' w m match_id amount l n n' g g' fresh e fresh' q =
    let w' = (checkout env s rq w).1 in
    let first : checkout env s rq w ≡ place env s rq w = placed env s rq w h n g fresh in
    let one : 1 ≤ orders_of_hold h w'.db.orders = rw first (
      place-declined h env s rq w m (quote s env.quoted_at rq w.db) refl l n
        (ap (λ r. r.0) (sym first) ∙ e)) in
    placed env' s rq' w' h n' g' fresh' ∙ clash h env' s rq' w' match_id amount n' q one
