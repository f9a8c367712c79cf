-- ===== src/Checkout/Service/Books.antt =====
-- The books of every order across a whole checkout.
use arena_onsale.Prelude.{
  ℕ, ◌≡◌, ◌≤◌, refl, false, none, some, List, ◌∷◌, arith, inl, inr, Option-cases, Bool-cases,
  ==_refl, ◌⊎◌,
}
use arena_onsale.Prelude.Query.{find?, count_where}
use arena_onsale.Prelude.Rows.{find?_of_unique}
use arena_onsale.Settings.{Settings}
use arena_onsale.Tables.{Order, payment_pending, pay}
use arena_onsale.Checkout.Psp.Laws.{key_eq→≡, key_eq_refl}
use arena_onsale.Checkout.Orders.{
  World, Environment, CheckoutRequest, CheckoutResult, ok, err, order_is, payment_of,
  ensure_payment, order_has_key, new_order, order_fits,
}
use arena_onsale.Checkout.Service.{
  resume, replay, place, checkout, as_replay, order_by_key, is_finished,
}
use arena_onsale.Checkout.Quotes.{Quote, quoted, refused, quote}
use arena_onsale.Checkout.Service.Saga.{IsSettled}
use arena_onsale.Checkout.Service.Frames.{LeavesBooks}
use arena_onsale.Checkout.Service.Steps.{Loaded}
use arena_onsale.Checkout.Service.Charging.{pay_order-IsSettled}

-- the world once `_ensure_payment` has committed
abbrev with_payment : Order → World → World
with_payment o w = record w { db = (ensure_payment o w.db).1 }

ensure_payment-Loaded :
    (o : Order) (w : World)
    → find? (order_is o.id) w.db.orders ≡ some o
    → IsSettled o.id w
    → Loaded o (ensure_payment o w.db).0 (with_payment o w)
unfolding ensure_payment
ensure_payment-Loaded o w e s = elim (Option-cases (find? (payment_of o.id) w.db.payments)) [
  | inl n ↦ record {
    order_row = ground arith;
    payment_row = ground arith;
    key = ground arith;
    of_order = ground arith;
  }
  | inr (p, f) ↦ record {
    order_row = ground arith;
    payment_row = ground arith;
    key = ground (arith, key_eq→≡ p.idempotency_key (pay o.id));
    of_order = ground arith;
  }
]

ensure_payment-IsSettled :
    (i : ℕ) (o : Order) (w : World)
    → find? (order_is o.id) w.db.orders ≡ some o
    → o.status ≡ payment_pending
    → IsSettled o.id w
    → IsSettled i w
    → IsSettled i (with_payment o w)
unfolding ensure_payment
ensure_payment-IsSettled i o w e a so s = ground (arith, key_eq_refl (pay i))

resume-IsSettled :
    (i : ℕ) (env : Environment) (o : Order) (w : World)
    → LeavesBooks env
    → find? (order_is o.id) w.db.orders ≡ some o
    → o.status ≡ payment_pending
    → IsSettled o.id w
    → IsSettled i w
    → IsSettled i (resume env o w).1
unfolding resume
resume-IsSettled i env o w l e a so s =
    pay_order-IsSettled i env o (ensure_payment o w.db).0 (with_payment o w) l
      (ensure_payment-Loaded o w e so) a (ensure_payment-IsSettled o.id o w e a so so)
      (ensure_payment-IsSettled i o w e a so s)

as_replay-world : (r : CheckoutResult × World) → (as_replay r).1 ≡ r.1
unfolding as_replay
as_replay-world (ok o b, w) = refl
as_replay-world (err e, w) = refl

replay-IsSettled :
    (i : ℕ) (env : Environment) (rq : CheckoutRequest) (o : Order) (w : World)
    → LeavesBooks env
    → find? (order_is o.id) w.db.orders ≡ some o
    → IsSettled o.id w
    → IsSettled i w
    → IsSettled i (replay env rq o w).1
unfolding replay
replay-IsSettled i env rq o w l e so s = elim (Bool-cases (is_finished o.status)) [
  | inl done ↦ ground arith
  | inr open_order ↦ ground (
    arith,
    as_replay-world (resume env o w),
    resume-IsSettled i env o w l e (pending_of o w e so open_order) so s,
  )
]
  where
    pending_of :
        (o : Order) (w : World)
        → find? (order_is o.id) w.db.orders ≡ some o
        → IsSettled o.id w
        → is_finished o.status ≡ false
        → o.status ≡ payment_pending
    pending_of o w e so n = ground arith

-- the world once a new order has been committed
abbrev with_order : Order → World → World
with_order o w = record w { db = record (w.db) { orders = o ∷ w.db.orders } }

with_order-IsSettled :
    (i : ℕ) (o : Order) (w : World)
    → find? (order_is o.id) w.db.orders ≡ none
    → o.status ≡ payment_pending
    → IsSettled i w
    → IsSettled i (with_order o w)
with_order-IsSettled i o w fresh e s = ground arith

-- the two ways on from a quote
place-quoted :
    (env : Environment) (s : Settings) (rq : CheckoutRequest) (w : World) (m a : ℕ)
    → quote s env.quoted_at rq w.db ≡ quoted m a
    → let o = new_order env rq m a in
      ((place env s rq w).1 ≡ w) ⊎ ((place env s rq w).1 ≡ (resume env o (with_order o w)).1)
unfolding place
place-quoted env s rq w m a e = elim (Bool-cases (order_fits (new_order env rq m a) w.db.orders)) [
  | inl fits ↦ inr (rw (e, place, fits))
  | inr clash ↦ inl (rw (e, place, clash))
]

place-IsSettled :
    (i : ℕ) (env : Environment) (s : Settings) (rq : CheckoutRequest) (w : World) (q : Quote)
    → quote s env.quoted_at rq w.db ≡ q
    → LeavesBooks env
    → find? (order_is env.order_id) w.db.orders ≡ none
    → IsSettled env.order_id w
    → IsSettled i w
    → IsSettled i (place env s rq w).1
unfolding place new_order
place-IsSettled i env s rq w (refused e) eq l fresh so si = rw (eq, place) si
place-IsSettled i env s rq w (quoted m a) eq l fresh so si = elim (place-quoted env s rq w m a eq) [
  | inl same ↦ rw same si
  | inr resumed ↦
      let o = new_order env rq m a in
      rw resumed (
        resume-IsSettled i env o (with_order o w) l (ground arith) refl
          (with_order-IsSettled env.order_id o w fresh refl so)
          (with_order-IsSettled i o w fresh refl si))
]

-- No two rows of the table have the same primary key.
abbrev pub UniqueOrders : List Order → Type 0
UniqueOrders os = (i : ℕ) → count_where (order_is i) os ≤ 1

-- If every order was settled, every order is settled after a checkout, however it ends: refused,
-- replayed, resumed, declined, confirmed, refunded because the seats were lost while the card was charged, or
-- crashed before that refund, which leaves the order open and its charge captured.
pub checkout-IsSettled :
    (i : ℕ) (env : Environment) (s : Settings) (rq : CheckoutRequest) (w : World)
    → LeavesBooks env
    → UniqueOrders w.db.orders
    → find? (order_is env.order_id) w.db.orders ≡ none
    → ((j : ℕ) → IsSettled j w)
    → IsSettled i (checkout env s rq w).1
unfolding checkout
checkout-IsSettled i env s rq w l u fresh all =
    elim (Option-cases (order_by_key rq.idempotency_key w.db)) [
      | inl new ↦ ground (
        arith,
        place-IsSettled i env s rq w (quote s env.quoted_at rq w.db) refl l fresh (all env.order_id)
            (all i),
        all i,
      )
      | inr (o, found) ↦ ground (
        arith,
        replay-IsSettled i env rq o w l
            (find?_of_unique (order_has_key rq.idempotency_key) (order_is o.id) w.db.orders o found
              (==_refl o.id) (u o.id))
            (all o.id) (all i),
        all i,
      )
    ]
