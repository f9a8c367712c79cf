-- ===== src/Api/Checkout/Answers.antt =====
-- A checkout that is answered with 201, sent again, and asked for by its id.
use arena_onsale.Prelude.{
  ℕ, ◌≡◌, refl, true, false, some, List, arith, inl, inr, Option-cases, Bool-cases, String, sym, ap,
  ◌∙◌, subst, ==_refl,
}
use arena_onsale.Prelude.Text.{strip, is_empty_text, eq_iff, str_eq}
use arena_onsale.Settings.{Settings}
use arena_onsale.Tables.{Db, Order, confirmed}
use arena_onsale.Checkout.Orders.{
  World, CheckoutRequest, Environment, CheckoutResult, ok, err, new_order, bumped,
  reservation_not_found, reservation_not_active, finalize_failed, order_integrity, missing_greenlet,
  payment_declined,
}
use arena_onsale.Checkout.Quotes.{quote}
use arena_onsale.Checkout.Service.{
  checkout, place, replay, resume, as_replay, order_by_key, get, both_or_neither,
}
use arena_onsale.Checkout.Service.Endings.{
  Ends, sold, given_back, stuck, turned_down, Fresh, Placing, ended, turned_away, place-Placing,
}
use arena_onsale.Api.{text, replied, refused}
use arena_onsale.Api.Schemas.{CheckoutBody}
use arena_onsale.Api.Checkout.{
  CheckoutResponse, response, answer_checkout, checkout_request, create_checkout, get_order,
}

-- The order of a 201: confirmed, of the session and the key of the request, and in the table.
pub record Sold (rq : CheckoutRequest) (o : Order) (db : Db) : Type 0 where
  pub is_confirmed : o.status ≡ confirmed
  pub same_session : o.session_id ≡ rq.session_id
  pub by_key : order_by_key rq.idempotency_key db ≡ some o
  pub by_id : get o.id db ≡ some o

str_eq_refl : (s : String) → str_eq s s ≡ true
str_eq_refl s = ground (arith, eq_iff s s)

Ends-Sold :
    (env : Environment) (rq : CheckoutRequest) (m amount : ℕ) (r : CheckoutResult) (db : Db)
    (os : List Order) (o : Order)
    → Ends env.rows_expire (new_order env rq m amount) r os
    → db.orders ≡ os
    → r ≡ ok o true
    → Sold rq o db
unfolding new_order order_by_key get
Ends-Sold env rq m amount r db os o (sold rest) e k =
    let same : bumped confirmed (new_order env rq m amount) ≡ o = ground arith in
    subst (λ q. Sold rq q db) same
      (record {
        is_confirmed = refl;
        same_session = refl;
        by_key = rw e (rw (str_eq_refl rq.idempotency_key) refl);
        by_id = rw e (rw (==_refl env.order_id) refl);
      })
Ends-Sold env rq m amount r db os o (given_back rest x) e k = cc
Ends-Sold env rq m amount r db os o (stuck rest x) e k = cc
Ends-Sold env rq m amount r db os o (turned_down x rest) e k = cc

Placing-Sold :
    (env : Environment) (rq : CheckoutRequest) (w : World) (r : CheckoutResult × World) (o : Order)
    → Placing env rq w r
    → r.0 ≡ ok o true
    → Sold rq o r.1.db
Placing-Sold env rq w r o (ended m amount x w' ends) e =
    Ends-Sold env rq m amount x w'.db w'.db.orders o ends refl e
Placing-Sold env rq w r o (turned_away x k) e = cc

as_replay_not_new : (r : CheckoutResult × World) (o : Order) → (as_replay r).0 ≡ ok o true → ⊥
unfolding as_replay
as_replay_not_new (ok q b, w) o e = ground arith
as_replay_not_new (err x, w) o e = cc

checkout-Sold :
    (env : Environment) (s : Settings) (rq : CheckoutRequest) (w : World) (o : Order)
    → Fresh env rq w
    → (checkout env s rq w).0 ≡ ok o true
    → (both_or_neither rq.hold_id rq.ga_reservation_id ≡ false)
      × Sold rq o (checkout env s rq w).1.db
unfolding checkout replay
checkout-Sold env s rq w o f e =
    elim (Bool-cases (both_or_neither rq.hold_id rq.ga_reservation_id)) [
      | inl bad ↦ absurd (ground arith)
      | inr fine ↦ elim (Option-cases (order_by_key rq.idempotency_key w.db)) [
        | inl new ↦
            let shape : checkout env s rq w ≡ place env s rq w = ground arith in
            (
              fine,
              rw shape (
                  Placing-Sold env rq w (place env s rq w) o
                    (place-Placing env s rq w (quote s env.quoted_at rq w.db) f refl)
                    (sym (ap (λ t. t.0) shape) ∙ e)),
            )
        | inr (q, found) ↦ absurd (ground (arith, as_replay_not_new (resume env q w) o))
      ]
    ]

checkout_again :
    (env : Environment) (s : Settings) (rq : CheckoutRequest) (w : World) (o : Order)
    → both_or_neither rq.hold_id rq.ga_reservation_id ≡ false
    → Sold rq o w.db
    → checkout env s rq w ≡ (ok o false, w)
unfolding checkout replay
checkout_again env s rq w o fine k =
    ground
      (arith, fine, k.by_key, k.same_session, k.is_confirmed, eq_iff o.session_id rq.session_id)

answer_checkout-created :
    (r : CheckoutResult) (a : CheckoutResponse)
    → answer_checkout r ≡ replied 201 a
    → (o : Order) × (r ≡ ok o true) × (a ≡ response o)
unfolding answer_checkout
answer_checkout-created (ok o true) a e = (o, refl, ground arith)
answer_checkout-created (ok o false) a e = absurd (ground arith)
answer_checkout-created (err reservation_not_found) a e = cc
answer_checkout-created (err reservation_not_active) a e = cc
answer_checkout-created (err finalize_failed) a e = cc
answer_checkout-created (err order_integrity) a e = cc
answer_checkout-created (err missing_greenlet) a e = cc
answer_checkout-created (err (payment_declined m)) a e = cc

-- with a key that is not blank the service is asked
pub create_checkout_given :
    (env : Environment) (cfg : Settings) (b : CheckoutBody) (key : String) (w : World)
    → is_empty_text (strip key) ≡ false
    → let (r, w') = checkout env cfg (checkout_request b key) w in
      create_checkout env cfg b key w ≡ (answer_checkout r, w')
unfolding create_checkout
create_checkout_given env cfg b key w given = rw given refl

-- a blank key is refused at once
pub create_checkout_blank :
    (env : Environment) (cfg : Settings) (b : CheckoutBody) (key : String) (w : World)
    → is_empty_text (strip key) ≡ true
    → create_checkout env cfg b key w ≡ (refused 400 (text "Idempotency-Key is required"), w)
unfolding create_checkout
create_checkout_blank env cfg b key w blank = rw blank refl

get_order_found :
    (o : Order) (db : Db)
    → get o.id db ≡ some o
    → get_order (response o).id db ≡ replied 200 (response o)
unfolding get_order response
get_order_found o db e = ground (arith, e)

module _ (env : Environment) (cfg : Settings) (b : CheckoutBody) (key : String) (w : World) where
  create_checkout-created :
      (a : CheckoutResponse)
      → (create_checkout env cfg b key w).0 ≡ replied 201 a
      → (is_empty_text (strip key) ≡ false)
        × (o : Order) × ((checkout env cfg (checkout_request b key) w).0 ≡ ok o true)
        × (a ≡ response o)
        × ((create_checkout env cfg b key w).1 ≡ (checkout env cfg (checkout_request b key) w).1)
  create_checkout-created a e = elim (Bool-cases (is_empty_text (strip key))) [
    | inl blank ↦
        let clash : refused 400 (text "Idempotency-Key is required") ≡ replied 201 a =
          sym (ap (λ t. t.0) (create_checkout_blank env cfg b key w blank)) ∙ e in
        absurd cc
    | inr given ↦
        let asked = create_checkout_given env cfg b key w given in
        let (o, made, shown) =
          answer_checkout-created (checkout env cfg (checkout_request b key) w).0 a
            (sym (ap (λ t. t.0) asked) ∙ e) in
        (given, o, made, shown, ap (λ t. t.1) asked)
  ]

  -- A checkout answered with 201 shows a confirmed order. Sent again, at any later time, it is answered
  -- with 200 and the same body and changes nothing, and the order is found under its id with that body.
  -- It is a new order whose id has no payment yet, and the others write no order and no payment.
  pub create_checkout-create_checkout :
      (env' : Environment) (a : CheckoutResponse)
      → Fresh env (checkout_request b key) w
      → let (r, w') = create_checkout env cfg b key w in
        r ≡ replied 201 a
        → (a.status ≡ "CONFIRMED")
          × (create_checkout env' cfg b key w' ≡ (replied 200 a, w'))
          × (get_order a.id w'.db ≡ replied 200 a)
  unfolding response answer_checkout
  create_checkout-create_checkout env' a f e =
      let rq = checkout_request b key in
      let (given, o, made, shown, state) = create_checkout-created a e in
      let (fine, k) = checkout-Sold env cfg rq w o f made in
      let w' = (checkout env cfg rq w).1 in
      let again : create_checkout env' cfg b key w' ≡ (replied 200 (response o), w') =
        create_checkout_given env' cfg b key w' given
        ∙ ap (λ t. (answer_checkout t.0, t.1)) (checkout_again env' cfg rq w' o fine k) in
      rw state (rw shown (rw k.is_confirmed refl, again, get_order_found o w'.db k.by_id))
