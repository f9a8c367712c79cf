-- ===== src/Checkout/Service/Turns.antt =====
-- What a checkout can end in, whichever of its paths it takes.
use arena_onsale.Prelude.{
  ◌≡◌, refl, Bool, true, false, Option, some, List, arith, inl, inr, Option-cases, Bool-cases,
  String, ==_refl,
}
use arena_onsale.Prelude.Query.{find?}
use arena_onsale.Prelude.Rows.{find?_of_unique}
use arena_onsale.Prelude.Text.{str_eq}
use arena_onsale.Settings.{Settings}
use arena_onsale.Tables.{Order, compensated}
use arena_onsale.Checkout.Orders.{
  World, CheckoutRequest, Environment, CheckoutError, CheckoutResult, ok, err, order_is,
  order_has_key, new_order, bumped, reservation_not_found, reservation_not_active, finalize_failed,
  missing_greenlet, payment_declined,
}
use arena_onsale.Checkout.Quotes.{quote}
use arena_onsale.Checkout.Service.{
  checkout, place, replay, resume, as_replay, order_by_key, is_finished, both_or_neither,
}
use arena_onsale.Checkout.Service.Frames.{LeavesBooks}
use arena_onsale.Checkout.Service.Books.{UniqueOrders}
use arena_onsale.Checkout.Service.Endings.{
  Ends, Fresh, Placing, ended, turned_away, place-Placing, after_card,
}
use arena_onsale.Checkout.Service.Resumed.{Resumes, resume-Resumes}

-- How a checkout turns out, where a rollback expires the loaded rows or does not.
pub data Turn (expire : Bool) (w : World) : CheckoutResult × World → Type 0 where
  -- refused before the card was asked
  kept : (e : CheckoutError) → after_card e ≡ false → Turn expire w (err e, w)
  done : (o : Order) (b : Bool) (w' : World) → Turn expire w (ok o b, w')
  declined : (m : Option String) (w' : World) → Turn expire w (err (payment_declined m), w')
  -- the order is marked as compensated
  given_back :
      (o : Order) (w' : World)
      → find? (order_is o.id) w'.db.orders ≡ some o
      → o.status ≡ compensated
      → expire ≡ false
      → Turn expire w (err finalize_failed, w')
  -- `_compensate` has raised at the expired rows: the order is left as it was
  stuck :
      (o : Order) (w' : World)
      → find? (order_is o.id) w'.db.orders ≡ some o
      → is_finished o.status ≡ false
      → expire ≡ true
      → Turn expire w (err missing_greenlet, w')

Ends-Turn :
    (x : Bool) (o : Order) (w w' : World) (r : CheckoutResult) (os : List Order)
    → is_finished o.status ≡ false
    → Ends x o r os
    → w'.db.orders ≡ os
    → Turn x w (r, w')
Ends-Turn x o w w' _ _ n (Ends.sold os) e = done _ _ _
Ends-Turn x o w w' _ _ n (Ends.given_back os k) e =
    given_back (bumped compensated o) w' (rw e (rw (==_refl o.id) refl)) refl k
Ends-Turn x o w w' _ _ n (Ends.stuck os k) e = stuck o w' (rw e (rw (==_refl o.id) refl)) n k
Ends-Turn x o w w' _ _ n (Ends.turned_down m os) e = declined m w'

Placing-Turn :
    (env : Environment) (rq : CheckoutRequest) (w : World) (r : CheckoutResult × World)
    → Placing env rq w r
    → Turn env.rows_expire w r
unfolding new_order
Placing-Turn env rq w _ (ended m amount r w' ends) =
    Ends-Turn env.rows_expire (new_order env rq m amount) w w' r w'.db.orders refl ends refl
Placing-Turn env rq w _ (turned_away e k) = kept e k

Resumes-Turn :
    (x : Bool) (o : Order) (w w' : World) (r : CheckoutResult) (os : List Order)
    → is_finished o.status ≡ false
    → Resumes x o r os
    → w'.db.orders ≡ os
    → Turn x w (as_replay (r, w'))
unfolding as_replay
Resumes-Turn x o w w' _ _ n (Resumes.done q b os) e = done _ _ _
Resumes-Turn x o w w' _ _ n (Resumes.given_back os k i) e =
    given_back (bumped compensated o) w' (rw e k) refl i
Resumes-Turn x o w w' _ _ n (Resumes.stuck os k i) e = stuck o w' (rw e k) n i
Resumes-Turn x o w w' _ _ n (Resumes.turned_down m os) e = declined m w'

replay-Turn :
    (env : Environment) (rq : CheckoutRequest) (o : Order) (w : World)
    → LeavesBooks env
    → find? (order_is o.id) w.db.orders ≡ some o
    → Turn env.rows_expire w (replay env rq o w)
unfolding replay
replay-Turn env rq o w l e = elim (Bool-cases (str_eq o.session_id rq.session_id)) [
  | inl same ↦ elim (Bool-cases (is_finished o.status)) [
    | inl finished ↦ rw same (rw finished (done _ _ _))
    | inr unfinished ↦
        let (r, w') = resume env o w in
        rw same (
          rw unfinished (
            Resumes-Turn env.rows_expire o w w' r w'.db.orders unfinished
              (resume-Resumes env o w l e) refl))
  ]
  | inr other ↦ rw other (kept reservation_not_active refl)
]

pub checkout-Turn :
    (env : Environment) (s : Settings) (rq : CheckoutRequest) (w : World)
    → Fresh env rq w
    → UniqueOrders w.db.orders
    → Turn env.rows_expire w (checkout env s rq w)
unfolding checkout order_by_key
checkout-Turn env s rq w f u = elim (Bool-cases (both_or_neither rq.hold_id rq.ga_reservation_id)) [
  | inl bad ↦
      let shape : checkout env s rq w ≡ (err reservation_not_found, w) = ground arith in
      rw shape (kept reservation_not_found refl)
  | inr fine ↦ elim (Option-cases (order_by_key rq.idempotency_key w.db)) [
    | inl new ↦
        let shape : checkout env s rq w ≡ place env s rq w = ground arith in
        rw shape (
          Placing-Turn env rq w (place env s rq w)
            (place-Placing env s rq w (quote s env.quoted_at rq w.db) f refl))
    | inr (o, found) ↦
        let shape : checkout env s rq w ≡ replay env rq o w = ground arith in
        rw shape (
          replay-Turn env rq o w f.leaves_books (
            find?_of_unique (order_has_key rq.idempotency_key) (order_is o.id) w.db.orders o found
              (==_refl o.id) (u o.id)))
  ]
]
