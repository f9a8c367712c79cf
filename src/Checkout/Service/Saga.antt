-- ===== src/Checkout/Service/Saga.antt =====
-- The books of the checkout saga: the status of an order, its payment and what the provider has done.
use arena_onsale.Prelude.{
  ℕ, ◌≡◌, Bool, true, false, ◌&&◌, not, Option, none, some, List, [], ◌∷◌, if◌then◌else◌, ◌==◌,
  arith, is_none,
}
use arena_onsale.Prelude.Query.{find?, update_where}
use arena_onsale.Tables.{
  Order, OrderStatus, payment_pending, confirmed, payment_failed, compensated, expired, Payment,
  pending, captured, failed, refunded, pay, refund_of, key_eq,
}
use arena_onsale.Checkout.Psp.{ChargeResult, lookup}
use arena_onsale.Checkout.Orders.{World, order_is, payment_of}

abbrev pub paid : Option ChargeResult → Bool
paid none = false
paid (some r) = r.accepted

-- an accepted charge has a reference to refund it by
abbrev pub has_ref : Option ChargeResult → Bool
has_ref none = true
has_ref (some r) = if r.accepted then not (is_none r.psp_ref) else true

abbrev pub is_captured : Payment → Bool
is_captured p = elim p.status [ captured ↦ not (is_none p.psp_ref) | _ ↦ false ]

abbrev pub is_failed : Payment → Bool
is_failed p = elim p.status [ failed ↦ true | _ ↦ false ]

abbrev pub is_refunded : Payment → Bool
is_refunded p = elim p.status [ refunded ↦ true | _ ↦ false ]

abbrev pub is_unpaid : Payment → Bool
is_unpaid p = elim p.status [ pending ↦ true | _ ↦ false ]

-- How an order's status, its payment, the charge of its key and whether the charge stands without a
-- refund fit together.
abbrev pub money_ok : OrderStatus → Payment → Option ChargeResult → Bool → Bool
money_ok payment_pending p c stands =
    (stands && has_ref c) && (if is_unpaid p then true else is_captured p && paid c)
money_ok confirmed p c stands = stands && (is_captured p && paid c)
money_ok payment_failed p c stands = stands && (is_failed p && not (paid c))
money_ok compensated p c stands = not stands && (is_refunded p && paid c)
money_ok expired p c stands = false

-- without a payment row nothing has been charged or refunded
abbrev pub no_payment_ok : OrderStatus → Option ChargeResult → Bool → Bool
no_payment_ok payment_pending c stands = is_none c && stands
no_payment_ok _ c stands = false

abbrev pub saga_ok : ℕ → Option Order → Option Payment → Option ChargeResult → Bool → Bool
saga_ok i none p c stands = is_none p && (is_none c && stands)
saga_ok i (some o) none c stands = no_payment_ok o.status c stands
saga_ok i (some o) (some p) c stands =
    (key_eq p.idempotency_key (pay i) && (p.order_id == i)) && money_ok o.status p c stands

-- Order number `i`, if there is one, its payment and the provider agree.
abbrev pub IsSettled : ℕ → World → Type 0
IsSettled i w =
    saga_ok i (find? (order_is i) w.db.orders) (find? (payment_of i) w.db.payments)
      (lookup (pay i) w.psp.charges) (is_none (lookup (refund_of (pay i)) w.psp.refunds))
    ≡ true

-- A flush of an order or a payment is seen under its own id and under no other.
pub find?-save_order :
    (i : ℕ) (o : Order) (os : List Order)
    → find? (order_is i) (update_where (order_is o.id) (λ q. o) os) ≡ (
        if o.id == i
        then elim (find? (order_is i) os) [ none ↦ none | some q ↦ some o ]
        else find? (order_is i) os)
find?-save_order i o [] = ground arith
find?-save_order i o (q ∷ os) = ground (arith, find?-save_order i o os)

pub find?-save_payment :
    (i : ℕ) (p : Payment) (ps : List Payment)
    → find? (payment_of i) (update_where (payment_of p.order_id) (λ q. p) ps) ≡ (
        if p.order_id == i
        then elim (find? (payment_of i) ps) [ none ↦ none | some q ↦ some p ]
        else find? (payment_of i) ps)
find?-save_payment i p [] = ground arith
find?-save_payment i p (q ∷ ps) = ground (arith, find?-save_payment i p ps)
