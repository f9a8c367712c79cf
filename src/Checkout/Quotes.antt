-- ===== src/Checkout/Quotes.antt =====
-- src/arena_onsale/checkout/service.py: what a reservation costs, `_quote`.
use arena_onsale.Prelude.{ℕ, ◌*◌, String, Bool, ◌&&◌, none, some, if◌then◌else◌, ltb, ◌==◌}
use arena_onsale.Prelude.Query.{find?, count_where}
use arena_onsale.Prelude.Text.{str_eq}
use arena_onsale.Settings.{Settings}
use arena_onsale.Tables.{Db, HoldStatus, is_active}
use arena_onsale.Inventory.Holds.{hold_is, held_by}
use arena_onsale.Checkout.Finalizer.{reservation_is}
use arena_onsale.Checkout.Orders.{
  CheckoutRequest, CheckoutError, reservation_not_found, reservation_not_active,
}

-- `_usable`
unfoldable pub usable : HoldStatus → String → ℕ → String → ℕ → Bool
usable status owner expires_at session_id now =
    is_active status && (str_eq owner session_id && ltb now expires_at)

pub data Quote : Type 0 where
  quoted : ℕ → ℕ → Quote
  refused : CheckoutError → Quote

unfoldable pub quote_hold : Settings → ℕ → String → ℕ → Db → Quote
unfolding usable
quote_hold s now session_id i db = elim (find? (hold_is i) db.holds) [
  | none ↦ refused reservation_not_found
  | some h ↦
      if usable h.status h.session_id h.expires_at session_id now
      then (let count = count_where (held_by i) db.seats in
          if count == 0
          then refused reservation_not_active
          else quoted h.match_id (count * s.ticket_price_cents))
      else refused reservation_not_active
]

unfoldable pub quote_ga : Settings → ℕ → String → ℕ → Db → Quote
unfolding usable
quote_ga s now session_id i db = elim (find? (reservation_is i) db.ga_reservations) [
  | none ↦ refused reservation_not_found
  | some r ↦
      if usable r.status r.session_id r.expires_at session_id now
      then quoted r.match_id (r.quantity * s.ticket_price_cents)
      else refused reservation_not_active
]

-- `_quote`; with neither id the reservation is looked up under `None` and is not found
unfoldable pub quote : Settings → ℕ → CheckoutRequest → Db → Quote
unfolding quote_hold quote_ga
quote s now rq db = elim rq.hold_id [
  | some i ↦ quote_hold s now rq.session_id i db
  | none ↦ elim rq.ga_reservation_id [
    | some i ↦ quote_ga s now rq.session_id i db
    | none ↦ refused reservation_not_found
  ]
]
