-- ===== src/Tests/Answers.antt =====
-- The answers to general-admission requests and checkouts at concrete inputs.
use arena_onsale.Prelude.{◌≡◌, refl, none, some, []}
use arena_onsale.Prelude.Text.{strip}
use arena_onsale.Settings.{default_settings}
use arena_onsale.WaitingRoom.Memory.{memory_store}
use arena_onsale.Admission.{require_admission}
use arena_onsale.Inventory.GaStock.{claim, write_claim}
use arena_onsale.Inventory.GaService.{reserve, try_claims, existing, new_reservation, after_claim}
use arena_onsale.Inventory.GaService.Refused.{ByOthers}
use arena_onsale.Inventory.Holds.{seats_for_hold}
use arena_onsale.Checkout.Finalizer.{confirm_assigned}
use arena_onsale.Checkout.Psp.{charge}
use arena_onsale.Checkout.Orders.{order_fits, ensure_payment, Environment, new_order}
use arena_onsale.Checkout.Quotes.{quote}
use arena_onsale.Checkout.Service.{
  checkout, place, resume, pay_order, after_charge, finish, finalize, settle_order,
  confirm_reservation,
}
use arena_onsale.Checkout.Service.Frames.{LeavesBooks}
use arena_onsale.Api.{replied, admitted}
use arena_onsale.Api.Schemas.{CreateGaReservationRequest, CheckoutBody}
use arena_onsale.Api.Ga.{
  GaReservationResponse, post_ga_reservation, create_ga_reservation, answer_ga, response,
}
use arena_onsale.Api.Ga.Answers.{post_ga_reservation-refused, create_ga-create_ga}
use arena_onsale.Api.Checkout
use arena_onsale.Api.Checkout.{
  CheckoutResponse, create_checkout, get_order, answer_checkout, checkout_request, booking_lost,
}
use arena_onsale.Api.Checkout.Answers.{create_checkout-create_checkout}
use arena_onsale.Tests.Data.{ga_db, quiet}
use arena_onsale.Tests.Room.{room}
use arena_onsale.Tests.Money.{world, alone}

abbrev two_tickets : CreateGaReservationRequest
two_tickets = record { session_id = "rahul"; quantity = 2 }

abbrev kept_two : GaReservationResponse
kept_two = record {
  id = 100;
  match_id = 1;
  quantity = 2;
  status = "ACTIVE";
  expires_at = 600_000_005;
}

post_ga_reservation-refused_example :
    ByOthers quiet ga_db
      (post_ga_reservation memory_store quiet default_settings 5 none 1 two_tickets none room
        ga_db).2
unfolding post_ga_reservation admitted require_admission
post_ga_reservation-refused_example =
    post_ga_reservation-refused quiet default_settings 1 two_tickets ga_db memory_store 5 none none
      room refl

create_ga-create_ga_example :
    let db' = (create_ga_reservation quiet default_settings 1 two_tickets "ga-9" ga_db).1 in
    create_ga_reservation quiet default_settings 1 two_tickets "ga-9" db'
    ≡ (replied 200 kept_two, db')
unfolding create_ga_reservation answer_ga response reserve existing try_claims new_reservation
    after_claim claim write_claim strip
create_ga-create_ga_example =
    create_ga-create_ga quiet default_settings 1 two_tickets ga_db quiet "ga-9" kept_two refl

abbrev pays : CheckoutBody
pays = record { session_id = "priya"; hold_id = some 50; ga_reservation_id = none }

abbrev bought : CheckoutResponse
bought = record {
  id = 80;
  status = "CONFIRMED";
  amount_cents = 30_000;
  currency = "INR";
  created_at = 6;
}

leaves : LeavesBooks alone
leaves = record {
  paying = λ db. record { orders = refl; payments = refl };
  confirming = λ i db. record { orders = refl; payments = refl };
  rolling_back = λ db. record { orders = refl; payments = refl };
}

create_checkout-create_checkout_example :
    let w' = (create_checkout alone default_settings pays "co-1" world).1 in
    (bought.status ≡ "CONFIRMED")
    × (create_checkout alone default_settings pays "co-1" w' ≡ (replied 200 bought, w'))
    × (get_order 80 w'.db ≡ replied 200 bought)
unfolding create_checkout answer_checkout Checkout.response checkout place quote order_fits
    new_order resume pay_order ensure_payment after_charge charge finish finalize settle_order
    confirm_reservation confirm_assigned seats_for_hold strip
create_checkout-create_checkout_example =
    create_checkout-create_checkout alone default_settings pays "co-1" world alone bought
      (record { leaves_books = leaves; no_payment = refl }) refl

-- while the card is charged, the worker takes the hold away
abbrev too_late : Environment
too_late = record alone { while_paying = λ db. record db { holds = [] } }
