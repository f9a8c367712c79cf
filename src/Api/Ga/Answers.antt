-- ===== src/Api/Ga/Answers.antt =====
-- What the answers to a general-admission request promise.
use arena_onsale.Prelude.{
  ℕ, ◌≡◌, refl, true, false, not, ◌&&◌, Option, [], arith, inl, inr, ap, sym, ◌∙◌, is_none,
  Bool-cases, String,
}
use arena_onsale.Prelude.Text.{strip, is_empty_text}
use arena_onsale.Settings.{Settings}
use arena_onsale.Tables.{Db, GaReservation}
use arena_onsale.WaitingRoom.Store.{WaitingRoomStore}
use arena_onsale.Admission.{require_admission}
use arena_onsale.Inventory.GaService.{
  Surroundings, GaError, GaResult, ok, err, ga_quantity, hold_conflict, ga_not_found,
  ga_unavailable, bad_window, ga_integrity, reserve,
}
use arena_onsale.Inventory.GaService.Refused.{ByOthers, stays, reserve-ByOthers}
use arena_onsale.Inventory.GaService.Replay.{reserve-reserve_ga}
use arena_onsale.Api.{replied, is_refusal}
use arena_onsale.Api.Refusals.{admitted-refused}
use arena_onsale.Api.Schemas.{CreateGaReservationRequest, ga_fits, header_or_empty}
use arena_onsale.Api.Ga.{
  GaReservationResponse, response, answer_ga, ga_request, create_ga_reservation,
  post_ga_reservation,
}

answer_ga-refused : (r : GaResult) → is_refusal (answer_ga r) ≡ true → (e : GaError) × (r ≡ err e)
unfolding answer_ga
answer_ga-refused (ok r true) e = cc
answer_ga-refused (ok r false) e = cc
answer_ga-refused (err x) e = (x, refl)

answer_ga-created :
    (r : GaResult) (a : GaReservationResponse)
    → answer_ga r ≡ replied 201 a
    → (g : GaReservation) × (r ≡ ok g true) × (a ≡ response g)
unfolding answer_ga
answer_ga-created (ok g true) a e = (g, refl, ground arith)
answer_ga-created (ok g false) a e = absurd (ground arith)
answer_ga-created (err (ga_quantity n k)) a e = cc
answer_ga-created (err ga_not_found) a e = cc
answer_ga-created (err ga_unavailable) a e = cc
answer_ga-created (err hold_conflict) a e = cc
answer_ga-created (err bad_window) a e = cc
answer_ga-created (err ga_integrity) a e = cc

-- with a key that is not blank the service is asked
handled :
    (w : Surroundings) (cfg : Settings) (m : ℕ) (b : CreateGaReservationRequest) (db : Db)
    (key : String)
    → is_empty_text (strip key) ≡ false
    → let done = reserve w cfg (ga_request m b key) db in
      create_ga_reservation w cfg m b key db ≡ (answer_ga done.result, done.db)
unfolding create_ga_reservation
handled w cfg m b db key given = rw given refl

again :
    (w : Surroundings) (cfg : Settings) (m : ℕ) (b : CreateGaReservationRequest) (db : Db)
    (key : String) (g : GaReservation)
    → is_empty_text (strip key) ≡ false
    → reserve w cfg (ga_request m b key) db ≡ record { result = ok g false; delays = []; db = db }
    → create_ga_reservation w cfg m b key db ≡ (replied 200 (response g), db)
unfolding create_ga_reservation answer_ga
again w cfg m b db key g given e = rw given (rw e refl)

module _ (w : Surroundings) (cfg : Settings) (m : ℕ) (b : CreateGaReservationRequest)
    (db : Db) where
  blank_key :
      (key : String) (a : GaReservationResponse)
      → is_empty_text (strip key) ≡ true
      → (create_ga_reservation w cfg m b key db).0 ≡ replied 201 a
      → ⊥
  unfolding create_ga_reservation
  blank_key key a blank e = ground arith

  create_ga-refused :
      (key : String)
      → is_refusal (create_ga_reservation w cfg m b key db).0 ≡ true
      → ByOthers w db (create_ga_reservation w cfg m b key db).1
  unfolding create_ga_reservation
  create_ga-refused key e = elim (Bool-cases (is_empty_text (strip key))) [
    | inl blank ↦ rw blank stays
    | inr given ↦
        let (x, failed) =
          answer_ga-refused (reserve w cfg (ga_request m b key) db).result (ground arith) in
        rw given (reserve-ByOthers w cfg (ga_request m b key) x db failed)
  ]

  -- A general-admission request that is refused with whatever status has written nothing: the tables
  -- are what the others have made of them.
  pub post_ga_reservation-refused :
      (rooms : WaitingRoomStore) (now : ℕ) (token key : Option String) (room : rooms.State)
      → let (r, room', db') = post_ga_reservation rooms w cfg now token m b key room db in
        is_refusal r ≡ true → ByOthers w db db'
  unfolding post_ga_reservation
  post_ga_reservation-refused rooms now token key room =
      admitted-refused (ByOthers w db) (require_admission rooms now token room)
        (ga_fits b && not (is_none key)) db
        (create_ga_reservation w cfg m b (header_or_empty key) db) stays
        (create_ga-refused (header_or_empty key))

  -- A reservation answered with 201 and asked for again is answered with 200 and the same body, and
  -- nothing is written.
  pub create_ga-create_ga :
      (w' : Surroundings) (key : String) (a : GaReservationResponse)
      → let (r, db') = create_ga_reservation w cfg m b key db in
        r ≡ replied 201 a → create_ga_reservation w' cfg m b key db' ≡ (replied 200 a, db')
  create_ga-create_ga w' key a e = elim (Bool-cases (is_empty_text (strip key))) [
    | inl blank ↦ absurd (blank_key key a blank e)
    | inr given ↦
        let rq = ga_request m b key in
        let done = handled w cfg m b db key given in
        let (g, made, shown) =
          answer_ga-created (reserve w cfg rq db).result a (sym (ap (λ t. t.0) done) ∙ e) in
        rw done (
          rw shown (
            again w' cfg m b (reserve w cfg rq db).db key g given
              (reserve-reserve_ga w w' cfg rq g db made)))
  ]
