-- ===== src/Inventory/GaService/Replay.antt =====
-- Idempotency of a reservation: a request that is sent again.
use arena_onsale.Prelude.{
  ℕ, zero, suc, ◌+◌, ◌≡◌, refl, Bool, true, false, ◌||◌, arith, inl, inr, Option-cases, Option,
  none, some, ltb, [],
}
use arena_onsale.Prelude.Text.{eq_iff}
use arena_onsale.Settings.{Settings}
use arena_onsale.Tables.{Db, GaReservation}
use arena_onsale.Inventory.GaStock.{
  ClaimResult, outcome, claimed, missing, insufficient, conflict, integrity_error, claim,
  write_claim, pool_of,
}
use arena_onsale.Prelude.Query.{find?}
use arena_onsale.Inventory.GaService.{
  Surroundings, GaRequest, Reserved, ok, reserve, try_claims, after_claim, new_reservation,
  existing,
}

-- What a granted reservation has left behind.
abbrev Granted : GaRequest → GaReservation → Db → Type 0
Granted rq r db = (existing rq.idempotency_key db ≡ some r) × (r.session_id ≡ rq.session_id)

abbrev Allowed : Settings → GaRequest → Type 0
Allowed s rq = (ltb rq.quantity 1 || ltb s.ga_max_quantity rq.quantity) ≡ false

claim-Granted :
    (between : Db → Db) (rq : GaRequest) (r : GaReservation) (db : Db)
    → r.idempotency_key ≡ rq.idempotency_key
    → r.session_id ≡ rq.session_id
    → (claim between rq.match_id rq.quantity r db).0 ≡ outcome claimed
    → Granted rq r (claim between rq.match_id rq.quantity r db).1
unfolding claim write_claim existing
claim-Granted between rq r db ek es h =
    elim (Option-cases (find? (pool_of rq.match_id) db.ga_inventory)) [
      | inl e ↦ ground arith
      | inr (g, e) ↦ ground (arith, eq_iff r.idempotency_key rq.idempotency_key)
    ]

after_claim-Granted :
    (rq : GaRequest) (o : ClaimResult) (r g : GaReservation) (db : Db) (again : Bool)
    (delay : Option ℕ) (rest : Reserved)
    → (o ≡ outcome claimed → Granted rq r db)
    → (rest.result ≡ ok g true → Granted rq g rest.db)
    → (after_claim o r db again delay rest).result ≡ ok g true
    → Granted rq g (after_claim o r db again delay rest).db
unfolding after_claim
after_claim-Granted rq (outcome claimed) r g db again delay rest h k e = ground (arith, h refl)
after_claim-Granted rq (outcome missing) r g db again delay rest h k e = cc
after_claim-Granted rq (outcome insufficient) r g db again delay rest h k e = cc
after_claim-Granted rq (outcome conflict) r g db true none rest h k e = cc
after_claim-Granted rq (outcome conflict) r g db true (some x) rest h k e = k e
after_claim-Granted rq (outcome conflict) r g db false delay rest h k e = k e
after_claim-Granted rq integrity_error r g db again delay rest h k e = cc

module _ (w : Surroundings) (s : Settings) (rq : GaRequest) where
  try_claims-Granted :
      (g : GaReservation) (rounds i : ℕ) (db : Db)
      → (try_claims w s rq rounds i db).result ≡ ok g true
      → Granted rq g (try_claims w s rq rounds i db).db
  unfolding try_claims
  try_claims-Granted g zero i db e = cc
  try_claims-Granted g (suc rounds) i db e =
      after_claim-Granted rq _ _ g _ _ _ _
        (claim-Granted (w.between i) rq (new_reservation s rq (w.new_id i) (w.now i)) db refl refl)
        (try_claims-Granted g rounds (i + 1) _) e

  reserve-Granted :
      (g : GaReservation) (db : Db)
      → (reserve w s rq db).result ≡ ok g true
      → Allowed s rq × Granted rq g (reserve w s rq db).db
  unfolding reserve
  reserve-Granted g db e = elim (Option-cases (existing rq.idempotency_key db)) [
    | inl fresh ↦ ground (arith, try_claims-Granted g s.ga_max_attempts 0 db)
    | inr (r, found) ↦ ground arith
  ]

  reserve_again :
      (g : GaReservation) (db : Db)
      → Allowed s rq
      → Granted rq g db
      → reserve w s rq db ≡ record { result = ok g false; delays = []; db = db }
  unfolding reserve
  reserve_again g db a h = ground (arith, eq_iff g.session_id rq.session_id)

-- A request that was granted and is sent again, at any later time and whatever the generator and
-- the other transactions would do, gets the same reservation as a replay and changes nothing.
pub reserve-reserve_ga :
    (w w' : Surroundings) (s : Settings) (rq : GaRequest) (g : GaReservation) (db : Db)
    → (reserve w s rq db).result ≡ ok g true
    → reserve w' s rq (reserve w s rq db).db
      ≡ record { result = ok g false; delays = []; db = (reserve w s rq db).db }
reserve-reserve_ga w w' s rq g db e =
    let h = reserve-Granted w s rq g db e in reserve_again w' s rq g (reserve w s rq db).db h.0 h.1
