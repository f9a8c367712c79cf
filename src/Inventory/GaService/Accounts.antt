-- ===== src/Inventory/GaService/Accounts.antt =====
-- The accounts of a pool across the retries of a reservation.
use arena_onsale.Prelude.{
  ℕ, zero, suc, ◌+◌, refl, Bool, true, false, arith, inl, inr, Option-cases, Option, none, some,
  if◌then◌else◌,
}
use arena_onsale.Settings.{Settings}
use arena_onsale.Tables.{Db, GaReservation}
use arena_onsale.Inventory.GaStock.{
  ClaimResult, claim, outcome, claimed, missing, insufficient, conflict, integrity_error,
}
use arena_onsale.Inventory.GaStock.Accounts.{IsConserved, claim-IsConserved}
use arena_onsale.Inventory.GaService.{
  Surroundings, GaRequest, Reserved, reserve, try_claims, after_claim, new_reservation, existing,
}

-- What others commit meanwhile keeps the accounts of the pool.
pub record Keeps (m : ℕ) (w : Surroundings) : Type 0 where
  pub claim_keeps : (i : ℕ) (db : Db) → IsConserved m db → IsConserved m (w.between i db)
  pub sleep_keeps : (i : ℕ) (db : Db) → IsConserved m db → IsConserved m (w.while_asleep i db)

after_claim-IsConserved :
    (m : ℕ) (o : ClaimResult) (r : GaReservation) (db : Db) (again : Bool) (delay : Option ℕ)
    (rest : Reserved)
    → IsConserved m db
    → IsConserved m rest.db
    → IsConserved m (after_claim o r db again delay rest).db
unfolding after_claim
after_claim-IsConserved m (outcome claimed) r db again delay rest c d = c
after_claim-IsConserved m (outcome missing) r db again delay rest c d = c
after_claim-IsConserved m (outcome insufficient) r db again delay rest c d = c
after_claim-IsConserved m (outcome conflict) r db true none rest c d = c
after_claim-IsConserved m (outcome conflict) r db true (some x) rest c d = d
after_claim-IsConserved m (outcome conflict) r db false delay rest c d = d
after_claim-IsConserved m integrity_error r db again delay rest c d = c

module _ (m : ℕ) (w : Surroundings) (s : Settings) (rq : GaRequest) (k : Keeps m w) where
  awake :
      (b : Bool) (i : ℕ) (db : Db)
      → IsConserved m db
      → IsConserved m (if b then w.while_asleep i db else db)
  awake true i db c = k.sleep_keeps i db c
  awake false i db c = c

  try_claims-IsConserved :
      (rounds i : ℕ) (db : Db) → IsConserved m db → IsConserved m (try_claims w s rq rounds i db).db
  unfolding try_claims
  try_claims-IsConserved zero i db c = c
  try_claims-IsConserved (suc rounds) i db c =
      after_claim-IsConserved m _ _ _ _ _ _ kept
        (try_claims-IsConserved rounds (i + 1) _ (awake _ i _ kept))
    where
      kept :
          IsConserved m
            (claim
              (w.between i)
              rq.match_id
              rq.quantity
              (new_reservation s rq (w.new_id i) (w.now i))
              db).1
      kept = claim-IsConserved (w.between i) m _ _ _ db refl refl refl (k.claim_keeps i db c) c

  -- Reserving keeps the accounts of every pool on every path: refused, replayed, granted, sold out,
  -- and after any number of lost races, if the others keep them.
  pub reserve-IsConserved : (db : Db) → IsConserved m db → IsConserved m (reserve w s rq db).db
  unfolding reserve
  reserve-IsConserved db c = elim (Option-cases (existing rq.idempotency_key db)) [
    | inl e ↦ ground (arith, try_claims-IsConserved s.ga_max_attempts 0 db c)
    | inr (r, e) ↦ ground arith
  ]
