-- ===== src/Inventory/GaService/Refused.antt =====
-- What a general-admission request that fails leaves in the tables.
use arena_onsale.Prelude.{
  ℕ, zero, suc, ◌+◌, ◌≡◌, refl, Bool, true, false, Option, none, some, arith, inl, inr, ◌⊎◌,
  Option-cases, Bool-cases, sym, ap, ◌∙◌, if◌then◌else◌, ltb, ◌||◌,
}
use arena_onsale.Settings.{Settings}
use arena_onsale.Tables.{Db, GaReservation}
use arena_onsale.Inventory.GaStock.{
  ClaimResult, outcome, claimed, missing, insufficient, conflict, integrity_error, claim,
  write_claim,
}
use arena_onsale.Inventory.GaService.{
  Surroundings, GaRequest, GaError, err, Reserved, reserve, try_claims, after_claim, slept,
  new_reservation, existing,
}

-- What the others alone can make of a database, in the gaps that a request leaves them.
pub data ByOthers (w : Surroundings) : Db → Db → Type 0 where
  stays : {db : Db} → ByOthers w db db
  in_between : (i : ℕ) {a b : Db} → ByOthers w (w.between i a) b → ByOthers w a b
  in_sleep : (i : ℕ) {a b : Db} → ByOthers w (w.while_asleep i a) b → ByOthers w a b

module _ (w : Surroundings) where
  ByOthers-then : {a b c : Db} → ByOthers w a b → ByOthers w b c → ByOthers w a c
  ByOthers-then stays q = q
  ByOthers-then (in_between i p) q = in_between i (ByOthers-then p q)
  ByOthers-then (in_sleep i p) q = in_sleep i (ByOthers-then p q)

  one_gap : (i : ℕ) (a b : Db) → (b ≡ a) ⊎ (b ≡ w.between i a) → ByOthers w a b
  one_gap i a b (inl e) = rw e stays
  one_gap i a b (inr e) = rw e (in_between i stays)

  after_sleep :
      (again : Bool) (i : ℕ) (a : Db) → ByOthers w a (if again then w.while_asleep i a else a)
  after_sleep true i a = in_sleep i stays
  after_sleep false i a = stays

abbrev is_claimed : ClaimResult → Bool
is_claimed (outcome claimed) = true
is_claimed _ = false

claim-unclaimed :
    (between : Db → Db) (m q : ℕ) (r : GaReservation) (db : Db)
    → is_claimed (claim between m q r db).0 ≡ false
    → ((claim between m q r db).1 ≡ db) ⊎ ((claim between m q r db).1 ≡ between db)
unfolding claim write_claim
claim-unclaimed between m q r db e = ground (arith, e)

module _ (w : Surroundings) (s : Settings) (rq : GaRequest) where
  after_claim-err :
      (e : GaError) (o : ClaimResult) (r : GaReservation) (db : Db) (again : Bool)
      (delay : Option ℕ) (rest : Reserved) (before : Db)
      → (is_claimed o ≡ false → ByOthers w before db)
      → (rest.result ≡ err e → is_claimed o ≡ false → ByOthers w before rest.db)
      → (after_claim o r db again delay rest).result ≡ err e
      → ByOthers w before (after_claim o r db again delay rest).db
  unfolding after_claim slept
  after_claim-err e (outcome claimed) r db again delay rest before h k x = cc
  after_claim-err e (outcome missing) r db again delay rest before h k x = h refl
  after_claim-err e (outcome insufficient) r db again delay rest before h k x = h refl
  after_claim-err e (outcome conflict) r db true none rest before h k x = h refl
  after_claim-err e (outcome conflict) r db true (some t) rest before h k x = k x refl
  after_claim-err e (outcome conflict) r db false delay rest before h k x = k x refl
  after_claim-err e integrity_error r db again delay rest before h k x = h refl

  try_claims-err :
      (e : GaError) (rounds i : ℕ) (db : Db)
      → (try_claims w s rq rounds i db).result ≡ err e
      → ByOthers w db (try_claims w s rq rounds i db).db
  unfolding try_claims
  try_claims-err e zero i db x = stays
  try_claims-err e (suc rounds) i db x =
      let r = new_reservation s rq (w.new_id i) (w.now i) in
      let (o, db') = claim (w.between i) rq.match_id rq.quantity r db in
      let again = ltb (i + 1) s.ga_max_attempts in
      let gap = λ (u : is_claimed o ≡ false).
        one_gap w i db db' (claim-unclaimed (w.between i) rq.match_id rq.quantity r db u) in
      after_claim-err e _ _ _ _ _ _ db gap
        (λ y u.
          ByOthers-then w (ByOthers-then w (gap u) (after_sleep w again i db'))
            (try_claims-err e rounds (i + 1) (if again then w.while_asleep i db' else db') y))
        x

  -- A request that fails, at once or after its attempts, has written nothing: the tables are what the
  -- others have made of them in the gaps of its attempts and while it slept.
  pub reserve-ByOthers :
      (e : GaError) (db : Db)
      → (reserve w s rq db).result ≡ err e
      → ByOthers w db (reserve w s rq db).db
  unfolding reserve
  reserve-ByOthers e db x =
      elim (Bool-cases (ltb rq.quantity 1 || ltb s.ga_max_quantity rq.quantity)) [
        | inl bad ↦ rw bad stays
        | inr fine ↦ elim (Option-cases (existing rq.idempotency_key db)) [
          | inl fresh ↦
              let new : reserve w s rq db ≡ try_claims w s rq s.ga_max_attempts 0 db =
                rw fine (rw fresh refl) in
              rw new (try_claims-err e s.ga_max_attempts 0 db (sym (ap (λ t. t.result) new) ∙ x))
          | inr (r, found) ↦ let same : (reserve w s rq db).db ≡ db = ground arith in rw same stays
        ]
      ]
