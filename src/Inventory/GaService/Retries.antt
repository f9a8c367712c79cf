-- ===== src/Inventory/GaService/Retries.antt =====
-- The retries of a reservation: how often and how long it sleeps.
use arena_onsale.Prelude.{
  ℕ, zero, suc, ◌+◌, ◌≤◌, ◌-◌, ◌≡◌, refl, Bool, true, false, arith, inl, inr, Option-cases, Option,
  List, none, some, if◌then◌else◌, ltb, length, All,
}
use arena_onsale.Settings.{Settings}
use arena_onsale.Tables.{Db, GaReservation}
use arena_onsale.Inventory.GaStock.{
  ClaimResult, outcome, claimed, missing, insufficient, conflict, integrity_error,
}
use arena_onsale.Inventory.GaService.{
  Surroundings, GaRequest, Reserved, reserve, try_claims, after_claim, existing, jitter_delay_ms,
}

-- `random.uniform(a, b)` lies between its ends.
abbrev pub IsUniform : Surroundings → Type 0
IsUniform w = (i a b : ℕ) → a ≤ b → (a ≤ w.uniform i a b) × (w.uniform i a b ≤ b)

abbrev pub InWindow : Settings → ℕ → Type 0
InWindow s d = (s.ga_retry_min_ms ≤ d) × (d ≤ s.ga_retry_max_ms)

-- At most `n` sleeps, each inside the window.
abbrev pub SleepsWell : Settings → ℕ → List ℕ → Type 0
SleepsWell s n ds = (length ds ≤ n) × All (InWindow s) ds

abbrev DelayOk : Settings → Option ℕ → Type 0
DelayOk s none = Unit {0}
DelayOk s (some d) = InWindow s d

jitter_delay_ms-DelayOk :
    (w : Surroundings) (s : Settings) (i : ℕ)
    → IsUniform w
    → DelayOk s (jitter_delay_ms s.ga_retry_min_ms s.ga_retry_max_ms (w.uniform i))
unfolding jitter_delay_ms
jitter_delay_ms-DelayOk w s i u = ground (arith, u i s.ga_retry_min_ms s.ga_retry_max_ms)

SleepsWell-mono :
    (s : Settings) (m n : ℕ) (ds : List ℕ) → m ≤ n → SleepsWell s m ds → SleepsWell s n ds
SleepsWell-mono s m n ds h k = (omega (arith, k.0), k.1)

after_claim-SleepsWell :
    (s : Settings) (n : ℕ) (o : ClaimResult) (r : GaReservation) (db : Db) (again : Bool)
    (delay : Option ℕ) (rest : Reserved)
    → DelayOk s delay
    → (again ≡ true → SleepsWell s n rest.delays)
    → (again ≡ false → SleepsWell s 0 rest.delays)
    → SleepsWell s (if again then suc n else 0) (after_claim o r db again delay rest).delays
unfolding after_claim
after_claim-SleepsWell s n (outcome claimed) r db again delay rest d h k = (omega arith, tt)
after_claim-SleepsWell s n (outcome missing) r db again delay rest d h k = (omega arith, tt)
after_claim-SleepsWell s n (outcome insufficient) r db again delay rest d h k = (omega arith, tt)
after_claim-SleepsWell s n (outcome conflict) r db true none rest d h k = (omega arith, tt)
after_claim-SleepsWell s n (outcome conflict) r db true (some x) rest d h k =
    let g : SleepsWell s n rest.delays = h refl in (omega (arith, g.0), (d, g.1))
after_claim-SleepsWell s n (outcome conflict) r db false delay rest d h k = k refl
after_claim-SleepsWell s n integrity_error r db again delay rest d h k = (omega arith, tt)

module _ (w : Surroundings) (s : Settings) (rq : GaRequest) (u : IsUniform w) where
  -- one sleep less than the rounds left
  try_claims-SleepsWell :
      (rounds i : ℕ) (db : Db)
      → i + rounds ≡ s.ga_max_attempts
      → SleepsWell s (rounds - 1) (try_claims w s rq rounds i db).delays
  unfolding try_claims
  try_claims-SleepsWell zero i db e = (omega arith, tt)
  try_claims-SleepsWell (suc rounds) i db e = SleepsWell-mono s _ _ _ (ground arith) (
      after_claim-SleepsWell s (rounds - 1) _ _ _ _ _ _ (jitter_delay_ms-DelayOk w s i u)
        (λ _. try_claims-SleepsWell rounds (i + 1) _ (omega arith))
        (λ (no_more : ltb (i + 1) s.ga_max_attempts ≡ false).
          SleepsWell-mono s _ _ _ (ground arith)
            (try_claims-SleepsWell rounds (i + 1) _ (omega arith))))

  -- A reservation sleeps at most once less than it may try, and each delay lies in the window.
  pub reserve-SleepsWell :
      (db : Db) → SleepsWell s (s.ga_max_attempts - 1) (reserve w s rq db).delays
  unfolding reserve
  reserve-SleepsWell db = elim (Option-cases (existing rq.idempotency_key db)) [
    | inl e ↦ ground (arith, try_claims-SleepsWell s.ga_max_attempts 0 db)
    | inr (r, e) ↦ ground arith
  ]
