-- ===== src/Inventory/GaService.antt =====
-- src/arena_onsale/inventory/ga_service.py and retry.py: reserve general-admission tickets with
-- jittered retries. The delays that the sleeper was asked for are part of the result, in
-- milliseconds.
pub mod Retries
pub mod Replay
pub mod Accounts
pub mod Refused
use arena_onsale.Prelude.{
  ℕ, zero, suc, ◌+◌, String, Bool, true, false, not, ◌||◌, Option, none, some, List, [], ◌∷◌,
  if◌then◌else◌, ltb, ◌==◌,
}
use arena_onsale.Prelude.Query.{find?}
use arena_onsale.Prelude.Text.{str_eq}
use arena_onsale.Settings.{Settings, seconds}
use arena_onsale.Tables.{Db, GaReservation, active}
use arena_onsale.Inventory.GaStock.{
  ClaimResult, claimed, missing, insufficient, conflict, outcome, integrity_error, claim, has_key,
}

-- What the outside decides, attempt by attempt: what others commit during the claim and while this
-- request sleeps, the id and the time of the new reservation, and the draw of the generator.
pub record Surroundings : Type 0 where
  pub between : ℕ → Db → Db
  pub while_asleep : ℕ → Db → Db
  pub new_id : ℕ → ℕ
  pub now : ℕ → ℕ
  pub uniform : ℕ → ℕ → ℕ → ℕ

pub record GaRequest : Type 0 where
  pub match_id : ℕ
  pub quantity : ℕ
  pub session_id : String
  pub idempotency_key : String

pub data GaError : Type 0 where
  ga_quantity : ℕ → ℕ → GaError
  hold_conflict ga_not_found ga_unavailable bad_window ga_integrity : GaError

pub data GaResult : Type 0 where
  ok : GaReservation → Bool → GaResult
  err : GaError → GaResult

pub record Reserved : Type 0 where
  pub result : GaResult
  pub delays : List ℕ
  pub db : Db

-- `jitter_delay_seconds`: no delay if the window is inverted, a `ValueError`.
unfoldable pub jitter_delay_ms : ℕ → ℕ → (ℕ → ℕ → ℕ) → Option ℕ
jitter_delay_ms min_ms max_ms uniform =
    if ltb max_ms min_ms then none else some (uniform min_ms max_ms)

unfoldable pub new_reservation : Settings → GaRequest → ℕ → ℕ → GaReservation
new_reservation s rq id now = record {
  id = id;
  match_id = rq.match_id;
  session_id = rq.session_id;
  idempotency_key = rq.idempotency_key;
  quantity = rq.quantity;
  status = active;
  expires_at = now + seconds s.hold_ttl_seconds;
  created_at = now;
}

unfoldable pub slept : Option ℕ → Db → Reserved → Reserved
slept none db rest = record { result = err bad_window; delays = []; db = db }
slept (some delay) db rest = record rest { delays = delay ∷ rest.delays }

-- What an attempt does with the outcome of its claim; `rest` is the loop after the sleep.
unfoldable pub after_claim :
    ClaimResult → GaReservation → Db → Bool → Option ℕ → Reserved → Reserved
unfolding slept
after_claim (outcome claimed) r db again delay rest = record {
  result = ok r true;
  delays = [];
  db = db;
}
after_claim (outcome missing) r db again delay rest = record {
  result = err ga_not_found;
  delays = [];
  db = db;
}
after_claim (outcome insufficient) r db again delay rest = record {
  result = err ga_unavailable;
  delays = [];
  db = db;
}
after_claim (outcome conflict) r db true delay rest = slept delay db rest
after_claim (outcome conflict) r db false delay rest = rest
after_claim integrity_error r db again delay rest = record {
  result = err ga_integrity;
  delays = [];
  db = db;
}

-- The loop of `reserve`, `rounds` attempts from number `attempt` on.
unfoldable pub try_claims : Surroundings → Settings → GaRequest → ℕ → ℕ → Db → Reserved
unfolding after_claim new_reservation jitter_delay_ms
try_claims w s rq zero attempt db = record { result = err ga_unavailable; delays = []; db = db }
try_claims w s rq (suc rounds) attempt db =
    let r = new_reservation s rq (w.new_id attempt) (w.now attempt) in
    let (o, db') = claim (w.between attempt) rq.match_id rq.quantity r db in
    let again = ltb (attempt + 1) s.ga_max_attempts in
    let delay = jitter_delay_ms s.ga_retry_min_ms s.ga_retry_max_ms (w.uniform attempt) in
    let rest =
      try_claims w s rq rounds (attempt + 1) (if again then w.while_asleep attempt db' else db') in
    after_claim o r db' again delay rest

unfoldable pub existing : String → Db → Option GaReservation
existing key db = find? (has_key key) db.ga_reservations

-- `GaReservationService.reserve`
unfoldable pub reserve : Surroundings → Settings → GaRequest → Db → Reserved
unfolding existing try_claims
reserve w s rq db =
    if ltb rq.quantity 1 || ltb s.ga_max_quantity rq.quantity
    then record { result = err (ga_quantity rq.quantity s.ga_max_quantity); delays = []; db = db }
    else elim (existing rq.idempotency_key db) [
      | some r ↦
          if str_eq r.session_id rq.session_id
          then record { result = ok r false; delays = []; db = db }
          else record { result = err hold_conflict; delays = []; db = db }
      | none ↦ try_claims w s rq s.ga_max_attempts 0 db
    ]

-- `GaReservationService.get`
unfoldable pub get : ℕ → Db → Option GaReservation
get i db = find? (λ r. r.id == i) db.ga_reservations
