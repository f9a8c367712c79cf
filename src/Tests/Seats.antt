-- ===== src/Tests/Seats.antt =====
-- Seat locks, holds and the finalizer at concrete inputs.
use arena_onsale.Prelude.{refl, List, [], ◌∷◌, arith}
use arena_onsale.Settings.{default_settings}
use arena_onsale.Tables.{Db}
use arena_onsale.Inventory.Locking.{ordered_seat_ids, acquire_all}
use arena_onsale.Inventory.Locking.RedisGate.{LockKey, redis_gate}
use arena_onsale.Inventory.Locking.AllOrNone.{acquire_all_lem, AllOrNone}
use arena_onsale.Inventory.Holds.{seats_for_hold, HoldRequest, reserve}
use arena_onsale.Inventory.Holds.Seats.{IsConsistent, reserve-IsConsistent}
use arena_onsale.Checkout.Finalizer.{confirm_assigned, release_assigned}
use arena_onsale.Checkout.Finalizer.Pending.{undisturbed}
use arena_onsale.Checkout.Finalizer.Seats.{Confirmed, confirm_assigned-Confirmed, UniqueSeats}
use arena_onsale.Checkout.Finalizer.Release.{Released, release_assigned-Released}
use arena_onsale.Tests.Data.{seat_db}

-- somebody else has the lock of seat 2
abbrev key_two : LockKey
key_two = record { match_id = 1; seat_id = 2; token = 9; ttl_seconds = 600 }

abbrev locks : List LockKey
locks = key_two ∷ []

acquire_all_lem_example :
    let (got, s') = acquire_all redis_gate 1 (3 ∷ 1 ∷ []) 50 600 locks in
    AllOrNone redis_gate 1 50 600 (ordered_seat_ids (3 ∷ 1 ∷ [])) locks got s'
acquire_all_lem_example = acquire_all_lem redis_gate 1 50 600 (3 ∷ 1 ∷ []) locks

abbrev calm : Db → Db
calm db = db

abbrev third : HoldRequest
third = record { match_id = 1; seat_ids = 3 ∷ []; session_id = "rahul"; idempotency_key = "hold-2" }

abbrev taken : HoldRequest
taken = record {
  match_id = 1;
  seat_ids = 3 ∷ 1 ∷ [];
  session_id = "rahul";
  idempotency_key = "hold-3";
}

reserve-IsConsistent_example :
    IsConsistent (reserve redis_gate calm default_settings third 60 5 [] seat_db).2
reserve-IsConsistent_example =
    reserve-IsConsistent redis_gate calm default_settings third 60 5 [] seat_db refl
      (refl, (refl, (refl, tt))) (refl, (refl, (refl, tt)))

unique_seats : UniqueSeats seat_db.seats
unique_seats i = ground arith

confirm_assigned-Confirmed_example : Confirmed 50 (confirm_assigned undisturbed 50 seat_db).1
unfolding confirm_assigned seats_for_hold
confirm_assigned-Confirmed_example =
    confirm_assigned-Confirmed 50 seat_db unique_seats (refl, (refl, (refl, tt))) refl

release_assigned-Released_example : Released seat_db (release_assigned undisturbed 50 seat_db).1
release_assigned-Released_example = release_assigned-Released 50 seat_db (refl, (refl, (refl, tt)))
