-- ===== src/Tests/Room.antt =====
-- The waiting room at concrete inputs.
use arena_onsale.Prelude.{some, ℕ, ◌≤◌, ◌≡◌, refl, String, [], ◌∷◌, arith, max}
use arena_onsale.Prelude.Text.{strip}
use arena_onsale.Settings.{Settings, default_settings}
use arena_onsale.Admission.{visitor, require_admission}
use arena_onsale.Admission.Tokens.{put_shopper-require_admission}
use arena_onsale.WaitingRoom.Store.{Shopper}
use arena_onsale.WaitingRoom.Memory.{
  memory_store, gc_shoppers, put_shopper, Store, shopper_count, used_in, pop_front,
  take_rate_tokens,
}
use arena_onsale.WaitingRoom.Rate.{Counter, take_tokens, incrby}
use arena_onsale.WaitingRoom.Rate.Race.{alone, value_of, take_tokens-take_tokens_exceeds}
use arena_onsale.WaitingRoom.Service.{admit_tick, admits_per_second}
use arena_onsale.WaitingRoom.Service.Bulkhead.{
  at_once, ticked, changed, admit_tick-bulkhead, admit_tick-admit_tick_waits,
}

-- two visitors wait, the later one first in the dictionary; one shops
abbrev pub room : Store
room = record {
  queue =
      record { visitor_id = "rahul"; score = 3 } ∷ record { visitor_id = "asha"; score = 2 } ∷ [];
  shoppers = record { visitor_id = "priya"; token = "t0"; expires_at = 9_000_000 } ∷ [];
  tokens = record { token = "t0"; visitor_id = "priya" } ∷ [];
  seq = 3;
  rate = [];
}

abbrev token : ℕ → String
token i = "t1"

-- one visitor a second, two at a time
abbrev pub narrow : Settings
narrow = record default_settings {
  waiting_room_admit_per_minute = 60;
  checkout_concurrency_limit = 2;
}

tick_lets_in_the_first :
    let (n, s') = admit_tick memory_store narrow token 5_000_000 room in
    (n ≡ 1) × (s'.queue ≡ record { visitor_id = "rahul"; score = 3 } ∷ [])
unfolding admit_tick pop_front take_rate_tokens admits_per_second gc_shoppers put_shopper
tick_lets_in_the_first = (refl, refl)

admit_tick-bulkhead_example :
    let (n, s') = admit_tick memory_store narrow token 5_000_000 room in
    (shopper_count 5_000_000 s' ≤ 2) × (used_in 5 s'.rate ≤ max (admits_per_second 60) 0) × (n ≤ 2)
admit_tick-bulkhead_example = admit_tick-bulkhead narrow token 5_000_000 room

abbrev twice_ticked : Store
twice_ticked =
    (admit_tick memory_store narrow token 5_400_000
      (admit_tick memory_store narrow token 5_000_000 room).1).1

abbrev queued_again : Store → Store
queued_again s = record s { queue = room.queue }

admit_tick-admit_tick_waits_example :
    (admit_tick memory_store narrow token 5_900_000 (queued_again twice_ticked)).0 ≡ 0
unfolding admits_per_second
admit_tick-admit_tick_waits_example =
    admit_tick-admit_tick_waits narrow token token 5_000_000 5_900_000 room
      (queued_again twice_ticked) (omega arith)
      (changed twice_ticked (queued_again twice_ticked)
        (ticked token 5_400_000 (admit_tick memory_store narrow token 5_000_000 room).1 at_once
          refl)
        refl)
      refl

abbrev spent : Counter
spent = record { added = 3; given_back = 2 }

abbrev full : Counter
full = record { added = 4; given_back = 0 }

take_tokens-take_tokens_exceeds_example :
    let (na, c') = take_tokens (λ d. (take_tokens alone 4 2 d).1) 4 3 full in
    let (n, c'') = take_tokens alone 4 3 c' in
    (na ≡ 0) × ((take_tokens alone 4 2 (incrby 3 full)).0 ≡ 0) × (value_of c' ≡ 1) × (n ≡ 3)
take_tokens-take_tokens_exceeds_example =
    take_tokens-take_tokens_exceeds 4 3 2 full (omega arith) (omega arith) (omega arith) refl

abbrev asha : Shopper
asha = record { visitor_id = "asha"; token = "t7"; expires_at = 9_000_000 }

put_shopper-require_admission_example :
    (require_admission memory_store 5_000_000 (some " t7 ") (put_shopper asha room)).0
    ≡ visitor "asha"
unfolding strip
put_shopper-require_admission_example =
    put_shopper-require_admission 5_000_000 " t7 " asha room refl refl refl (refl, tt)
