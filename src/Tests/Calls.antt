-- ===== src/Tests/Calls.antt =====
-- A day of the waiting room over both stores at concrete inputs.
use arena_onsale.Prelude.{
  ℕ, zero, suc, ◌<◌, ◌≡◌, String, true, false, List, [], ◌∷◌, arith, inl, inr, Bool-cases, ap,
}
use Prim.Native.Char.{code}
use arena_onsale.Prelude.Text.{str_eq, eq_iff, is_empty_text}
use arena_onsale.WaitingRoom.Redis.Calls.Answers.{
  Timed, joining, asking, counting, ticking, checking, AllNew, memory_answers, redis_answers,
  empty_memory, empty_redis, memory_answers-redis_answers,
}
use arena_onsale.Prelude.{refl}
use arena_onsale.Prelude.Text.{strip}
use arena_onsale.Api.{replied}
use arena_onsale.Api.Schemas.{fits_field}
use arena_onsale.Api.WaitingRoom.{WaitingRoomResponse, join_route, status_route}
use arena_onsale.Api.WaitingRoom.Known.{IsName, status_route-join_route}
use arena_onsale.WaitingRoom.Memory.{memory_store}
use arena_onsale.Tests.Room.{narrow}

-- token `i` of call `k`: `k` strokes, a dash, and `i` strokes
abbrev strokes : ℕ → String → String
strokes zero s = s
strokes (suc n) s = String.◌∷◌ "|" (strokes n s)

abbrev numbered : ℕ → ℕ → String
numbered k i = strokes k (String.◌∷◌ "-" (strokes i ""))

abbrev rest_of : String → String
rest_of String.[] = ""
rest_of (String.◌∷◌ c s) = s

abbrev first_code : String → ℕ
first_code String.[] = 0
first_code (String.◌∷◌ c s) = code c

fewer_strokes : (i j : ℕ) → i < j → strokes i "" ≡ strokes j "" → ⊥
fewer_strokes zero zero h e = omega (arith, h)
fewer_strokes zero (suc j) h e = let clash : true ≡ false = ap is_empty_text e in cc
fewer_strokes (suc i) zero h e = omega (arith, h)
fewer_strokes (suc i) (suc j) h e = fewer_strokes i j (omega (arith, h)) (ap rest_of e)

later_in_call : (k i j : ℕ) → i < j → numbered k i ≡ numbered k j → ⊥
later_in_call zero i j h e = fewer_strokes i j h (ap rest_of e)
later_in_call (suc k) i j h e = later_in_call k i j h (ap rest_of e)

later_call : (k l i j : ℕ) → k < l → numbered k i ≡ numbered l j → ⊥
later_call zero zero i j h e = omega (arith, h)
later_call zero (suc l) i j h e = let clash : 45 ≡ 124 = ap first_code e in omega (arith, clash)
later_call (suc k) zero i j h e = omega (arith, h)
later_call (suc k) (suc l) i j h e = later_call k l i j (omega (arith, h)) (ap rest_of e)

unequal : (s t : String) → (s ≡ t → ⊥) → str_eq s t ≡ false
unequal s t h = elim (Bool-cases (str_eq s t)) [
  | inl same ↦ absurd (h ((eq_iff s t).0 same))
  | inr other ↦ other
]

all_new : AllNew numbered
all_new = record {
  in_call = λ k i j h. unequal (numbered k i) (numbered k j) (later_in_call k i j h);
  in_calls = λ k l i j h. unequal (numbered k i) (numbered l j) (later_call k l i j h);
}

abbrev day : List Timed
day =
    record { now = 5_000_000; call = joining " asha " }
    ∷ record { now = 5_000_000; call = joining "rahul" }
    ∷ record { now = 5_500_000; call = asking "rahul" }
    ∷ record { now = 6_000_000; call = ticking }
    ∷ record { now = 6_000_000; call = checking "-" }
    ∷ record { now = 907_000_000; call = counting }
    ∷ []

memory_answers-redis_answers_example :
    memory_answers narrow numbered 0 day empty_memory
    ≡ redis_answers narrow numbered 0 day empty_redis
memory_answers-redis_answers_example =
    memory_answers-redis_answers narrow numbered day all_new (omega arith)

abbrev asha : String
asha = " asha "

asha-IsName : IsName asha
unfolding fits_field strip
asha-IsName = (refl, refl)

status_route-join_route_example :
    let (r, s) = join_route memory_store narrow (numbered 0) 5_000_000 asha empty_memory in
    (a : WaitingRoomResponse) × (r ≡ replied 200 a)
    × (status_route memory_store narrow 5_000_000 (strip asha) s ≡ (replied 200 a, s))
status_route-join_route_example =
    status_route-join_route narrow (numbered 0) 5_000_000 asha empty_memory (omega arith)
      asha-IsName
