-- ===== src/WaitingRoom/Redis/Calls/Answers.antt =====
-- A day of the waiting room: the calls that the service gets, one after the other, over both stores.
use arena_onsale.Prelude.{
  ℕ, ◌+◌, ◌≡◌, ◌≤◌, ◌<◌, refl, String, false, Option, none, some, List, [], ◌∷◌, arith, All, length,
  inl, inr, Bool-cases, ◌∙◌, sym, ap,
}
use arena_onsale.Prelude.Text.{str_eq, strip, is_empty_text}
use arena_onsale.Settings.{Settings}
use arena_onsale.WaitingRoom.Store.{Shopper, WaitingRoomStore}
use arena_onsale.WaitingRoom.Memory.{Store, memory_store, gc_shoppers, enqueue, next_score}
use arena_onsale.WaitingRoom.Service.{
  Standing, admitted, unknown, queued, Status, Stats, status, join, visitor_of, stats, admit_tick,
  admits_per_second,
}
use arena_onsale.WaitingRoom.Redis
use arena_onsale.WaitingRoom.Redis.{RedisRoom, redis_store}
use arena_onsale.WaitingRoom.Redis.Alike.{Alike, Alike-later}
use arena_onsale.WaitingRoom.Redis.Shop.{gc_shoppers-Alike}
use arena_onsale.WaitingRoom.Redis.Shop.Reading.{same_count, same_holder}
use arena_onsale.WaitingRoom.Redis.Visits.{EachNew, TokensToCome}
use arena_onsale.WaitingRoom.Redis.Visits.Ticks.{admit_tick-Alike, admit_tick-tokens, gc-tokens}
use arena_onsale.WaitingRoom.Redis.Calls.{
  SameAnswer, status-Same, join_as-Same, after_status, join_shape,
}

pub data Call : Type 0 where
  joining asking : String → Call
  counting ticking : Call
  checking : String → Call

pub data Answer : Type 0 where
  -- `none` is the `ValueError`
  joined : Option Status → Answer
  told : Status → Answer
  counted : Stats → Answer
  let_in : ℕ → Answer
  held_by : Option String → Answer

module _ (store : WaitingRoomStore) (cfg : Settings) (f : ℕ → String) (now : ℕ) where
  abbrev as_joined : Option (Status × store.State) → store.State → Answer × store.State
  as_joined none s = (joined none, s)
  as_joined (some (x, s')) s = (joined (some x), s')

  -- a call of the service at the time `now`, whose fresh tokens are `f`
  unfoldable pub perform : Call → store.State → Answer × store.State
  perform (joining v) s = as_joined (join store cfg f now v s) s
  perform (asking v) s = let (x, s') = status store cfg now v s in (told x, s')
  perform counting s = let (x, s') = stats store cfg now s in (counted x, s')
  perform ticking s = let (n, s') = admit_tick store cfg f now s in (let_in n, s')
  perform (checking token) s = let (v, s') = visitor_of store now token s in (held_by v, s')

module _ (cfg : Settings) (f : ℕ → String) (now : ℕ) where
  abbrev per_second : ℕ
  per_second = admits_per_second cfg.waiting_room_admit_per_minute

  abbrev stats_of : ℕ → ℕ → Stats
  stats_of queue_length count = record {
    in_queue = queue_length;
    in_shop = count;
    admit_per_minute = cfg.waiting_room_admit_per_minute;
    bulkhead = cfg.checkout_concurrency_limit;
  }

  visitor_of-Same :
      (token : String) (m : Store) (r : RedisRoom)
      → Alike now per_second m r
      → SameAnswer now per_second
          (visitor_of memory_store now token m)
          (visitor_of (redis_store now) now token r)
  unfolding visitor_of
  visitor_of-Same token m r a =
      let (a', l) = gc_shoppers-Alike now per_second m r a in
      (same_holder now per_second token (gc_shoppers now m) (Redis.gc_shoppers now r) a' l, a')

  stats-Same :
      (m : Store) (r : RedisRoom)
      → Alike now per_second m r
      → SameAnswer now per_second (stats memory_store cfg now m) (stats (redis_store now) cfg now r)
  unfolding stats
  stats-Same m r a =
      let (a', l) = gc_shoppers-Alike now per_second m r a in
      let m' = gc_shoppers now m in
      let r' = Redis.gc_shoppers now r in
      (
        ap (λ n. stats_of (length m'.queue) n) (same_count now per_second m' r' a' l)
            ∙ ap (λ q. stats_of (length q) (Redis.shopper_count now r')) (sym a'.same_queue),
        a',
      )

  -- Every call is answered alike over both stores, if its tokens are new.
  perform-Same :
      (c : Call) (m : Store) (r : RedisRoom)
      → Alike now per_second m r
      → EachNew f
      → TokensToCome f 0 m.shoppers
      → SameAnswer now per_second
          (perform memory_store cfg f now c m)
          (perform (redis_store now) cfg f now c r)
  unfolding perform join
  perform-Same (joining v) m r a new t = elim (Bool-cases (is_empty_text (strip v))) [
    | inl blank ↦ rw blank (refl, a)
    | inr named ↦
        let (x, a') = join_as-Same cfg f now (strip v) m r a new t in
        rw named (ap (λ y. joined (some y)) x, a')
  ]
  perform-Same (asking v) m r a new t =
      let (x, a') = status-Same cfg now per_second v m r a in (ap told x, a')
  perform-Same counting m r a new t = let (x, a') = stats-Same m r a in (ap counted x, a')
  perform-Same ticking m r a new t =
      let (x, a') = admit_tick-Alike cfg f now m r a new t in (ap let_in x, a')
  perform-Same (checking token) m r a new t =
      let (x, a') = visitor_of-Same token m r a in (ap held_by x, a')

module _ (Q : String → Type 0) (cfg : Settings) (f : ℕ → String) (now : ℕ)
    (h : (j : ℕ) → Q (f j)) where
  abbrev AllTokens : Store → Type 0
  AllTokens m = All (λ x. Q x.token) m.shoppers

  status-tokens :
      (v : String) (m : Store) → AllTokens m → AllTokens (status memory_store cfg now v m).1
  unfolding status
  status-tokens v m a = gc-tokens now Q m a

  enqueue-shoppers :
      (v : String) (m : Store)
      → (enqueue v (next_score m).0 (next_score m).1).1.shoppers ≡ m.shoppers
  unfolding enqueue next_score
  enqueue-shoppers v m = ground arith

  after_status-tokens :
      (v : String) (st : Standing) (x : Status) (m : Store)
      → AllTokens m
      → AllTokens (after_status memory_store cfg f now v st x m).1
  after_status-tokens v unknown x m a =
      let m' : Store = (enqueue v (next_score m).0 (next_score m).1).1 in
      status-tokens v (admit_tick memory_store cfg f now m').1
        (admit_tick-tokens Q cfg f now m' (rw (enqueue-shoppers v m) a) h)
  after_status-tokens v (admitted token until) x m a = a
  after_status-tokens v (queued position wait) x m a = a

  -- A call gives out no tokens but its own.
  perform-tokens :
      (c : Call) (m : Store) → AllTokens m → AllTokens (perform memory_store cfg f now c m).1
  unfolding perform join stats visitor_of
  perform-tokens (joining v) m a = elim (Bool-cases (is_empty_text (strip v))) [
    | inl blank ↦ rw blank a
    | inr named ↦
        let (x, m') = status memory_store cfg now (strip v) m in
        rw named (
          rw (join_shape memory_store cfg f now (strip v) m)
            (after_status-tokens (strip v) x.state x m' (status-tokens (strip v) m a)))
  ]
  perform-tokens (asking v) m a = status-tokens v m a
  perform-tokens counting m a = gc-tokens now Q m a
  perform-tokens ticking m a = admit_tick-tokens Q cfg f now m a h
  perform-tokens (checking token) m a = gc-tokens now Q m a

-- a call and the time on the clock
pub record Timed : Type 0 where
  pub now : ℕ
  pub call : Call

module _ (cfg : Settings) (tokens : ℕ → ℕ → String) where
  -- the answers of the service over the memory store; `k` numbers the calls, which draw their tokens
  -- from `tokens k`
  unfoldable pub memory_answers : ℕ → List Timed → Store → List Answer
  memory_answers k [] m = []
  memory_answers k (c ∷ cs) m =
      let (x, m') = perform memory_store cfg (tokens k) c.now c.call m in
      x ∷ memory_answers (k + 1) cs m'

  -- and over the Redis store, the server's clock being the caller's
  unfoldable pub redis_answers : ℕ → List Timed → RedisRoom → List Answer
  redis_answers k [] r = []
  redis_answers k (c ∷ cs) r =
      let (x, r') = perform (redis_store c.now) cfg (tokens k) c.now c.call r in
      x ∷ redis_answers (k + 1) cs r'

-- the clock does not go back
abbrev pub InOrder : ℕ → List Timed → Type 0
InOrder now [] = Unit
InOrder now (c ∷ cs) = (now ≤ c.now) × InOrder c.now cs

-- no token is drawn twice
pub record AllNew (tokens : ℕ → ℕ → String) : Type 0 where
  pub in_call : (k : ℕ) → EachNew (tokens k)
  pub in_calls : (k l i j : ℕ) → k < l → str_eq (tokens k i) (tokens l j) ≡ false

abbrev ToCome : (ℕ → ℕ → String) → ℕ → String → Type 0
ToCome tokens k t = (l j : ℕ) → k ≤ l → str_eq t (tokens l j) ≡ false

weaken :
    (tokens : ℕ → ℕ → String) (k : ℕ) (xs : List Shopper)
    → All (λ x. ToCome tokens k x.token) xs
    → All (λ x. ToCome tokens (k + 1) x.token) xs
weaken tokens k [] a = tt
weaken tokens k (x ∷ xs) a = ((λ l j h. a.0 l j (omega (arith, h))), weaken tokens k xs a.1)

of_call :
    (tokens : ℕ → ℕ → String) (k : ℕ) (xs : List Shopper)
    → All (λ x. ToCome tokens k x.token) xs
    → TokensToCome (tokens k) 0 xs
of_call tokens k [] a = tt
of_call tokens k (x ∷ xs) a = ((λ j h. a.0 k j (omega arith)), of_call tokens k xs a.1)

answers-Alike :
    (cfg : Settings) (tokens : ℕ → ℕ → String) (k now : ℕ) (cs : List Timed) (m : Store)
    (r : RedisRoom)
    → AllNew tokens
    → InOrder now cs
    → Alike now (admits_per_second cfg.waiting_room_admit_per_minute) m r
    → All (λ x. ToCome tokens k x.token) m.shoppers
    → memory_answers cfg tokens k cs m ≡ redis_answers cfg tokens k cs r
unfolding memory_answers redis_answers
answers-Alike cfg tokens k now [] m r new o a t = refl
answers-Alike cfg tokens k now (c ∷ cs) m r new o a t =
    let limit = admits_per_second cfg.waiting_room_admit_per_minute in
    let f = tokens k in
    let (x, m') = perform memory_store cfg f c.now c.call m in
    let (y, r') = perform (redis_store c.now) cfg f c.now c.call r in
    let (same, a') =
      perform-Same cfg f c.now c.call m r (Alike-later now c.now limit m r o.0 a) (new.in_call k)
        (of_call tokens k m.shoppers t) in
    let t' : All (λ z. ToCome tokens (k + 1) z.token) m'.shoppers =
      perform-tokens (ToCome tokens (k + 1)) cfg f c.now
        (λ j l i h. new.in_calls k l j i (omega (arith, h))) c.call m
        (weaken tokens k m.shoppers t) in
    ap (λ z. z ∷ memory_answers cfg tokens (k + 1) cs m') same
    ∙ ap (λ zs. y ∷ zs) (answers-Alike cfg tokens (k + 1) c.now cs m' r' new o.1 a' t')

abbrev pub empty_memory : Store
empty_memory = record { queue = []; shoppers = []; tokens = []; seq = 0; rate = [] }

abbrev pub empty_redis : RedisRoom
empty_redis = record { queue = []; seq = 0; shoppers = []; tokens = []; visitors = []; rate = [] }

both_empty : (limit : ℕ) → Alike 0 limit empty_memory empty_redis
both_empty limit = record {
  same_queue = refl;
  same_seq = refl;
  in_line = tt;
  same_stays = refl;
  same_tokens = refl;
  distinct = tt;
  apart = tt;
  visitor_keys = λ t v h. refl;
  token_keys = λ t k h. refl;
  same_rate = λ second. record {
    counted = omega arith;
    same_count = refl;
    in_limit = omega arith;
    lasts = λ t h. refl;
  };
}

-- The Redis store is as good as the memory store: from an empty room, whatever calls the service gets,
-- one after the other, it gives the same answers over both. No token is drawn twice, the clock does
-- not go back, and the server's clock is the caller's.
pub memory_answers-redis_answers :
    (cfg : Settings) (tokens : ℕ → ℕ → String) (calls : List Timed)
    → AllNew tokens
    → InOrder 0 calls
    → memory_answers cfg tokens 0 calls empty_memory ≡ redis_answers cfg tokens 0 calls empty_redis
memory_answers-redis_answers cfg tokens calls new o =
    answers-Alike cfg tokens 0 0 calls empty_memory empty_redis new o
      (both_empty (admits_per_second cfg.waiting_room_admit_per_minute)) tt
