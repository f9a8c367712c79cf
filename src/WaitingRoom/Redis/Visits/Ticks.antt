-- ===== src/WaitingRoom/Redis/Visits/Ticks.antt =====
-- A tick over the two stores.
use arena_onsale.Prelude.{
  ℕ, ◌+◌, ◌-◌, ◌≡◌, ◌≤◌, refl, String, Bool, false, not, List, [], ◌∷◌, arith, All, leb, min,
  length, if◌then◌else◌, inl, inr, Bool-cases, ap, subst,
}
use arena_onsale.Prelude.Text.{str_eq}
use arena_onsale.Settings.{Settings, seconds}
use arena_onsale.WaitingRoom.Store.{Shopper, WaitingRoomStore}
use arena_onsale.WaitingRoom.Memory.{
  Store, memory_store, put_shopper, gc_shoppers, pop_front, visitors, assign, take_rate_tokens,
  shopper_count, has_expired,
}
use arena_onsale.WaitingRoom.Service.{admit, admit_tick, admits_per_second, epoch_second}
use arena_onsale.WaitingRoom.Redis
use arena_onsale.WaitingRoom.Redis.{RedisRoom, redis_store}
use arena_onsale.WaitingRoom.Redis.Alike.{Alike}
use arena_onsale.WaitingRoom.Redis.Shop.{AllLive, gc_shoppers-Alike, All-select}
use arena_onsale.WaitingRoom.Redis.Shop.Reading.{same_count}
use arena_onsale.WaitingRoom.Redis.Line.Served.{pop_front-Popped}
use arena_onsale.WaitingRoom.Redis.Limit.{take_rate_tokens-Alike}
use arena_onsale.WaitingRoom.Redis.Visits.{TokensToCome, EachNew, admit-Alike}

module _ (store : WaitingRoomStore) (cfg : Settings) (f : ℕ → String) (now : ℕ) where
  open store use {State}

  -- a tick once it knows how many it lets in
  abbrev let_in : ℕ → State → ℕ × State
  let_in n s =
      if leb n 0
      then (0, s)
      else (let (taken, s') = store.pop_front n s in
          let ttl = cfg.shopping_ttl_seconds in
          (length taken, admit store f 0 ttl (now + seconds ttl) taken s'))

  -- a tick once it knows the free places
  abbrev take_slots : ℕ → State → ℕ × State
  take_slots slots s =
      let (rate_slots, s') =
        store.take_rate_tokens (epoch_second now)
          (admits_per_second cfg.waiting_room_admit_per_minute) slots s in
      let_in (min rate_slots (min (store.queue_size s') slots)) s'

  tick_shape :
      (s : State)
      → let s' = store.gc_shoppers now s in
        admit_tick store cfg f now s
        ≡ take_slots (cfg.checkout_concurrency_limit - store.shopper_count now s') s'
  unfolding admit_tick
  tick_shape s = refl

popped-shoppers : (n : ℕ) (m : Store) → (pop_front n m).1.shoppers ≡ m.shoppers
unfolding pop_front
popped-shoppers n m = refl

-- a test of tokens that holds of all shoppers holds of those who stay
pub gc-tokens :
    (now : ℕ) (Q : String → Type 0) (m : Store)
    → All (λ x. Q x.token) m.shoppers
    → All (λ x. Q x.token) (gc_shoppers now m).shoppers
unfolding gc_shoppers
gc-tokens now Q m t = All-select (λ x. Q x.token) (λ x. not (has_expired now x)) m.shoppers t

module _ (cfg : Settings) (f : ℕ → String) (now : ℕ) where
  abbrev limit : ℕ
  limit = admits_per_second cfg.waiting_room_admit_per_minute

  -- the two stores have answered alike and are alike
  abbrev pub BothAlike : ℕ × Store → ℕ × RedisRoom → Type 0
  BothAlike x y = (x.0 ≡ y.0) × Alike now limit x.1 y.1

  let_in-Alike :
      (n : ℕ) (m : Store) (r : RedisRoom)
      → Alike now limit m r
      → AllLive now m.shoppers
      → EachNew f
      → TokensToCome f 0 m.shoppers
      → BothAlike (let_in memory_store cfg f now n m) (let_in (redis_store now) cfg f now n r)
  let_in-Alike n m r a l new t = elim (Bool-cases (leb n 0)) [
    | inl nobody ↦ rw nobody (refl, a)
    | inr some_in ↦
        let p = pop_front-Popped now limit n m r a l in
        rw some_in (
          rw p.same_visitors (
            refl,
            admit-Alike now limit cfg.shopping_ttl_seconds 0 f (visitors (pop_front n m).0)
                (pop_front n m).1 (Redis.pop_front n r).1 p.alike new (rw (popped-shoppers n m) t)
                p.only_once (rw (popped-shoppers n m) p.new_to_shop) p.gone,
          ))
  ]

  take_slots-Alike :
      (slots : ℕ) (m : Store) (r : RedisRoom)
      → Alike now limit m r
      → AllLive now m.shoppers
      → EachNew f
      → TokensToCome f 0 m.shoppers
      → BothAlike
          (take_slots memory_store cfg f now slots m)
          (take_slots (redis_store now) cfg f now slots r)
  take_slots-Alike slots m r a l new t =
      let (g, a', s, q, q') = take_rate_tokens-Alike now limit slots m r a in
      let (granted, m') = take_rate_tokens (epoch_second now) limit slots m in
      let (granted', r') = Redis.take_rate_tokens now (epoch_second now) limit slots r in
      let n = min granted (min (length m'.queue) slots) in
      let same : n ≡ min granted' (min (length r'.queue) slots) = rw g (rw a'.same_queue refl) in
      subst
        (λ k.
          BothAlike (let_in memory_store cfg f now n m') (let_in (redis_store now) cfg f now k r'))
        same (let_in-Alike n m' r' a' (rw s l) new (rw s t))

  -- A tick lets as many in over Redis as over memory, and leaves the rooms alike, if its tokens are new.
  pub admit_tick-Alike :
      (m : Store) (r : RedisRoom)
      → Alike now limit m r
      → EachNew f
      → TokensToCome f 0 m.shoppers
      → BothAlike (admit_tick memory_store cfg f now m) (admit_tick (redis_store now) cfg f now r)
  admit_tick-Alike m r a new t =
      let (a', l) = gc_shoppers-Alike now limit m r a in
      let m' = gc_shoppers now m in
      let r' = Redis.gc_shoppers now r in
      let most = cfg.checkout_concurrency_limit in
      let slots = most - shopper_count now m' in
      let same : slots ≡ most - Redis.shopper_count now r' =
        ap (λ k. most - k) (same_count now limit m' r' a' l) in
      rw (tick_shape memory_store cfg f now m) (
        rw (tick_shape (redis_store now) cfg f now r) (
          subst
            (λ k.
              BothAlike (take_slots memory_store cfg f now slots m')
                (take_slots (redis_store now) cfg f now k r'))
            same
            (take_slots-Alike slots m' r' a' l new
              (gc-tokens now (λ k. (j : ℕ) → 0 ≤ j → str_eq k (f j) ≡ false) m t))))

All-assign :
    (Q : String → Type 0) (p : Shopper → Bool) (x : Shopper) (xs : List Shopper)
    → All (λ y. Q y.token) xs
    → Q x.token
    → All (λ y. Q y.token) (assign p x xs)
All-assign Q p x [] a h = (h, tt)
All-assign Q p x (y ∷ ys) a h = elim (Bool-cases (p y)) [
  | inl here ↦ rw here (h, a.1)
  | inr further ↦ rw further (a.0, All-assign Q p x ys a.1 h)
]

admit-tokens :
    (Q : String → Type 0) (f : ℕ → String) (i ttl until : ℕ) (vs : List String) (m : Store)
    → All (λ x. Q x.token) m.shoppers
    → ((j : ℕ) → Q (f j))
    → All (λ x. Q x.token) (admit memory_store f i ttl until vs m).shoppers
unfolding admit put_shopper
admit-tokens Q f i ttl until [] m a h = a
admit-tokens Q f i ttl until (v ∷ vs) m a h =
    admit-tokens Q f (i + 1) ttl until vs _ (All-assign Q _ _ m.shoppers a (h i)) h

let_in-tokens :
    (Q : String → Type 0) (cfg : Settings) (f : ℕ → String) (now n : ℕ) (m : Store)
    → All (λ x. Q x.token) m.shoppers
    → ((j : ℕ) → Q (f j))
    → All (λ x. Q x.token) (let_in memory_store cfg f now n m).1.shoppers
let_in-tokens Q cfg f now n m a h = elim (Bool-cases (leb n 0)) [
  | inl nobody ↦ rw nobody a
  | inr some_in ↦ rw some_in (
      admit-tokens Q f 0 cfg.shopping_ttl_seconds _ _ (pop_front n m).1 (rw (popped-shoppers n m) a)
        h)
]

taken-shoppers :
    (s limit wanted : ℕ) (m : Store) → (take_rate_tokens s limit wanted m).1.shoppers ≡ m.shoppers
unfolding take_rate_tokens
taken-shoppers s limit wanted m = ground arith

-- A tick gives out no tokens but those of its own.
pub admit_tick-tokens :
    (Q : String → Type 0) (cfg : Settings) (f : ℕ → String) (now : ℕ) (m : Store)
    → All (λ x. Q x.token) m.shoppers
    → ((j : ℕ) → Q (f j))
    → All (λ x. Q x.token) (admit_tick memory_store cfg f now m).1.shoppers
admit_tick-tokens Q cfg f now m a h =
    let m' = gc_shoppers now m in
    let slots = cfg.checkout_concurrency_limit - shopper_count now m' in
    let per_second = admits_per_second cfg.waiting_room_admit_per_minute in
    let (granted, m'') = take_rate_tokens (epoch_second now) per_second slots m' in
    rw (tick_shape memory_store cfg f now m) (
      let_in-tokens Q cfg f now (min granted (min (length m''.queue) slots)) m''
        (rw (taken-shoppers (epoch_second now) per_second slots m') (gc-tokens now Q m a)) h)
