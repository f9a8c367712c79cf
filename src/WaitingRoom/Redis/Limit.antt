-- ===== src/WaitingRoom/Redis/Limit.antt =====
-- The rate limit of the two stores, whole rooms at a time.
use arena_onsale.Prelude.{
  ℕ, ◌+◌, ◌-◌, ◌≡◌, ◌≤◌, refl, true, false, ◌||◌, some, List, [], ◌∷◌, arith, leb, min, subst,
  if◌then◌else◌, ◌==◌, inl, inr, Bool-cases, ◌∙◌, sym, ==_iff,
}
use arena_onsale.Settings.{seconds}
use arena_onsale.WaitingRoom.Memory.{Store, RateOf, assign, rate_of, used_in, take_rate_tokens}
use arena_onsale.WaitingRoom.Rate.{take_tokens}
use arena_onsale.WaitingRoom.Rate.Race.{value_of, alone, take_tokens-take_rate_tokens}
use arena_onsale.WaitingRoom.Service.{epoch_second}
use arena_onsale.WaitingRoom.Service.Bulkhead.{take_rate_tokens_lem}
use arena_onsale.WaitingRoom.Redis
use arena_onsale.WaitingRoom.Redis.{
  RedisRoom, RateKey, rate_key_of, stored_key, rate_key_at, has_ended, is_first,
}
use arena_onsale.WaitingRoom.Redis.Alike.{Alike, SameRate, SameRate-kept}

used_in-other :
    (s t n : ℕ) (rs : List RateOf)
    → (s == t) ≡ false
    → used_in t (assign (rate_of s) (record { second = s; used = n }) rs) ≡ used_in t rs
used_in-other s t n [] e = ground (arith, e)
used_in-other s t n (r ∷ rs) e = ground (arith, e, used_in-other s t n rs e)

stored-assign :
    (s : ℕ) (k : RateKey) (ks : List RateKey)
    → k.second ≡ s
    → stored_key s (assign (rate_key_of s) k ks) ≡ k
stored-assign s k [] e = ground (arith, e)
stored-assign s k (j ∷ js) e = ground (arith, e, stored-assign s k js e)

stored-other :
    (s t : ℕ) (k : RateKey) (ks : List RateKey)
    → k.second ≡ s
    → (s == t) ≡ false
    → stored_key t (assign (rate_key_of s) k ks) ≡ stored_key t ks
stored-other s t k [] e h = ground (arith, e, h)
stored-other s t k (j ∷ js) e h = ground (arith, e, h, stored-other s t k js e h)

blocked_in_memory :
    (s limit wanted : ℕ) (m : Store)
    → leb wanted 0 || leb limit 0 ≡ true
    → take_rate_tokens s limit wanted m ≡ (0, m)
unfolding take_rate_tokens
blocked_in_memory s limit wanted m e = ground (arith, e)

-- what a call that is not blocked writes, and what it leaves of the other seconds
other_seconds :
    (s limit wanted t : ℕ) (m : Store)
    → (s == t) ≡ false
    → used_in t (take_rate_tokens s limit wanted m).1.rate ≡ used_in t m.rate
unfolding take_rate_tokens
other_seconds s limit wanted t m e = ground (
  arith,
  e,
  used_in-other s t (used_in s m.rate + min wanted (limit - used_in s m.rate)) m.rate e,
)

memory_frame :
    (s limit wanted : ℕ) (m : Store)
    → take_rate_tokens s limit wanted m ≡ (
      (take_rate_tokens s limit wanted m).0,
      record m { rate = (take_rate_tokens s limit wanted m).1.rate },
    )
unfolding take_rate_tokens
memory_frame s limit wanted m = ground arith

-- the key that the two commands and EXPIRE leave at the time `t`
abbrev key_after : ℕ → ℕ → ℕ → ℕ → RateKey → RateKey
key_after t s limit wanted k = record {
  second = s;
  counter = (take_tokens alone limit wanted k.counter).1;
  until = if is_first k.counter then some (t + seconds 2) else k.until;
}

redis_call :
    (t s limit wanted : ℕ) (r : RedisRoom) (k : RateKey)
    → rate_key_at t s r.rate ≡ k
    → leb wanted 0 || leb limit 0 ≡ false
    → Redis.take_rate_tokens t s limit wanted r ≡ (
      (take_tokens alone limit wanted k.counter).0,
      record r { rate = assign (rate_key_of s) (key_after t s limit wanted k) r.rate },
    )
unfolding Redis.take_rate_tokens
redis_call t s limit wanted r k e open_ = rw open_ (rw e refl)

redis_blocked :
    (t s limit wanted : ℕ) (r : RedisRoom)
    → leb wanted 0 || leb limit 0 ≡ true
    → Redis.take_rate_tokens t s limit wanted r ≡ (0, r)
unfolding Redis.take_rate_tokens
redis_blocked t s limit wanted r e = rw e refl

-- a second is over before two seconds have gone since any of its times
within_second : (t now : ℕ) → epoch_second t ≡ epoch_second now → leb (now + seconds 2) t ≡ false
within_second t now e = ground (arith, e)

module _ (now limit wanted : ℕ) (m : Store) (r : RedisRoom) (a : Alike now limit m r)
    (passed : leb wanted 0 || leb limit 0 ≡ false) where
  abbrev s : ℕ
  s = epoch_second now

  abbrev k : RateKey
  k = stored_key s r.rate

  abbrev m' : Store
  m' = (take_rate_tokens s limit wanted m).1

  abbrev r' : RedisRoom
  r' = record r { rate = assign (rate_key_of s) (key_after now s limit wanted k) r.rate }

  found_key : rate_key_at now s r.rate ≡ k
  found_key = rw ((a.same_rate s).lasts now refl) refl

  race :
      let (n, c') = take_tokens alone limit wanted k.counter in
      (n ≡ (take_rate_tokens s limit wanted m).0)
      × (value_of c' ≡ used_in s m'.rate)
      × (c'.given_back ≤ c'.added)
  race =
      take_tokens-take_rate_tokens s limit wanted k.counter m (a.same_rate s).counted
        (a.same_rate s).same_count (a.same_rate s).in_limit

  still_lasts :
      (t : ℕ) → epoch_second t ≡ s → has_ended t (key_after now s limit wanted k).until ≡ false
  still_lasts t e = elim (Bool-cases (is_first k.counter)) [
    | inl first ↦ rw first (within_second t now e)
    | inr later ↦ rw later ((a.same_rate s).lasts t e)
  ]

  this_second : SameRate limit s m' r'
  this_second =
      let stored : stored_key s r'.rate ≡ key_after now s limit wanted k =
        stored-assign s (key_after now s limit wanted k) r.rate refl in
      record {
        counted = rw stored race.2;
        same_count = rw stored (sym race.1);
        in_limit = rw stored (
            omega (
              arith,
              race.1,
              (take_rate_tokens_lem s limit wanted m).2,
              (a.same_rate s).same_count,
              (a.same_rate s).in_limit,
            ));
        lasts = λ t e. rw stored (still_lasts t e);
      }

  other_second : (t : ℕ) → (s == t) ≡ false → SameRate limit t m' r'
  other_second t e =
      let stored : stored_key t r'.rate ≡ stored_key t r.rate =
        stored-other s t (key_after now s limit wanted k) r.rate refl e in
      let b = a.same_rate t in
      record {
        counted = rw stored b.counted;
        same_count = rw stored (other_seconds s limit wanted t m e ∙ b.same_count);
        in_limit = rw stored b.in_limit;
        lasts = λ u h. rw stored (b.lasts u h);
      }

  each_second : (t : ℕ) → SameRate limit t m' r'
  each_second t = elim (Bool-cases (s == t)) [
    | inl same ↦ subst (λ u. SameRate limit u m' r') ((==_iff s t).0 same) this_second
    | inr other ↦ other_second t other
  ]

-- In rooms that are alike, while the server's clock is the caller's, both stores grant the same number
-- of the second's tokens, and the rooms stay alike; the shoppers and the queue are not touched.
pub take_rate_tokens-Alike :
    (now limit wanted : ℕ) (m : Store) (r : RedisRoom)
    → Alike now limit m r
    → let (granted, m') = take_rate_tokens (epoch_second now) limit wanted m in
      let (granted', r') = Redis.take_rate_tokens now (epoch_second now) limit wanted r in
      (granted ≡ granted')
      × Alike now limit m' r'
      × (m'.shoppers ≡ m.shoppers)
      × (m'.queue ≡ m.queue)
      × (r'.queue ≡ r.queue)
take_rate_tokens-Alike now limit wanted m r a = elim (Bool-cases (leb wanted 0 || leb limit 0)) [
  | inl blocked ↦
      rw (blocked_in_memory (epoch_second now) limit wanted m blocked) (
        rw (redis_blocked now (epoch_second now) limit wanted r blocked)
          (refl, a, refl, refl, refl))
  | inr passed ↦
      rw
        (redis_call now (epoch_second now) limit wanted r (k now limit wanted m r a passed)
          (found_key now limit wanted m r a passed) passed)
        (rw (memory_frame (epoch_second now) limit wanted m) (
          sym (race now limit wanted m r a passed).0,
          record {
            same_queue = a.same_queue;
            same_seq = a.same_seq;
            in_line = a.in_line;
            same_stays = a.same_stays;
            same_tokens = a.same_tokens;
            distinct = a.distinct;
            apart = a.apart;
            visitor_keys = a.visitor_keys;
            token_keys = a.token_keys;
            same_rate =
                SameRate-kept limit (m' now limit wanted m r a passed) _ _ _ refl refl
                  (each_second now limit wanted m r a passed);
          },
          refl,
          refl,
          refl,
        ))
]
