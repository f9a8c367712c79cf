-- ===== src/WaitingRoom/Rate/Race.antt =====
-- The rate limit of waiting_room/redis_store.py against that of waiting_room/memory.py, alone and
-- with two callers at the same time.
use arena_onsale.Prelude.{ℕ, ◌+◌, ◌-◌, ◌≤◌, ◌≡◌, min, arith}
use arena_onsale.WaitingRoom.Memory.{Store, used_in, take_rate_tokens}
use arena_onsale.WaitingRoom.Service.Bulkhead.{used_in-assign}
use arena_onsale.WaitingRoom.Rate.{Counter, incrby, take_tokens}

abbrev pub alone : Counter → Counter
alone c = c

-- the value of the key
abbrev pub value_of : Counter → ℕ
value_of c = c.added - c.given_back

-- One call after the other, the Redis store grants what the memory store grants: from the same count
-- of the second, not above the limit, both grant the same number and reach the same count.
pub take_tokens-take_rate_tokens :
    (t limit wanted : ℕ) (c : Counter) (s : Store)
    → c.given_back ≤ c.added
    → used_in t s.rate ≡ value_of c
    → value_of c ≤ limit
    → let (n, c') = take_tokens alone limit wanted c in
      let (granted, s') = take_rate_tokens t limit wanted s in
      (n ≡ granted) × (value_of c' ≡ used_in t s'.rate) × (c'.given_back ≤ c'.added)
unfolding take_tokens take_rate_tokens
take_tokens-take_rate_tokens t limit wanted c s b e h =
    ground
      (arith, used_in-assign t (used_in t s.rate + min wanted (limit - used_in t s.rate)) s.rate)

-- With a second caller between its commands, a caller gives back more than it has added. Where the
-- tokens of the second are spent, the caller that asks for `a` and another that asks for `b` are
-- granted nothing, but then the key is `a` below the limit, and the next caller is granted `a` tokens
-- beyond the limit.
pub take_tokens-take_tokens_exceeds :
    (limit a b : ℕ) (c : Counter)
    → 1 ≤ a
    → a ≤ limit
    → 1 ≤ b
    → c.added ≡ c.given_back + limit
    → let (na, c') = take_tokens (λ d. (take_tokens alone limit b d).1) limit a c in
      let (n, c'') = take_tokens alone limit a c' in
      (na ≡ 0)
      × ((take_tokens alone limit b (incrby a c)).0 ≡ 0)
      × (value_of c' ≡ limit - a)
      × (n ≡ a)
unfolding take_tokens
take_tokens-take_tokens_exceeds limit a b c ha hl hb full = ground arith
