-- ===== src/WaitingRoom/Redis.antt =====
-- src/arena_onsale/waiting_room/redis_store.py: the waiting room in Redis, and the commands that it
-- sends. A sorted set is the list of its members with their scores, in the order in which they were
-- added; ZRANK and ZPOPMIN read it by score and then by member. A key with a time to live is there
-- until the server's clock reaches its end.
pub mod Alike
pub mod Shop
pub mod Line
pub mod Limit
pub mod Visits
pub mod Calls
use arena_onsale.Prelude.{
  ℕ, ◌+◌, ◌-◌, String, Bool, true, false, not, ◌&&◌, ◌||◌, Option, none, some, List, [], ◌∷◌, ◌++◌,
  if◌then◌else◌, ltb, leb, ◌==◌, length, take, drop,
}
use arena_onsale.Prelude.Query.{find?, select, count_where}
use arena_onsale.Prelude.Text.{str_eq, text_le}
use arena_onsale.Settings.{seconds}
use arena_onsale.WaitingRoom.Store.{Shopper, WaitingRoomStore}
use arena_onsale.WaitingRoom.Memory.{Entry, assign, entry_of, index, among, visitors}
use arena_onsale.WaitingRoom.Rate.{Counter, take_tokens}

-- the order of a sorted set
abbrev pub precedes : Entry → Entry → Bool
precedes e f = ltb e.score f.score || ((e.score == f.score) && text_le e.visitor_id f.visitor_id)

abbrev pub insert_member : Entry → List Entry → List Entry
insert_member e [] = e ∷ []
insert_member e (f ∷ fs) = if precedes e f then e ∷ f ∷ fs else f ∷ insert_member e fs

unfoldable pub by_rank : List Entry → List Entry
by_rank [] = []
by_rank (e ∷ es) = insert_member e (by_rank es)

-- `ZADD key NX score member`, the number of the members added
unfoldable pub zadd_nx : String → ℕ → List Entry → ℕ × List Entry
zadd_nx v score z = elim (find? (entry_of v) z) [
  | some e ↦ (0, z)
  | none ↦ (1, z ++ record { visitor_id = v; score = score } ∷ [])
]

-- `ZADD key score member`
abbrev pub zadd : String → ℕ → List Entry → List Entry
zadd v score z = assign (entry_of v) (record { visitor_id = v; score = score }) z

unfoldable pub zrank : String → List Entry → Option ℕ
unfolding by_rank
zrank v z = index v (by_rank z)

-- `ZPOPMIN key n`
unfoldable pub zpopmin : ℕ → List Entry → List Entry × List Entry
unfolding by_rank
zpopmin n z = let popped = take n (by_rank z) in (popped, select (λ e. not (among popped e)) z)

abbrev pub zscore : String → List Entry → Option ℕ
zscore v z = elim (find? (entry_of v) z) [ none ↦ none | some e ↦ some e.score ]

-- `ZREMRANGEBYSCORE key -inf now`
abbrev pub zremrangebyscore : ℕ → List Entry → List Entry
zremrangebyscore now z = select (λ e. not (leb e.score now)) z

-- `ZCOUNT key now +inf`
abbrev pub zcount : ℕ → List Entry → ℕ
zcount now z = count_where (λ e. leb now e.score) z

pub record Key : Type 0 where
  pub name : String
  pub value : String
  pub until : ℕ

abbrev pub named : String → Key → Bool
named name k = str_eq k.name name

-- `SET name value EX ttl` where `until` is the end of the time to live
abbrev pub set_key : String → String → ℕ → List Key → List Key
set_key name value until ks =
    assign (named name) (record { name = name; value = value; until = until }) ks

-- `GET name` when the server's clock is at `t`
abbrev pub get_key : ℕ → String → List Key → Option String
get_key t name ks = elim (find? (named name) ks) [
  | none ↦ none
  | some k ↦ if ltb t k.until then some k.value else none
]

pub record RateKey : Type 0 where
  pub second : ℕ
  pub counter : Counter
  pub until : Option ℕ

abbrev pub rate_key_of : ℕ → RateKey → Bool
rate_key_of second k = k.second == second

abbrev pub has_ended : ℕ → Option ℕ → Bool
has_ended t none = false
has_ended t (some until) = leb until t

abbrev pub no_key : ℕ → RateKey
no_key second = record {
  second = second;
  counter = record { added = 0; given_back = 0 };
  until = none;
}

abbrev pub stored_key : ℕ → List RateKey → RateKey
stored_key second ks = elim (find? (rate_key_of second) ks) [ none ↦ no_key second | some k ↦ k ]

-- the key that a command on `second` finds, a new one where there is none or its time has ended
abbrev pub rate_key_at : ℕ → ℕ → List RateKey → RateKey
rate_key_at t second ks =
    let k = stored_key second ks in if has_ended t k.until then no_key second else k

pub record RedisRoom : Type 0 where
  pub queue : List Entry
  pub seq : ℕ
  pub shoppers : List Entry
  -- the keys `waiting:onsale:tok:{token}` and `waiting:onsale:vis:{visitor_id}`
  pub tokens : List Key
  pub visitors : List Key
  pub rate : List RateKey

unfoldable pub next_score : RedisRoom → ℕ × RedisRoom
next_score s = (s.seq + 1, record s { seq = s.seq + 1 })

unfoldable pub enqueue : String → ℕ → RedisRoom → Bool × RedisRoom
unfolding zadd_nx
enqueue v score s = let (added, z) = zadd_nx v score s.queue in (added == 1, record s { queue = z })

abbrev pub rank : String → RedisRoom → Option ℕ
rank v s = zrank v s.queue

unfoldable pub pop_front : ℕ → RedisRoom → List String × RedisRoom
unfolding zpopmin
pop_front n s =
    if leb n 0
    then ([], s)
    else (let (popped, z) = zpopmin n s.queue in (visitors popped, record s { queue = z }))

-- The three commands of the pipeline, at the server's time `t`. The time to live is a second at least:
-- Redis refuses `EX 0`, which is not modelled.
unfoldable pub put_shopper : ℕ → Shopper → ℕ → RedisRoom → RedisRoom
put_shopper t x ttl s = record s {
  tokens = set_key x.token x.visitor_id (t + seconds ttl) s.tokens;
  visitors = set_key x.visitor_id x.token (t + seconds ttl) s.visitors;
  shoppers = zadd x.visitor_id x.expires_at s.shoppers;
}

abbrev pub score_or_zero : Option ℕ → ℕ
score_or_zero none = 0
score_or_zero (some score) = score

unfoldable pub get_shopper : ℕ → String → RedisRoom → Option Shopper
get_shopper t v s = elim (get_key t v s.visitors) [
  | none ↦ none
  | some token ↦
      some
        (record { visitor_id = v; token = token; expires_at = score_or_zero (zscore v s.shoppers) })
]

abbrev pub visitor_for_token : ℕ → String → RedisRoom → Option String
visitor_for_token t token s = get_key t token s.tokens

unfoldable pub gc_shoppers : ℕ → RedisRoom → RedisRoom
gc_shoppers now s = record s { shoppers = zremrangebyscore now s.shoppers }

abbrev pub shopper_count : ℕ → RedisRoom → ℕ
shopper_count now s = zcount now s.shoppers

-- `current == wanted`: the key was at 0
abbrev pub is_first : Counter → Bool
is_first c = c.added == c.given_back

unfoldable pub take_rate_tokens : ℕ → ℕ → ℕ → ℕ → RedisRoom → ℕ × RedisRoom
take_rate_tokens t second limit wanted s =
    if leb wanted 0 || leb limit 0
    then (0, s)
    else (let k = rate_key_at t second s.rate in
        let (granted, counter) = take_tokens (λ c. c) limit wanted k.counter in
        let until = if is_first k.counter then some (t + seconds 2) else k.until in
        (
          granted,
          record s {
            rate =
                assign (rate_key_of second)
                  (record { second = second; counter = counter; until = until }) s.rate;
          },
        ))

-- `RedisWaitingRoomStore` while the server's clock is at `t`
abbrev pub redis_store : ℕ → WaitingRoomStore
redis_store t = record {
  State = RedisRoom;
  next_score = next_score;
  enqueue = enqueue;
  rank = rank;
  queue_size = λ s. length s.queue;
  pop_front = pop_front;
  put_shopper = put_shopper t;
  get_shopper = get_shopper t;
  visitor_for_token = visitor_for_token t;
  gc_shoppers = gc_shoppers;
  shopper_count = shopper_count;
  take_rate_tokens = take_rate_tokens t;
}
