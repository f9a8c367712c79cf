-- ===== src/Inventory/Locking/RedisGate.antt =====
-- `RedisSeatLockGate`: `SET key token NX EX ttl`, and the script that deletes a key only if it
-- still holds the token. The key names a match and a seat; a key that has run out is gone from the
-- list of live keys.
use arena_onsale.Prelude.{
  ℕ, ◌≡◌, Bool, true, false, ◌&&◌, Option, none, some, List, [], ◌∷◌, if◌then◌else◌, is_none, arith,
}
use arena_onsale.Inventory.Locking.{SeatLockGate, same_seat, is_owner}

pub record LockKey : Type 0 where
  pub match_id : ℕ
  pub seat_id : ℕ
  pub token : ℕ
  pub ttl_seconds : ℕ

-- `GET`
abbrev pub get : List LockKey → ℕ → ℕ → Option ℕ
get [] m i = none
get (k ∷ ks) m i = if same_seat k.match_id k.seat_id m i then some k.token else get ks m i

-- `DEL`
abbrev pub del : List LockKey → ℕ → ℕ → List LockKey
del [] m i = []
del (k ∷ ks) m i = if same_seat k.match_id k.seat_id m i then del ks m i else k ∷ del ks m i

-- `RedisSeatLockGate.acquire`
unfoldable pub acquire : List LockKey → ℕ → ℕ → ℕ → ℕ → Bool × List LockKey
acquire ks m i token ttl =
    if is_none (get ks m i)
    then (true, record { match_id = m; seat_id = i; token = token; ttl_seconds = ttl } ∷ ks)
    else (false, ks)

-- `_RELEASE_IF_OWNED`
unfoldable pub release : List LockKey → ℕ → ℕ → ℕ → List LockKey
release ks m i token = if is_owner token (get ks m i) then del ks m i else ks

get-del :
    (ks : List LockKey) (m i n j : ℕ)
    → get (del ks m i) n j ≡ (if same_seat m i n j then none else get ks n j)
get-del [] m i n j = ground arith
get-del (k ∷ ks) m i n j = ground (arith, get-del ks m i n j)

pub get-acquire_result :
    (ks : List LockKey) (m i token ttl : ℕ) → (acquire ks m i token ttl).0 ≡ is_none (get ks m i)
unfolding acquire
get-acquire_result ks m i token ttl = ground arith

pub get-acquire :
    (ks : List LockKey) (m i token ttl n j : ℕ)
    → get (acquire ks m i token ttl).1 n j
      ≡ (if same_seat m i n j && is_none (get ks m i) then some token else get ks n j)
unfolding acquire
get-acquire ks m i token ttl n j = ground arith

pub get-release :
    (ks : List LockKey) (m i token n j : ℕ)
    → get (release ks m i token) n j
      ≡ (if same_seat m i n j && is_owner token (get ks m i) then none else get ks n j)
unfolding release
get-release ks m i token n j = ground (arith, get-del ks m i n j)

abbrev pub redis_gate : SeatLockGate
redis_gate = record {
  State = List LockKey;
  owner = get;
  acquire = acquire;
  release = release;
  acquire_result = get-acquire_result;
  acquire_owner = get-acquire;
  release_owner = get-release;
}
