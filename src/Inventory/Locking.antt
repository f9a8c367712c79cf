-- ===== src/Inventory/Locking.antt =====
-- src/arena_onsale/inventory/locking.py: seat locks, taken in one order, all or none.
-- `SeatLockGate` is the protocol of the source with what its doc strings promise; the Redis gate
-- fills it, and `acquire_all` and `release_all` are written against it.
pub mod RedisGate
pub mod AllOrNone
pub mod Ordered
use arena_onsale.Prelude.{
  ℕ, ◌≡◌, Bool, true, false, ◌&&◌, Option, none, some, List, [], ◌∷◌, ◌++◌, if◌then◌else◌, ltb,
  ◌==◌, is_none,
}

-- the lock is `token`'s
abbrev pub is_owner : ℕ → Option ℕ → Bool
is_owner token none = false
is_owner token (some t) = t == token

abbrev pub same_seat : ℕ → ℕ → ℕ → ℕ → Bool
same_seat m i n j = (m == n) && (i == j)

pub record SeatLockGate : Type 1 where
  pub State : Type 0
  -- who has the lock of a seat of a match
  pub owner : State → ℕ → ℕ → Option ℕ
  -- state, match, seat, token, seconds to live
  pub acquire : State → ℕ → ℕ → ℕ → ℕ → Bool × State
  pub release : State → ℕ → ℕ → ℕ → State
  pub acquire_result :
      (s : State) (m i token ttl : ℕ) → (acquire s m i token ttl).0 ≡ is_none (owner s m i)
  pub acquire_owner :
      (s : State) (m i token ttl n j : ℕ)
      → owner (acquire s m i token ttl).1 n j
        ≡ (if same_seat m i n j && is_none (owner s m i) then some token else owner s n j)
  pub release_owner :
      (s : State) (m i token n j : ℕ)
      → owner (release s m i token) n j
        ≡ (if same_seat m i n j && is_owner token (owner s m i) then none else owner s n j)

-- `sorted(set(seat_ids))`
abbrev pub insert_unique : ℕ → List ℕ → List ℕ
insert_unique i [] = i ∷ []
insert_unique i (j ∷ js) =
    if ltb i j then i ∷ j ∷ js else if i == j then j ∷ js else j ∷ insert_unique i js

unfoldable pub ordered_seat_ids : List ℕ → List ℕ
ordered_seat_ids [] = []
ordered_seat_ids (i ∷ is) = insert_unique i (ordered_seat_ids is)

module _ (gate : SeatLockGate) where
  open gate use {State, acquire, release}

  unfoldable pub release_all : ℕ → List ℕ → ℕ → State → State
  release_all m [] token s = s
  release_all m (i ∷ is) token s = release_all m is token (release s m i token)

  unfoldable pub acquire_from : ℕ → ℕ → ℕ → List ℕ → List ℕ → State → List ℕ × State
  unfolding release_all
  acquire_from m token ttl acquired [] s = (acquired, s)
  acquire_from m token ttl acquired (i ∷ is) s =
      let (taken, s') = acquire s m i token ttl in
      let rest = acquire_from m token ttl (acquired ++ i ∷ []) is s' in
      if taken then rest else ([], release_all m acquired token s')

  unfoldable pub acquire_all : ℕ → List ℕ → ℕ → ℕ → State → List ℕ × State
  unfolding acquire_from ordered_seat_ids
  acquire_all m seat_ids token ttl s = acquire_from m token ttl [] (ordered_seat_ids seat_ids) s
