-- ===== src/Load/Arrivals.antt =====
-- The flood of a queue in which none of its fans waits.
use arena_onsale.Prelude.{
  ℕ, zero, suc, ◌+◌, ◌≡◌, ◌≤◌, ◌<◌, refl, String, false, none, some, List, [], ◌∷◌, ◌++◌, arith,
  length, length-append, inl, inr, Bool-cases, ap, ◌∙◌,
}
use arena_onsale.Prelude.Query.{find?}
use arena_onsale.Prelude.Text.{str_eq, eq_iff}
use arena_onsale.WaitingRoom.Memory.{Entry, entry_of}
use arena_onsale.WaitingRoom.Redis.{RedisRoom, zadd_nx}
use arena_onsale.Load.{visitor_id, zadd_fans, flood_queue}
use arena_onsale.Load.Fans.{visitor_id-injective}
use arena_onsale.Load.Joins.{quiet, flooded, join_each-flooded, flood_queue-join_each}

-- None of the fans from `index` on waits.
abbrev pub NoFan : String → ℕ → List Entry → Type 0
NoFan prefix index z = (j : ℕ) → index ≤ j → find? (entry_of (visitor_id j prefix)) z ≡ none

find?-none :
    (v : String) (z : List Entry) (e : Entry)
    → find? (entry_of v) z ≡ none
    → str_eq e.visitor_id v ≡ false
    → find? (entry_of v) (z ++ e ∷ []) ≡ none
find?-none v [] e h o = ground arith
find?-none v (x ∷ z) e h o = ground (arith, find?-none v z e)

other_fan :
    (i j : ℕ) (prefix : String) → i < j → str_eq (visitor_id i prefix) (visitor_id j prefix) ≡ false
other_fan i j prefix h = elim (Bool-cases (str_eq (visitor_id i prefix) (visitor_id j prefix))) [
  | inl same ↦ absurd (
      omega (
        arith,
        h,
        visitor_id-injective i j prefix
            ((eq_iff (visitor_id i prefix) (visitor_id j prefix)).0 same),
      ))
  | inr other ↦ other
]

zadd_nx-none :
    (v : String) (score : ℕ) (z : List Entry)
    → find? (entry_of v) z ≡ none
    → zadd_nx v score z ≡ (1, z ++ record { visitor_id = v; score = score } ∷ [])
unfolding zadd_nx
zadd_nx-none v score z h = ground (arith, h)

zadd_fans_all :
    (prefix : String) (q index n : ℕ) (z : List Entry)
    → NoFan prefix index z
    → ((zadd_fans prefix q index n z).0 ≡ n)
      × (length (zadd_fans prefix q index n z).1 ≡ length z + n)
unfolding zadd_fans
zadd_fans_all prefix q index zero z fresh = (refl, omega arith)
zadd_fans_all prefix q index (suc n) z fresh =
    let e : Entry = record { visitor_id = visitor_id index prefix; score = q + index + 1 } in
    let (added, longer) = zadd_fans_all prefix q (index + 1) n (z ++ e ∷ []) (λ j h.
      find?-none (visitor_id j prefix) z e (fresh j (omega (arith, h)))
        (other_fan index j prefix (omega (arith, h)))) in
    rw (zadd_nx-none (visitor_id index prefix) (q + index + 1) z (fresh index (omega arith)))
      (omega (arith, added), omega (arith, longer, length-append z (e ∷ [])))

-- Alone, and for a batch size of at least 1, a flood of a queue in which none of its fans waits adds each
-- of them: it reports `count`, the queue is longer by `count`, and the next number is too.
pub flood_queue-length :
    (count size : ℕ) (prefix : String) (s : RedisRoom)
    → 1 ≤ size
    → NoFan prefix 0 s.queue
    → (s' : RedisRoom) × (flood_queue quiet count size prefix s ≡ some (count, s'))
      × (length s'.queue ≡ length s.queue + count)
      × (s'.seq ≡ s.seq + count)
flood_queue-length count size prefix s h fresh =
    let (added, longer) = zadd_fans_all prefix s.seq 0 count s.queue fresh in
    let done = flooded prefix s.seq 0 count (s.seq + count) s in
    let joined = join_each-flooded prefix s.seq 0 count s.seq s (omega arith) in
    (
      done.1,
      flood_queue-join_each count size prefix s h ∙ ap some (joined ∙ ap (λ m. (m, done.1)) added),
      longer,
      refl,
    )
