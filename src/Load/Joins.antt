-- ===== src/Load/Joins.antt =====
-- The flood against joins one by one.
use arena_onsale.Prelude.{
  ℕ, zero, suc, ◌+◌, ◌-◌, ◌≡◌, ◌≤◌, refl, String, Bool, true, false, some, List, [], ◌∷◌, ◌==◌,
  arith, ap, sym, ◌∙◌,
}
use arena_onsale.WaitingRoom.Memory.{Entry}
use arena_onsale.WaitingRoom.Redis.{RedisRoom, zadd_nx, next_score, enqueue}
use arena_onsale.Load.{Range, visitor_id, zadd_fans, flood_each, flood_ranges, flood_queue}
use arena_onsale.Load.Tiles.{Tiles, batch_ranges-Tiles}

abbrev pub count_new : Bool → ℕ
count_new true = 1
count_new false = 0

-- The fans from `index` on, `n` of them, join one by one, each with a score of his own: how many are new,
-- and the room.
unfoldable pub join_each : String → ℕ → ℕ → RedisRoom → ℕ × RedisRoom
unfolding next_score enqueue
join_each prefix index zero s = (0, s)
join_each prefix index (suc n) s =
    let (score, s1) = next_score s in
    let (is_new, s2) = enqueue (visitor_id index prefix) score s1 in
    let (m, s3) = join_each prefix (index + 1) n s2 in (count_new is_new + m, s3)

zadd_nx-count_new :
    (v : String) (score : ℕ) (z : List Entry)
    → count_new ((zadd_nx v score z).0 == 1) ≡ (zadd_nx v score z).0
unfolding zadd_nx
zadd_nx-count_new v score z = ground arith

-- what `zadd_fans` does to a room whose numbers have come to `seq`
abbrev pub flooded : String → ℕ → ℕ → ℕ → ℕ → RedisRoom → ℕ × RedisRoom
flooded prefix q index n seq s =
    let (m, z) = zadd_fans prefix q index n s.queue in (m, record s { queue = z; seq = seq })

pub join_each-flooded :
    (prefix : String) (q index n seq : ℕ) (s : RedisRoom)
    → seq ≡ q + index
    → join_each prefix index n (record s { seq = seq }) ≡ flooded prefix q index n (seq + n) s
unfolding join_each zadd_fans
join_each-flooded prefix q index zero seq s e = ap (λ m. (0, record s { seq = m })) (omega arith)
join_each-flooded prefix q index (suc n) seq s e =
    let v = visitor_id index prefix in
    let (a, z) = zadd_nx v (seq + 1) s.queue in
    let rest =
      join_each-flooded prefix q (index + 1) n (seq + 1) (record s { queue = z })
        (omega (arith, e)) in
    let score : q + index + 1 ≡ seq + 1 = omega (arith, e) in
    let last : seq + suc n ≡ seq + 1 + n = omega arith in
    rw rest (rw (zadd_nx-count_new v (seq + 1) s.queue) (rw score (rw last refl)))

zadd_fans-split :
    (prefix : String) (q index m n : ℕ) (z : List Entry)
    → let (a, z') = zadd_fans prefix q index m z in
      let (b, z'') = zadd_fans prefix q (index + m) n z' in
      zadd_fans prefix q index (m + n) z ≡ (a + b, z'')
unfolding zadd_fans
zadd_fans-split prefix q index zero n z =
    let same : index + 0 ≡ index = omega arith in
    let len : 0 + n ≡ n = omega arith in
    let none_before : 0 + (zadd_fans prefix q index n z).0 ≡ (zadd_fans prefix q index n z).0 =
      omega arith in
    rw same (rw len (rw none_before refl))
zadd_fans-split prefix q index (suc m) n z =
    let (a, z1) = zadd_nx (visitor_id index prefix) (q + index + 1) z in
    let len : suc m + n ≡ suc (m + n) = omega arith in
    let same : index + suc m ≡ index + 1 + m = omega arith in
    let (b, z2) = zadd_fans prefix q (index + 1) m z1 in
    let (c, z3) = zadd_fans prefix q (index + 1 + m) n z2 in
    let sum : a + (b + c) ≡ a + b + c = omega arith in
    rw len (rw same (rw (zadd_fans-split prefix q (index + 1) m n z1) (rw sum refl)))

abbrev pub quiet : ℕ → RedisRoom → RedisRoom
quiet start s = s

Tiles-in_order : (size a b : ℕ) (rs : List Range) → Tiles size a b rs → a ≤ b
Tiles-in_order size a b [] t = omega (arith, t)
Tiles-in_order size a b (r ∷ rs) t = omega (arith, t.1, Tiles-in_order size r.end b rs t.3)

flood_each-flooded :
    (prefix : String) (q size a b : ℕ) (rs : List Range) (s : RedisRoom)
    → Tiles size a b rs
    → flood_each quiet prefix q rs s ≡ flooded prefix q a (b - a) s.seq s
unfolding flood_each zadd_fans
flood_each-flooded prefix q size a b [] s t =
    let nobody : b - a ≡ 0 = omega (arith, t) in rw nobody refl
flood_each-flooded prefix q size a b (r ∷ rs) s t =
    let (at_a, later, _, tiles) = t in
    let on : r.end ≡ a + (r.end - a) = omega (arith, later) in
    let all : b - a ≡ r.end - a + (b - r.end) =
      omega (arith, later, Tiles-in_order size r.end b rs tiles) in
    let (m, z) = zadd_fans prefix q a (r.end - a) s.queue in
    let rest = flood_each-flooded prefix q size r.end b rs (record s { queue = z }) tiles in
    let both = zadd_fans-split prefix q a (r.end - a) (b - r.end) s.queue in
    rw at_a (rw all (rw both (rw (sym on) (ap (λ x. (m + x.0, x.1)) rest))))

flood_ranges-join_each :
    (count size : ℕ) (prefix : String) (rs : List Range) (s : RedisRoom)
    → Tiles size 0 count rs
    → flood_ranges quiet count prefix rs s ≡ join_each prefix 0 count s
unfolding join_each
flood_ranges-join_each count size prefix [] s t = rw (sym t) refl
flood_ranges-join_each count size prefix (r ∷ rs) s t =
    let start : s.seq + count - count ≡ s.seq = omega arith in
    let whole : count - 0 ≡ count = omega arith in
    flood_each-flooded prefix (s.seq + count - count) size 0 count (r ∷ rs)
      (record s { seq = s.seq + count }) t
    ∙ rw start (rw whole (sym (join_each-flooded prefix s.seq 0 count s.seq s (omega arith))))

-- Alone, and for a batch size of at least 1, the flood is the same as its fans joining one by one, with
-- a new score each: the room is the same and so is the number of those that are new.
pub flood_queue-join_each :
    (count size : ℕ) (prefix : String) (s : RedisRoom)
    → 1 ≤ size
    → flood_queue quiet count size prefix s ≡ some (join_each prefix 0 count s)
unfolding flood_queue
flood_queue-join_each count size prefix s h =
    let (rs, e, tiles) = batch_ranges-Tiles count size h in
    rw (e, flood_queue) (ap some (flood_ranges-join_each count size prefix rs s tiles))
