-- ===== src/Load.antt =====
-- src/arena_onsale/load/flood.py: a crowd that is put straight into the queue in Redis, in batches.
pub mod Tiles
pub mod Fans
pub mod Joins
pub mod Arrivals
use arena_onsale.Prelude.{
  ℕ, zero, suc, ◌+◌, ◌-◌, String, Option, none, some, List, [], ◌∷◌, if◌then◌else◌, ltb, leb, min,
}
use arena_onsale.Prelude.Numerals.{str}
use arena_onsale.Prelude.Text.{text_length, append}
use arena_onsale.WaitingRoom.Memory.{Entry}
use arena_onsale.WaitingRoom.Redis.{RedisRoom, zadd_nx}

abbrev pub zeros : ℕ → String → String
zeros zero s = s
zeros (suc n) s = String.◌∷◌ "0" (zeros n s)

-- `f"{index:07d}"`
abbrev pub padded : ℕ → String
padded index = let s = str index in zeros (7 - text_length s) s

-- `visitor_id`
unfoldable pub visitor_id : ℕ → String → String
unfolding str text_length append
visitor_id index prefix = append prefix (String.◌∷◌ "-" (padded index))

pub record Range : Type 0 where
  pub start : ℕ
  pub end : ℕ

-- the ranges from `start` on; `fuel` bounds their number
unfoldable pub ranges_from : ℕ → ℕ → ℕ → ℕ → List Range
ranges_from zero count batch_size start = []
ranges_from (suc fuel) count batch_size start =
    let rest = ranges_from fuel count batch_size (start + batch_size) in
    if ltb start count
    then record { start = start; end = min (start + batch_size) count } ∷ rest
    else []

-- `batch_ranges`; `none` is the `ValueError` of a batch size of 0 (no `count` is negative here)
unfoldable pub batch_ranges : ℕ → ℕ → Option (List Range)
unfolding ranges_from
batch_ranges count batch_size =
    if leb batch_size 0 then none else some (ranges_from count count batch_size 0)

-- `ZADD QUEUE_KEY NX` of the fans from `index` on, `n` of them, with their scores: the number of those
-- added, and the queue
unfoldable pub zadd_fans : String → ℕ → ℕ → ℕ → List Entry → ℕ × List Entry
unfolding zadd_nx visitor_id
zadd_fans prefix seq_start index zero z = (0, z)
zadd_fans prefix seq_start index (suc n) z =
    let (a, z') = zadd_nx (visitor_id index prefix) (seq_start + index + 1) z in
    let (b, z'') = zadd_fans prefix seq_start (index + 1) n z' in (a + b, z'')

-- The loop over the batches. `between` is what other clients do before the batch that begins at an index.
unfoldable pub flood_each :
    (ℕ → RedisRoom → RedisRoom) → String → ℕ → List Range → RedisRoom → ℕ × RedisRoom
unfolding zadd_fans
flood_each between prefix seq_start [] s = (0, s)
flood_each between prefix seq_start (r ∷ rs) s =
    let s' = between r.start s in
    let (a, z) = zadd_fans prefix seq_start r.start (r.end - r.start) s'.queue in
    let (b, s'') = flood_each between prefix seq_start rs (record s' { queue = z }) in (a + b, s'')

-- from `INCRBY SEQ_KEY count` on, where there is a batch
abbrev pub flood_ranges :
    (ℕ → RedisRoom → RedisRoom) → ℕ → String → List Range → RedisRoom → ℕ × RedisRoom
flood_ranges between count prefix [] s = (0, s)
flood_ranges between count prefix (r ∷ rs) s =
    let seq_end = s.seq + count in
    flood_each between prefix (seq_end - count) (r ∷ rs) (record s { seq = seq_end })

-- `flood_queue`; `none` is the `ValueError` of `batch_ranges`
unfoldable pub flood_queue :
    (ℕ → RedisRoom → RedisRoom) → ℕ → ℕ → String → RedisRoom → Option (ℕ × RedisRoom)
unfolding batch_ranges flood_each
flood_queue between count batch_size prefix s = elim (batch_ranges count batch_size) [
  | none ↦ none
  | some ranges ↦ some (flood_ranges between count prefix ranges s)
]
