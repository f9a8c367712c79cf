-- ===== src/Load/Tiles.antt =====
-- How the batches cut the crowd.
use arena_onsale.Prelude.{
  ℕ, zero, suc, ◌+◌, ◌≤◌, ◌<◌, ◌≡◌, refl, some, List, [], ◌∷◌, arith, ltb, leb, Bool-cases, inl,
  inr,
}
use arena_onsale.Load.{Range, ranges_from, batch_ranges}

-- The ranges run from `a` to `b`, each beginning where the one before it ends, none of them empty or
-- longer than `size`.
abbrev pub Tiles : ℕ → ℕ → ℕ → List Range → Type 0
Tiles size a b [] = a ≡ b
Tiles size a b (r ∷ rs) = (r.start ≡ a) × (a < r.end) × (r.end ≤ a + size) × Tiles size r.end b rs

ended : (fuel count size start : ℕ) → count ≤ start → ranges_from fuel count size start ≡ []
unfolding ranges_from
ended zero count size start h = refl
ended (suc fuel) count size start h = ground arith

ranges_from-Tiles :
    (fuel count size start : ℕ)
    → 1 ≤ size
    → start ≤ count
    → count ≤ start + fuel
    → Tiles size start count (ranges_from fuel count size start)
unfolding ranges_from
ranges_from-Tiles zero count size start p h f = omega arith
ranges_from-Tiles (suc fuel) count size start p h f = elim (Bool-cases (ltb start count)) [
  | inr done ↦ rw done (ground arith)
  | inl more ↦ elim (Bool-cases (leb (start + size) count)) [
    | inl whole ↦ ground (arith, ranges_from-Tiles fuel count size (start + size) p)
    | inr last ↦ ground (arith, ended fuel count size (start + size))
  ]
]

-- For a batch size of at least 1, the batches of `batch_ranges` tile the crowd from 0 to `count`.
pub batch_ranges-Tiles :
    (count size : ℕ)
    → 1 ≤ size
    → (rs : List Range) × (batch_ranges count size ≡ some rs) × Tiles size 0 count rs
unfolding batch_ranges
batch_ranges-Tiles count size h = (
  ranges_from count count size 0,
  ground arith,
  ranges_from-Tiles count count size 0 h (omega arith) (omega arith),
)
