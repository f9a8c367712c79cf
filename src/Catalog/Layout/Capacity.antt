-- ===== src/Catalog/Layout/Capacity.antt =====
-- How many seats a layout spells out.
use arena_onsale.Prelude.{
  ℕ, zero, suc, ◌+◌, ◌*◌, ◌≡◌, refl, String, List, [], ◌∷◌, arith, length, length-append,
}
use arena_onsale.Prelude.Query.{sum_of}
use arena_onsale.Catalog.Layout.{
  SectionSpec, StadiumLayout, seats_in, assigned_capacity, row_label, row_seats, section_seats,
  seats_of, seats,
}

length-row_seats : (code row : String) (n count : ℕ) → length (row_seats code row n count) ≡ count
unfolding row_seats
length-row_seats code row n zero = refl
length-row_seats code row n (suc count) = omega (arith, length-row_seats code row (n + 1) count)

length-section_seats :
    (s : SectionSpec) (i count : ℕ) → length (section_seats s i count) ≡ count * s.seats_per_row
unfolding section_seats
length-section_seats s i zero = omega arith
length-section_seats s i (suc count) = omega (
  arith,
  length-append (row_seats s.code (row_label i) 1 s.seats_per_row) (section_seats s (i + 1) count),
  length-row_seats s.code (row_label i) 1 s.seats_per_row,
  length-section_seats s (i + 1) count,
)

length-seats_of : (ss : List SectionSpec) → length (seats_of ss) ≡ sum_of seats_in ss
unfolding seats_of
length-seats_of [] = refl
length-seats_of (s ∷ ss) = omega (
  arith,
  length-append (section_seats s 0 s.rows) (seats_of ss),
  length-section_seats s 0 s.rows,
  length-seats_of ss,
)

-- A layout spells out as many seats as its capacity says.
pub length-seats : (layout : StadiumLayout) → length (seats layout) ≡ assigned_capacity layout
unfolding seats assigned_capacity
length-seats layout = length-seats_of layout.sections
