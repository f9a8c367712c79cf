-- ===== src/Catalog/Layout/Places.antt =====
-- The places that a layout spells out.
use arena_onsale.Prelude.{
  ℕ, zero, suc, ◌+◌, ◌≡◌, ◌≤◌, ◌<◌, refl, String, Bool, false, ◌&&◌, List, [], ◌∷◌, arith, inl, inr,
  Bool-cases, ap, sym, ◌∙◌,
}
use arena_onsale.Prelude.Query.{count_where, count_where-append}
use arena_onsale.Prelude.Numerals.{str, read, read-str}
use arena_onsale.Prelude.Text.{str_eq, eq_iff}
use arena_onsale.Catalog.Layout.{
  SeatSpec, SectionSpec, StadiumLayout, row_label, row_seats, section_seats, seats_of, seats,
}
use arena_onsale.Catalog.Layout.Labels.{row_label-injective}

abbrev pub at_place : String → String → String → SeatSpec → Bool
at_place code row number s = str_eq s.section code && (str_eq s.row row && str_eq s.number number)

abbrev pub has_code : String → SectionSpec → Bool
has_code code sec = str_eq sec.code code

pub str-injective : (i j : ℕ) → str i ≡ str j → i ≡ j
str-injective i j e = omega (arith, read-str i, read-str j, ap (λ s. read 10 48 0 s) e)

module _ (c r k : String) where
  abbrev here : List SeatSpec → ℕ
  here xs = count_where (at_place c r k) xs

  other_code :
      (code row : String) (n count : ℕ)
      → str_eq code c ≡ false
      → here (row_seats code row n count) ≡ 0
  unfolding row_seats
  other_code code row n zero h = refl
  other_code code row n (suc count) h = ground (arith, other_code code row (n + 1) count)

  other_row :
      (code row : String) (n count : ℕ)
      → str_eq row r ≡ false
      → here (row_seats code row n count) ≡ 0
  unfolding row_seats
  other_row code row n zero h = refl
  other_row code row n (suc count) h = ground (arith, other_row code row (n + 1) count)

  later_number :
      (code row : String) (m n count : ℕ)
      → str m ≡ k
      → m < n
      → here (row_seats code row n count) ≡ 0
  unfolding row_seats
  later_number code row m n zero e h = refl
  later_number code row m n (suc count) e h = elim (Bool-cases (str_eq (str n) k)) [
    | inl same ↦ absurd (omega (arith, h, str-injective m n (e ∙ sym ((eq_iff (str n) k).0 same))))
    | inr other ↦ ground (arith, later_number code row m (n + 1) count e)
  ]

  one_number : (code row : String) (n count : ℕ) → here (row_seats code row n count) ≤ 1
  unfolding row_seats
  one_number code row n zero = omega arith
  one_number code row n (suc count) = elim (Bool-cases (str_eq (str n) k)) [
    | inl same ↦
        ground
          (arith, later_number code row n (n + 1) count ((eq_iff (str n) k).0 same) (omega arith))
    | inr other ↦ ground (arith, one_number code row (n + 1) count)
  ]

  -- the rows from the one after `j` on
  later_row :
      (sec : SectionSpec) (j i count : ℕ)
      → row_label j ≡ r
      → j < i
      → here (section_seats sec i count) ≡ 0
  unfolding section_seats
  later_row sec j i zero e h = refl
  later_row sec j i (suc count) e h = elim (Bool-cases (str_eq (row_label i) r)) [
    | inl same ↦
        absurd
          (omega (arith, h, row_label-injective j i (e ∙ sym ((eq_iff (row_label i) r).0 same))))
    | inr other ↦ omega (
      arith,
      count_where-append (at_place c r k) (row_seats sec.code (row_label i) 1 sec.seats_per_row)
          (section_seats sec (i + 1) count),
      other_row sec.code (row_label i) 1 sec.seats_per_row other,
      later_row sec j (i + 1) count e (omega (arith, h)),
    )
  ]

  other_section :
      (sec : SectionSpec) (i count : ℕ)
      → str_eq sec.code c ≡ false
      → here (section_seats sec i count) ≡ 0
  unfolding section_seats
  other_section sec i zero h = refl
  other_section sec i (suc count) h = omega (
    arith,
    count_where-append (at_place c r k) (row_seats sec.code (row_label i) 1 sec.seats_per_row)
        (section_seats sec (i + 1) count),
    other_code sec.code (row_label i) 1 sec.seats_per_row h,
    other_section sec (i + 1) count h,
  )

  one_row : (sec : SectionSpec) (i count : ℕ) → here (section_seats sec i count) ≤ 1
  unfolding section_seats
  one_row sec i zero = omega arith
  one_row sec i (suc count) =
      let split =
        count_where-append (at_place c r k) (row_seats sec.code (row_label i) 1 sec.seats_per_row)
          (section_seats sec (i + 1) count) in
      elim (Bool-cases (str_eq (row_label i) r)) [
        | inl same ↦ omega (
          arith,
          split,
          one_number sec.code (row_label i) 1 sec.seats_per_row,
          later_row sec i (i + 1) count ((eq_iff (row_label i) r).0 same) (omega arith),
        )
        | inr other ↦ omega (
          arith,
          split,
          other_row sec.code (row_label i) 1 sec.seats_per_row other,
          one_row sec (i + 1) count,
        )
      ]

  other_sections :
      (secs : List SectionSpec) → count_where (has_code c) secs ≡ 0 → here (seats_of secs) ≡ 0
  unfolding seats_of
  other_sections [] h = refl
  other_sections (sec ∷ secs) h = elim (Bool-cases (str_eq sec.code c)) [
    | inl same ↦ absurd (ground (arith, h))
    | inr other ↦ omega (
      arith,
      count_where-append (at_place c r k) (section_seats sec 0 sec.rows) (seats_of secs),
      other_section sec 0 sec.rows other,
      other_sections secs (ground (arith, h)),
    )
  ]

  one_section :
      (secs : List SectionSpec) → count_where (has_code c) secs ≤ 1 → here (seats_of secs) ≤ 1
  unfolding seats_of
  one_section [] h = omega arith
  one_section (sec ∷ secs) h =
      let split =
        count_where-append (at_place c r k) (section_seats sec 0 sec.rows) (seats_of secs) in
      elim (Bool-cases (str_eq sec.code c)) [
        | inl same ↦
            omega (arith, split, one_row sec 0 sec.rows, other_sections secs (ground (arith, h)))
        | inr other ↦
            omega (
              arith,
              split,
              other_section sec 0 sec.rows other,
              one_section secs (ground (arith, h)),
            )
      ]

-- No two sections of a layout have the same code.
abbrev pub UniqueCodes : StadiumLayout → Type 0
UniqueCodes layout = (code : String) → count_where (has_code code) layout.sections ≤ 1

-- A layout whose sections have different codes spells out no place twice.
pub seats-one_place :
    (layout : StadiumLayout) (code row number : String)
    → UniqueCodes layout
    → count_where (at_place code row number) (seats layout) ≤ 1
unfolding seats
seats-one_place layout code row number u = one_section code row number layout.sections (u code)
