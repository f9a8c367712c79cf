-- ===== src/Catalog/Layout.antt =====
-- src/arena_onsale/catalog/layout.py: the sections of a stadium and the seats that they spell out.
pub mod Labels
pub mod Loop
pub mod Places
pub mod Codes
pub mod Capacity
use arena_onsale.Prelude.{
  ℕ, zero, suc, ◌+◌, ◌-◌, ◌*◌, ◌/◌, ◌%◌, String, List, [], ◌∷◌, ◌++◌, if◌then◌else◌, ◌==◌,
}
use arena_onsale.Prelude.Query.{sum_of}
use arena_onsale.Prelude.Numerals.{chr, str}

pub record SeatSpec : Type 0 where
  pub section : String
  pub row : String
  pub number : String

pub record SectionSpec : Type 0 where
  pub code : String
  pub rows : ℕ
  pub seats_per_row : ℕ

pub record StadiumLayout : Type 0 where
  pub slug : String
  pub name : String
  pub venue : String
  pub sections : List SectionSpec
  pub ga_capacity : ℕ

abbrev pub seats_in : SectionSpec → ℕ
seats_in s = s.rows * s.seats_per_row

unfoldable pub assigned_capacity : StadiumLayout → ℕ
assigned_capacity layout = sum_of seats_in layout.sections

-- The loop of `_row_label`; `fuel` bounds its turns.
unfoldable pub label_from : ℕ → ℕ → String → String
unfolding chr
label_from zero remaining label = label
label_from (suc fuel) remaining label =
    let rest =
      label_from fuel ((remaining - 1) / 26) (String.◌∷◌ (chr (65 + (remaining - 1) % 26)) label) in
    if remaining == 0 then label else rest

-- `_row_label`: A, …, Z, AA, AB, …
unfoldable pub row_label : ℕ → String
unfolding label_from
row_label index = label_from (index + 1) (index + 1) String.[]

-- the seats of a row from the seat `seat_n` on, `count` of them
unfoldable pub row_seats : String → String → ℕ → ℕ → List SeatSpec
unfolding str
row_seats code row seat_n zero = []
row_seats code row seat_n (suc count) =
    record { section = code; row = row; number = str seat_n }
    ∷ row_seats code row (seat_n + 1) count

-- the rows of a section from `row_index` on, `count` of them
unfoldable pub section_seats : SectionSpec → ℕ → ℕ → List SeatSpec
unfolding row_seats row_label
section_seats section row_index zero = []
section_seats section row_index (suc count) =
    row_seats section.code (row_label row_index) 1 section.seats_per_row
    ++ section_seats section (row_index + 1) count

unfoldable pub seats_of : List SectionSpec → List SeatSpec
unfolding section_seats
seats_of [] = []
seats_of (section ∷ sections) = section_seats section 0 section.rows ++ seats_of sections

-- `StadiumLayout.seats`
unfoldable pub seats : StadiumLayout → List SeatSpec
unfolding seats_of
seats layout = seats_of layout.sections

-- `CUP26_FINAL_SMALL`
abbrev pub cup26_final_small : StadiumLayout
cup26_final_small = record {
  slug = "cup26-final";
  name = "Cup26 Final";
  venue = "Harbor Arena";
  sections =
      record { code = "101"; rows = 5; seats_per_row = 8 }
      ∷ record { code = "102"; rows = 5; seats_per_row = 8 }
      ∷ record { code = "VIP"; rows = 2; seats_per_row = 4 }
      ∷ [];
  ga_capacity = 40;
}

-- the sections 101 to 120, `count` of them from `n` on
unfoldable pub full_sections : ℕ → ℕ → List SectionSpec
unfolding str
full_sections n zero = []
full_sections n (suc count) =
    record { code = str (100 + n); rows = 25; seats_per_row = 130 } ∷ full_sections (n + 1) count

-- `CUP26_FINAL`
unfoldable pub cup26_final : StadiumLayout
unfolding full_sections
cup26_final = record {
  slug = "cup26-final";
  name = "Cup26 Final";
  venue = "Harbor Arena";
  sections = full_sections 1 20;
  ga_capacity = 15_000;
}
