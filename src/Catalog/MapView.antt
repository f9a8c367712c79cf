-- ===== src/Catalog/MapView.antt =====
-- src/arena_onsale/catalog/map_view.py: the map of a match that is shown. A `dict` is the list of its
-- entries in order of insertion; the status is the enum, not its text.
pub mod Lookup
use arena_onsale.Prelude.{
  ℕ, ◌+◌, String, Bool, true, false, Option, none, some, List, [], ◌∷◌, ◌++◌, if◌then◌else◌,
}
use arena_onsale.Prelude.Text.{str_eq, text_le}
use arena_onsale.Prelude.Sort.{sort_by}
use arena_onsale.Tables.{Seat, SeatStatus, is_available}

pub record Place : Type 0 where
  pub number : String
  pub status : SeatStatus

pub record RowView : Type 0 where
  pub row : String
  pub places : List Place

pub record SectionView : Type 0 where
  pub code : String
  pub rows : List RowView

pub record GaView : Type 0 where
  pub available : ℕ
  pub capacity : ℕ

pub record SeatMap : Type 0 where
  pub match_id : ℕ
  pub slug : String
  pub from_cache : Bool
  pub ttl_seconds : ℕ
  pub assigned_available : ℕ
  pub assigned_total : ℕ
  pub ga : Option GaView
  pub sections : List SectionView

-- `rows.setdefault(row, []).append(place)`
unfoldable pub add_place : String → Place → List RowView → List RowView
add_place row p [] = record { row = row; places = p ∷ [] } ∷ []
add_place row p (r ∷ rs) =
    if str_eq r.row row
    then record r { places = r.places ++ p ∷ [] } ∷ rs
    else r ∷ add_place row p rs

abbrev pub place_of : Seat → Place
place_of s = record { number = s.number; status = s.status }

-- `sections.setdefault(section, {})`, and the seat into it
unfoldable pub add_seat : Seat → List SectionView → List SectionView
unfolding add_place
add_seat s [] = record { code = s.section; rows = add_place s.row (place_of s) [] } ∷ []
add_seat s (v ∷ vs) =
    if str_eq v.code s.section
    then record v { rows = add_place s.row (place_of s) v.rows } ∷ vs
    else v ∷ add_seat s vs

-- what the loop has gathered
pub record Gathered : Type 0 where
  pub available : ℕ
  pub total : ℕ
  pub sections : List SectionView

unfoldable pub gather : List Seat → Gathered → Gathered
unfolding add_seat
gather [] g = g
gather (s ∷ ss) g = gather ss (record {
  available = if is_available s.status then g.available + 1 else g.available;
  total = g.total + 1;
  sections = add_seat s g.sections;
})

abbrev pub section_before : SectionView → SectionView → Bool
section_before v w = text_le v.code w.code

abbrev pub ga_view : Option ℕ → Option ℕ → Option GaView
ga_view (some available) (some capacity) =
    some (record { available = available; capacity = capacity })
ga_view (some available) none = none
ga_view none capacity = none

unfoldable pub assemble_seat_map : ℕ → String → List Seat → Option ℕ → Option ℕ → ℕ → Bool → SeatMap
unfolding gather
assemble_seat_map match_id slug seats ga_available ga_capacity ttl_seconds from_cache =
    let g = gather seats (record { available = 0; total = 0; sections = [] }) in
    record {
      match_id = match_id;
      slug = slug;
      from_cache = from_cache;
      ttl_seconds = ttl_seconds;
      assigned_available = g.available;
      assigned_total = g.total;
      ga = ga_view ga_available ga_capacity;
      sections = sort_by section_before g.sections;
    }
