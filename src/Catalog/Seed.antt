-- ===== src/Catalog/Seed.antt =====
-- src/arena_onsale/catalog/seed.py, with the statements of catalog/repository.py that it sends: a match
-- with its seats and its general-admission pool.
pub mod Chunks
pub mod Twice
pub mod Fits
use arena_onsale.Prelude.{
  ℕ, zero, suc, ◌+◌, String, Bool, true, false, Option, none, some, List, [], ◌∷◌, ◌++◌,
  if◌then◌else◌, leb, is_empty, length,
}
use arena_onsale.Prelude.Query.{find?}
use arena_onsale.Prelude.Text.{str_eq}
use arena_onsale.Tables.{Db, Match, Seat, GeneralAdmission, SeatStatus, available}
use arena_onsale.Catalog.Layout.{SeatSpec, StadiumLayout, seats, cup26_final, cup26_final_small}

abbrev pub has_slug : String → Match → Bool
has_slug slug m = str_eq m.slug slug

unfoldable pub get_match_by_slug : String → Db → Option Match
get_match_by_slug slug db = find? (has_slug slug) db.matches

-- `_INSERT_CHUNK`
abbrev pub insert_chunk : ℕ
insert_chunk = 5_000

abbrev pub new_seat : (ℕ → ℕ) → ℕ → ℕ → SeatSpec → Seat
new_seat new_id match_id i spec = record {
  id = new_id i;
  match_id = match_id;
  section = spec.section;
  row = spec.row;
  number = spec.number;
  status = available;
  hold_id = none;
  held_until = none;
  version = 1;
}

-- The loop of `_insert_seats`: the rows of each insert that it sends, `chunk` being gathered already;
-- `new_id` gives the ids of a call.
unfoldable pub insert_from : ℕ → (ℕ → ℕ) → ℕ → ℕ → List Seat → List SeatSpec → List (List Seat)
insert_from size new_id match_id i chunk [] = if is_empty chunk then [] else chunk ∷ []
insert_from size new_id match_id i chunk (spec ∷ specs) =
    let chunk' = chunk ++ new_seat new_id match_id i spec ∷ [] in
    let flushed = insert_from size new_id match_id (i + 1) [] specs in
    let gathered = insert_from size new_id match_id (i + 1) chunk' specs in
    if leb size (length chunk') then chunk' ∷ flushed else gathered

-- one insert after the other
abbrev pub send : List (List Seat) → List Seat → List Seat
send [] rows = rows
send (chunk ∷ chunks) rows = send chunks (rows ++ chunk)

unfoldable pub insert_seats : (ℕ → ℕ) → ℕ → StadiumLayout → Db → Db
unfolding insert_from
insert_seats new_id match_id layout db = record db {
  seats = send (insert_from insert_chunk new_id match_id 0 [] (seats layout)) db.seats;
}

unfoldable pub add_match : ℕ → StadiumLayout → ℕ → Db → Db
add_match match_id layout starts_at db = record db {
  matches =
      db.matches
      ++ record {
        id = match_id;
        slug = layout.slug;
        name = layout.name;
        venue = layout.venue;
        starts_at = starts_at;
      }
        ∷ [];
}

unfoldable pub add_ga : GeneralAdmission → Db → Db
add_ga ga db = record db { ga_inventory = db.ga_inventory ++ ga ∷ [] }

-- `seed_layout`; `none` is the `RuntimeError` of a match that is not there after the commit
unfoldable pub seed_layout : (ℕ → ℕ) → ℕ → StadiumLayout → ℕ → Db → Option Match × Db
unfolding get_match_by_slug
seed_layout new_id match_id layout starts_at db = elim (get_match_by_slug layout.slug db) [
  | some m ↦ (some m, db)
  | none ↦
      let with_match = add_match match_id layout starts_at db in
      let with_seats = insert_seats new_id match_id layout with_match in
      let seeded =
        add_ga
          (record {
            match_id = match_id;
            capacity = layout.ga_capacity;
            available = layout.ga_capacity;
            version = 1;
          })
          with_seats in
      (get_match_by_slug layout.slug seeded, seeded)
]

-- `LAYOUTS`
unfoldable pub layout_named : String → Option StadiumLayout
unfolding cup26_final
layout_named name =
    if str_eq name "small"
    then some cup26_final_small
    else (if str_eq name "full" then some cup26_final else none)

-- `seed_cup26`; the outer `none` is the `ValueError` of an unknown layout
unfoldable pub seed_cup26 : (ℕ → ℕ) → ℕ → String → ℕ → Db → Option (Option Match × Db)
unfolding layout_named seed_layout
seed_cup26 new_id match_id layout_name starts_at db = elim (layout_named layout_name) [
  | none ↦ none
  | some layout ↦ some (seed_layout new_id match_id layout starts_at db)
]
