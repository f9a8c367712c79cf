-- ===== src/Catalog/Service.antt =====
-- src/arena_onsale/catalog/service.py with the statements of catalog/repository.py: the matches, and the
-- map of a match behind a cache. The payload is the same before and after its JSON text; a cached key is
-- there until the server's clock reaches its end. How the database orders texts is the argument
-- `collates`.
pub mod Cache
use arena_onsale.Prelude.{
  ℕ, ◌+◌, String, Bool, true, false, ◌&&◌, ◌||◌, not, Option, none, some, List, [], ◌∷◌,
  if◌then◌else◌, ltb, leb, ◌==◌,
}
use arena_onsale.Prelude.Query.{find?, select, count_where}
use arena_onsale.Prelude.Sort.{sort_by}
use arena_onsale.Prelude.Text.{str_eq}
use arena_onsale.Settings.{Settings, seconds}
use arena_onsale.Tables.{
  Db, Match, Seat, GeneralAdmission, SeatStatus, available, held, sold, is_available, is_held,
}
use arena_onsale.Catalog.MapView.{SeatMap, assemble_seat_map}

abbrev pub match_is : ℕ → Match → Bool
match_is i m = m.id == i

-- `CatalogRepository.get_match`
unfoldable pub get_match : ℕ → Db → Option Match
get_match i db = find? (match_is i) db.matches

abbrev pub starts_before : Match → Match → Bool
starts_before m n = leb m.starts_at n.starts_at

-- `CatalogRepository.list_matches`; matches that start together stay in the order of the table
unfoldable pub list_matches : Db → List Match
list_matches db = sort_by starts_before db.matches

-- `match.ga`
unfoldable pub ga_of : ℕ → Db → Option GeneralAdmission
ga_of i db = find? (λ g. g.match_id == i) db.ga_inventory

abbrev pub available_of : Option GeneralAdmission → Option ℕ
available_of none = none
available_of (some g) = some g.available

abbrev pub capacity_of : Option GeneralAdmission → Option ℕ
capacity_of none = none
capacity_of (some g) = some g.capacity

abbrev pub has_status : SeatStatus → Seat → Bool
has_status available s = is_available s.status
has_status held s = is_held s.status
has_status sold s = not (is_available s.status) && not (is_held s.status)

-- the row of a status in the answer to `GROUP BY`, which has no row for a status without seats
unfoldable pub status_count : ℕ → SeatStatus → Db → List (SeatStatus × ℕ)
status_count i st db =
    let n = count_where (λ s. (s.match_id == i) && has_status st s) db.seats in
    if n == 0 then [] else (st, n) ∷ []

module _ (collates : String → String → Bool) where
  -- `ORDER BY section, row, number`
  abbrev pub seat_before : Seat → Seat → Bool
  seat_before s t =
      if str_eq s.section t.section
      then (if str_eq s.row t.row then collates s.number t.number else collates s.row t.row)
      else collates s.section t.section

  -- `CatalogRepository.list_seats`
  unfoldable pub list_seats : ℕ → Db → List Seat
  list_seats i db = sort_by seat_before (select (λ s. s.match_id == i) db.seats)

  -- `_build_map`
  unfoldable pub build_map : Settings → Match → Db → SeatMap
  unfolding list_seats
  build_map cfg m db =
      let ga = ga_of m.id db in
      assemble_seat_map m.id m.slug (list_seats m.id db) (available_of ga) (capacity_of ga)
        cfg.seat_map_ttl_seconds false

-- a key `catalog:map:{match_id}`
pub record CachedMap : Type 0 where
  pub match_id : ℕ
  pub payload : SeatMap
  pub until : ℕ

abbrev pub map_of : ℕ → CachedMap → Bool
map_of i c = c.match_id == i

-- `GET`, the server's clock being at `now`
abbrev pub get_cached : ℕ → ℕ → List CachedMap → Option SeatMap
get_cached now i cache = elim (find? (map_of i) cache) [
  | none ↦ none
  | some c ↦ if ltb now c.until then some c.payload else none
]

-- `SET ... EX`
abbrev pub set_cached : CachedMap → List CachedMap → List CachedMap
set_cached c cache = c ∷ select (λ d. not (map_of c.match_id d)) cache

module _ (collates : String → String → Bool) where
  -- the part of `seat_map` after the match is found
  unfoldable pub show_map :
      Settings → ℕ → ℕ → Match → List CachedMap → Db → Option SeatMap → SeatMap × List CachedMap
  show_map cfg now i m cache db (some payload) = (record payload { from_cache = true }, cache)
  show_map cfg now i m cache db none =
      let payload = build_map collates cfg m db in
      (
        payload,
        set_cached
            (record {
              match_id = i;
              payload = payload;
              until = now + seconds cfg.seat_map_ttl_seconds;
            })
            cache,
      )

  abbrev pub as_found : SeatMap × List CachedMap → Option SeatMap × List CachedMap
  as_found (payload, cache) = (some payload, cache)

  -- `CatalogService.seat_map`
  unfoldable pub seat_map : Settings → ℕ → ℕ → List CachedMap → Db → Option SeatMap × List CachedMap
  unfolding show_map
  seat_map cfg now i cache db = elim (get_match i db) [
    | none ↦ (none, cache)
    | some m ↦ as_found (show_map cfg now i m cache db (get_cached now i cache))
  ]
