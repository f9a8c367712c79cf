-- ===== src/Api/Catalog.antt =====
-- src/arena_onsale/catalog/router.py with catalog/schemas.py: the routes of the catalog. The body of a
-- seat map is the map itself.
use arena_onsale.Prelude.{ℕ, String, Bool, true, Option, none, some, List, map}
use arena_onsale.Settings.{Settings}
use arena_onsale.Tables.{Db, Match, GeneralAdmission}
use arena_onsale.WaitingRoom.Store.{WaitingRoomStore}
use arena_onsale.Admission.{require_admission}
use arena_onsale.Catalog.MapView.{SeatMap}
use arena_onsale.Catalog.Service.{get_match, list_matches, ga_of, seat_map, CachedMap}
use arena_onsale.Api.{text, Reply, replied, refused, admitted}

pub record GaSummary : Type 0 where
  pub available : ℕ
  pub capacity : ℕ
  pub approximate : Bool

pub record MatchSummary : Type 0 where
  pub id : ℕ
  pub slug : String
  pub name : String
  pub venue : String
  pub starts_at : ℕ
  pub ga : Option GaSummary

abbrev pub ga_summary : Option GeneralAdmission → Option GaSummary
ga_summary none = none
ga_summary (some g) =
    some (record { available = g.available; capacity = g.capacity; approximate = true })

-- `_summary`
unfoldable pub summary : Db → Match → MatchSummary
summary db m = record {
  id = m.id;
  slug = m.slug;
  name = m.name;
  venue = m.venue;
  starts_at = m.starts_at;
  ga = ga_summary (ga_of m.id db);
}

-- `list_matches`
unfoldable pub list_route : Db → Reply (List MatchSummary)
unfolding summary
list_route db = replied 200 (map (summary db) (list_matches db))

-- `get_match`
unfoldable pub match_route : ℕ → Db → Reply MatchSummary
unfolding summary
match_route i db = elim (get_match i db) [
  | none ↦ refused 404 (text "match not found")
  | some m ↦ replied 200 (summary db m)
]

abbrev pub map_or_missing : Option SeatMap × List CachedMap → Reply SeatMap × List CachedMap
map_or_missing (none, cache) = (refused 404 (text "match not found"), cache)
map_or_missing (some shown, cache) = (replied 200 shown, cache)

-- `get_seat_map`
unfoldable pub map_route :
    (String → String → Bool)
    → Settings
    → ℕ
    → ℕ
    → List CachedMap
    → Db
    → Reply SeatMap × List CachedMap
map_route collates cfg now i cache db = map_or_missing (seat_map collates cfg now i cache db)

-- GET /matches/{match_id}/map
unfoldable pub get_seat_map :
    (rooms : WaitingRoomStore)
    → (String → String → Bool)
    → Settings
    → ℕ
    → Option String
    → ℕ
    → rooms.State
    → List CachedMap
    → Db
    → Reply SeatMap × rooms.State × List CachedMap
unfolding map_route
get_seat_map rooms collates cfg now token i room cache db =
    admitted (require_admission rooms now token room) true cache
      (map_route collates cfg now i cache db)
