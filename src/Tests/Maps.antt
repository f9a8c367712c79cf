-- ===== src/Tests/Maps.antt =====
-- The cache of the seat map at concrete inputs.
use arena_onsale.Prelude.{ℕ, ◌≡◌, refl, [], ◌∷◌, some, none, List, Option}
use arena_onsale.Prelude.Text.{text_le}
use arena_onsale.Prelude.Sort.{sort_by}
use arena_onsale.Settings.{default_settings}
use arena_onsale.Tables.{Db, Match, sold}
use arena_onsale.Catalog.MapView.{SeatMap, assemble_seat_map, gather, add_seat, add_place}
use arena_onsale.Catalog.Service.{seat_map, show_map, get_match, build_map, list_seats, ga_of}
use arena_onsale.Catalog.Service.Cache.{Ask, AllGood, seat_map-AllGood}
use arena_onsale.Tests.Data.{seat_db, open_seat}

abbrev final : Match
final = record { id = 1; slug = "final"; name = "Final"; venue = "Arena"; starts_at = 9 }

abbrev before : Db
before = record seat_db { matches = final ∷ [] }

abbrev after : Db
after = record before { seats = record (open_seat 3 "3") { status = sold } ∷ [] }

-- asked at once, a second later when seats were sold, and when the time to live is over
abbrev asks : List Ask
asks =
    record { now = 0; match_id = 1; db = before }
    ∷ record { now = 1_000_000; match_id = 1; db = after }
    ∷ record { now = 3_000_000; match_id = 1; db = after }
    ∷ []

abbrev total_shown : Option SeatMap → ℕ
total_shown none = 0
total_shown (some p) = p.assigned_total

shows_the_old_map_until_it_ends :
    let first = seat_map text_le default_settings 0 1 [] before in
    let second = seat_map text_le default_settings 1_000_000 1 first.1 after in
    let third = seat_map text_le default_settings 3_000_000 1 second.1 after in
    (total_shown first.0 ≡ 3) × (total_shown second.0 ≡ 3) × (total_shown third.0 ≡ 1)
unfolding seat_map show_map get_match build_map list_seats ga_of assemble_seat_map gather sort_by
    add_seat add_place
shows_the_old_map_until_it_ends = (refl, refl, refl)

seat_map-AllGood_example : AllGood text_le default_settings [] asks []
seat_map-AllGood_example = seat_map-AllGood text_le default_settings asks
