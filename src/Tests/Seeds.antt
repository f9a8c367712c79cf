-- ===== src/Tests/Seeds.antt =====
-- The seed of the catalog at concrete inputs.
use arena_onsale.Prelude.{ℕ, ◌+◌, ◌≡◌, refl, String, Option, some, arith, [], ◌∷◌, map}
use arena_onsale.Tables.{Db, Match, CatalogFits}
use arena_onsale.Catalog.Layout.{StadiumLayout, seats, cup26_final_small}
use arena_onsale.Catalog.Seed.{seed_layout, seed_cup26, layout_named}
use arena_onsale.Catalog.Seed.Fits.{IsNew, seed_cup26-CatalogFits}
use arena_onsale.Tests.Data.{empty_db}

abbrev ids : ℕ → ℕ
ids i = 100 + i

empty_db-IsNew : IsNew 1 empty_db
empty_db-IsNew = record { no_seat = refl; no_pool = refl }

empty_db-CatalogFits : CatalogFits empty_db
empty_db-CatalogFits = record {
  slugs = λ slug. omega arith;
  locations = λ m section row number. omega arith;
  seats_checked = refl;
  pools = λ m. omega arith;
  pools_checked = refl;
}

abbrev seeded : Option Match × Db
seeded = seed_layout ids 1 cup26_final_small 9 empty_db

seeded_small : seed_cup26 ids 1 "small" 9 empty_db ≡ some (seeded.0, seeded.1)
unfolding seed_cup26 layout_named
seeded_small = refl

seed_cup26-CatalogFits_example : CatalogFits seeded.1
seed_cup26-CatalogFits_example =
    seed_cup26-CatalogFits ids 1 9 "small" empty_db seeded.1 seeded.0 empty_db-IsNew
      empty_db-CatalogFits seeded_small

abbrev two_by_two : StadiumLayout
two_by_two = record cup26_final_small {
  sections = record { code = "101"; rows = 2; seats_per_row = 2 } ∷ [];
}

two_by_two_seats :
    map {B = String × String} (λ s. (s.row, s.number)) (seats two_by_two)
    ≡ ("A", "1") ∷ ("A", "2") ∷ ("B", "1") ∷ ("B", "2") ∷ []
unfolding seats
two_by_two_seats = refl
