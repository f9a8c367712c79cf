-- ===== src/Tables/Constraints.antt =====
-- The constraints of alembic/versions/0001_catalog.py on the tables of the catalog. A constraint on two
-- rows is the count of the rows that have the same key, one on a row the count of those that break it.
use arena_onsale.Prelude.{ℕ, ◌≡◌, ◌≤◌, String, Bool, not, ◌&&◌, leb, ◌==◌}
use arena_onsale.Prelude.Query.{count_where}
use arena_onsale.Prelude.Text.{str_eq}
use arena_onsale.Tables.Catalog.{Match, Seat, GeneralAdmission}
use arena_onsale.Tables.Database.{Db}

abbrev pub slug_is : String → Match → Bool
slug_is slug m = str_eq m.slug slug

abbrev pub is_at : ℕ → String → String → String → Seat → Bool
is_at m section row number s =
    (s.match_id == m) && (str_eq s.section section && (str_eq s.row row && str_eq s.number number))

abbrev pub belongs_to : ℕ → GeneralAdmission → Bool
belongs_to m g = g.match_id == m

-- `uq_matches_slug`
abbrev pub UniqueSlugs : Db → Type 0
UniqueSlugs db = (slug : String) → count_where (slug_is slug) db.matches ≤ 1

-- `uq_seat_location`
abbrev pub UniqueLocations : Db → Type 0
UniqueLocations db =
    (m : ℕ) (section row number : String) → count_where (is_at m section row number) db.seats ≤ 1

-- `ck_seat_version_positive`
abbrev pub breaks_seat_check : Seat → Bool
breaks_seat_check s = not (leb 1 s.version)

-- the primary key of `ga_inventory`
abbrev pub UniquePools : Db → Type 0
UniquePools db = (m : ℕ) → count_where (belongs_to m) db.ga_inventory ≤ 1

-- `ck_ga_available_lte_capacity` and `ck_ga_version_positive`; no number of the model is negative
abbrev pub breaks_ga_check : GeneralAdmission → Bool
breaks_ga_check g = not (leb g.available g.capacity && leb 1 g.version)

pub record CatalogFits (db : Db) : Type 0 where
  pub slugs : UniqueSlugs db
  pub locations : UniqueLocations db
  pub seats_checked : count_where breaks_seat_check db.seats ≡ 0
  pub pools : UniquePools db
  pub pools_checked : count_where breaks_ga_check db.ga_inventory ≡ 0
