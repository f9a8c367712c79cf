-- ===== src/Catalog/Seed/Fits.antt =====
-- The seed against the constraints of the tables.
use arena_onsale.Prelude.{
  ℕ, ◌+◌, ◌≡◌, ◌≤◌, refl, String, Bool, false, Option, none, some, List, [], ◌∷◌, ◌++◌, arith, inl,
  inr, Bool-cases, Option-cases, subst, ◌==◌,
}
use arena_onsale.Prelude.Query.{find?, count_where, count_where-append}
use arena_onsale.Prelude.Text.{str_eq, eq_iff}
use arena_onsale.Tables.{
  Db, Match, Seat, GeneralAdmission, slug_is, is_at, belongs_to, breaks_seat_check, breaks_ga_check,
  CatalogFits,
}
use arena_onsale.Catalog.Layout.{StadiumLayout, SeatSpec, seats, cup26_final, cup26_final_small}
use arena_onsale.Catalog.Layout.Codes.{cup26_final-UniqueCodes, cup26_final_small-UniqueCodes}
use arena_onsale.Catalog.Layout.Places.{at_place, UniqueCodes, seats-one_place}
use arena_onsale.Catalog.Seed.{
  get_match_by_slug, seed_layout, seed_cup26, layout_named, insert_seats, insert_chunk, add_match,
  add_ga,
}
use arena_onsale.Catalog.Seed.Chunks.{all_rows, insert_from_lem}

none_found :
    (slug : String) (ms : List Match)
    → find? (slug_is slug) ms ≡ none
    → count_where (slug_is slug) ms ≡ 0
none_found slug [] e = refl
none_found slug (m ∷ ms) e = ground (arith, none_found slug ms)

all_rows-is_at :
    (new_id : ℕ → ℕ) (m i : ℕ) (section row number : String) (specs : List SeatSpec)
    → count_where (is_at m section row number) (all_rows new_id m i specs)
      ≡ count_where (at_place section row number) specs
all_rows-is_at new_id m i section row number [] = refl
all_rows-is_at new_id m i section row number (s ∷ specs) =
    ground (arith, all_rows-is_at new_id m (i + 1) section row number specs)

all_rows_elsewhere :
    (new_id : ℕ → ℕ) (m n i : ℕ) (section row number : String) (specs : List SeatSpec)
    → (m == n) ≡ false
    → count_where (is_at n section row number) (all_rows new_id m i specs) ≡ 0
all_rows_elsewhere new_id m n i section row number [] h = refl
all_rows_elsewhere new_id m n i section row number (s ∷ specs) h =
    ground (arith, all_rows_elsewhere new_id m n (i + 1) section row number specs h)

all_rows_checked :
    (new_id : ℕ → ℕ) (m i : ℕ) (specs : List SeatSpec)
    → count_where breaks_seat_check (all_rows new_id m i specs) ≡ 0
all_rows_checked new_id m i [] = refl
all_rows_checked new_id m i (s ∷ specs) = ground (arith, all_rows_checked new_id m (i + 1) specs)

abbrev pub seat_of : ℕ → Seat → Bool
seat_of m s = s.match_id == m

-- No row has the id of the new match.
pub record IsNew (m : ℕ) (db : Db) : Type 0 where
  pub no_seat : count_where (seat_of m) db.seats ≡ 0
  pub no_pool : count_where (belongs_to m) db.ga_inventory ≡ 0

no_place :
    (m : ℕ) (section row number : String) (ss : List Seat)
    → count_where (seat_of m) ss ≡ 0
    → count_where (is_at m section row number) ss ≡ 0
no_place m section row number [] h = refl
no_place m section row number (s ∷ ss) h = ground (arith, no_place m section row number ss)

one_more_slug :
    (m : Match) (ms : List Match) (slug : String)
    → find? (slug_is m.slug) ms ≡ none
    → count_where (slug_is slug) ms ≤ 1
    → count_where (slug_is slug) (ms ++ m ∷ []) ≤ 1
one_more_slug m ms slug fresh u = elim (Bool-cases (str_eq m.slug slug)) [
  | inl same ↦
      let none_yet : count_where (slug_is slug) ms ≡ 0 =
        subst (λ x. count_where (slug_is x) ms ≡ 0) ((eq_iff m.slug slug).0 same)
          (none_found m.slug ms fresh) in
      ground (arith, count_where-append (slug_is slug) ms (m ∷ []), none_yet)
  | inr other ↦ ground (arith, count_where-append (slug_is slug) ms (m ∷ []), u)
]

more_places :
    (new_id : ℕ → ℕ) (m n : ℕ) (section row number : String) (specs : List SeatSpec)
    (ss : List Seat)
    → count_where (seat_of m) ss ≡ 0
    → count_where (at_place section row number) specs ≤ 1
    → count_where (is_at n section row number) ss ≤ 1
    → count_where (is_at n section row number) (ss ++ all_rows new_id m 0 specs) ≤ 1
more_places new_id m n section row number specs ss h one u =
    let rows = all_rows new_id m 0 specs in
    let split = count_where-append (is_at n section row number) ss rows in
    elim (Bool-cases (m == n)) [
      | inl same ↦
          let here : m ≡ n = ground (arith, same) in
          omega (
            arith,
            split,
            subst (λ x. count_where (is_at x section row number) ss ≡ 0) here
                (no_place m section row number ss h),
            subst
                (λ x.
                  count_where (is_at x section row number) rows
                  ≡ count_where (at_place section row number) specs)
                here (all_rows-is_at new_id m 0 section row number specs),
            one,
          )
      | inr other ↦
          omega (arith, split, all_rows_elsewhere new_id m n 0 section row number specs other, u)
    ]

one_more_pool :
    (g : GeneralAdmission) (gs : List GeneralAdmission) (n : ℕ)
    → count_where (belongs_to g.match_id) gs ≡ 0
    → count_where (belongs_to n) gs ≤ 1
    → count_where (belongs_to n) (gs ++ g ∷ []) ≤ 1
one_more_pool g gs n h u = elim (Bool-cases (g.match_id == n)) [
  | inl same ↦
      let here : g.match_id ≡ n = ground (arith, same) in
      ground (
        arith,
        count_where-append (belongs_to n) gs (g ∷ []),
        subst (λ x. count_where (belongs_to x) gs ≡ 0) here h,
      )
  | inr other ↦ ground (arith, count_where-append (belongs_to n) gs (g ∷ []), u)
]

one_full_pool :
    (m capacity : ℕ) (gs : List GeneralAdmission)
    → count_where breaks_ga_check gs ≡ 0
    → let pool : GeneralAdmission = record {
      match_id = m;
      capacity = capacity;
      available = capacity;
      version = 1;
    } in
      count_where breaks_ga_check (gs ++ pool ∷ []) ≡ 0
one_full_pool m capacity [] h = ground arith
one_full_pool m capacity (g ∷ gs) h = ground (arith, one_full_pool m capacity gs)

-- A seed keeps the constraints of the tables: slugs, places and pools that are unique, versions of at least
-- 1, and no pool with more left than its capacity. The sections of the layout have different codes, and
-- the id of the match is new.
seed_layout-CatalogFits :
    (new_id : ℕ → ℕ) (match_id starts_at : ℕ) (layout : StadiumLayout) (db : Db)
    → UniqueCodes layout
    → IsNew match_id db
    → CatalogFits db
    → CatalogFits (seed_layout new_id match_id layout starts_at db).1
unfolding seed_layout get_match_by_slug add_match insert_seats add_ga
seed_layout-CatalogFits new_id match_id starts_at layout db codes new fits =
    elim (Option-cases (get_match_by_slug layout.slug db)) [
      | inr (m, found) ↦ rw (found, seed_layout) fits
      | inl fresh ↦
          let specs = seats layout in
          let rows =
            (insert_from_lem insert_chunk new_id match_id specs db.seats (omega arith)).0 in
          rw (fresh, seed_layout)
            (record {
              slugs = λ slug. one_more_slug _ db.matches slug fresh (fits.slugs slug);
              locations = λ n section row number. rw rows (
                  more_places new_id match_id n section row number specs db.seats new.no_seat
                    (seats-one_place layout section row number codes)
                    (fits.locations n section row number));
              seats_checked = rw rows (
                  omega (
                    arith,
                    count_where-append breaks_seat_check db.seats
                        (all_rows new_id match_id 0 specs),
                    all_rows_checked new_id match_id 0 specs,
                    fits.seats_checked,
                  ));
              pools = λ n. one_more_pool _ db.ga_inventory n new.no_pool (fits.pools n);
              pools_checked =
                  one_full_pool match_id layout.ga_capacity db.ga_inventory fits.pools_checked;
            })
    ]

layout_named-UniqueCodes :
    (name : String) (layout : StadiumLayout) → layout_named name ≡ some layout → UniqueCodes layout
unfolding layout_named
layout_named-UniqueCodes name layout e = elim (Bool-cases (str_eq name "small")) [
  | inl small ↦
      subst UniqueCodes (let same : cup26_final_small ≡ layout = ground (arith, small) in same)
        cup26_final_small-UniqueCodes
  | inr other ↦ elim (Bool-cases (str_eq name "full")) [
    | inl full ↦
        subst UniqueCodes (let same : cup26_final ≡ layout = ground (arith, other, full) in same)
          cup26_final-UniqueCodes
    | inr neither ↦ absurd (ground (arith, other, neither))
  ]
]

-- Whichever layout is seeded, the constraints of the tables of the catalog are kept: slugs, places and
-- pools that are unique, versions of at least 1, and no pool with more left than its capacity. The id of
-- the match is new.
pub seed_cup26-CatalogFits :
    (new_id : ℕ → ℕ) (match_id starts_at : ℕ) (layout_name : String) (db db' : Db)
    (m : Option Match)
    → IsNew match_id db
    → CatalogFits db
    → seed_cup26 new_id match_id layout_name starts_at db ≡ some (m, db')
    → CatalogFits db'
unfolding seed_cup26
seed_cup26-CatalogFits new_id match_id starts_at layout_name db db' m new fits e =
    elim (Option-cases (layout_named layout_name)) [
      | inl unknown ↦ absurd (ground (arith, unknown))
      | inr (layout, known) ↦
          let written : (seed_layout new_id match_id layout starts_at db).1 ≡ db' =
            ground (arith, known) in
          subst CatalogFits written (
            seed_layout-CatalogFits new_id match_id starts_at layout db
              (layout_named-UniqueCodes layout_name layout known) new fits)
    ]
