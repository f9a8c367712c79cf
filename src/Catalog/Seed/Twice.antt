-- ===== src/Catalog/Seed/Twice.antt =====
-- Seeding a match, and seeding it again.
use arena_onsale.Prelude.{
  ℕ, ◌+◌, ◌≡◌, refl, Bool, true, none, some, List, [], ◌∷◌, ◌++◌, length, arith, inl, inr,
  Option-cases, length-append, ap,
}
use arena_onsale.Prelude.Query.{find?}
use arena_onsale.Prelude.Text.{eq_iff}
use arena_onsale.Tables.{Db, Match}
use arena_onsale.Catalog.Layout.{StadiumLayout, SeatSpec, seats, assigned_capacity}
use arena_onsale.Catalog.Layout.Capacity.{length-seats}
use arena_onsale.Catalog.Seed.{
  has_slug, get_match_by_slug, seed_layout, insert_seats, insert_chunk, add_match, add_ga,
}
use arena_onsale.Catalog.Seed.Chunks.{all_rows, insert_from_lem}

find?-append :
    (p : Match → Bool) (xs : List Match) (m : Match)
    → find? p xs ≡ none
    → p m ≡ true
    → find? p (xs ++ m ∷ []) ≡ some m
find?-append p [] m e h = ground arith
find?-append p (x ∷ xs) m e h = ground (arith, find?-append p xs m)

-- The seed finds the match that it has written: it never ends in the `RuntimeError`. Seeding again, with
-- other ids and another date, answers with the same match and writes nothing.
pub seed_layout-seed_layout :
    (new_id new_id' : ℕ → ℕ) (match_id match_id' starts_at starts_at' : ℕ) (layout : StadiumLayout)
    (db : Db)
    → let (_, db') = seed_layout new_id match_id layout starts_at db in
      (m : Match) × (seed_layout new_id match_id layout starts_at db ≡ (some m, db'))
      × (seed_layout new_id' match_id' layout starts_at' db' ≡ (some m, db'))
unfolding seed_layout get_match_by_slug add_match insert_seats add_ga
seed_layout-seed_layout new_id new_id' match_id match_id' starts_at starts_at' layout db =
    elim (Option-cases (get_match_by_slug layout.slug db)) [
      | inl fresh ↦
          let m : Match = record {
            id = match_id;
            slug = layout.slug;
            name = layout.name;
            venue = layout.venue;
            starts_at = starts_at;
          } in
          let there =
            find?-append (has_slug layout.slug) db.matches m fresh
              ((eq_iff layout.slug layout.slug).1 refl) in
          (m, ground (arith, there), ground (arith, there))
      | inr (m, found) ↦ (m, ground arith, ground arith)
    ]

length-all_rows :
    (new_id : ℕ → ℕ) (m i : ℕ) (specs : List SeatSpec)
    → length (all_rows new_id m i specs) ≡ length specs
length-all_rows new_id m i [] = refl
length-all_rows new_id m i (s ∷ ss) = omega (arith, length-all_rows new_id m (i + 1) ss)

-- A first seed writes the layout's assigned capacity in seats.
pub seed_layout-length :
    (new_id : ℕ → ℕ) (match_id starts_at : ℕ) (layout : StadiumLayout) (db : Db)
    → get_match_by_slug layout.slug db ≡ none
    → let db' = (seed_layout new_id match_id layout starts_at db).1 in
      length db'.seats ≡ length db.seats + assigned_capacity layout
unfolding seed_layout add_match insert_seats add_ga get_match_by_slug
seed_layout-length new_id match_id starts_at layout db fresh =
    let rows =
      (insert_from_lem insert_chunk new_id match_id (seats layout) db.seats (omega arith)).0 in
    ground (
      arith,
      ap (λ ss. length ss) rows,
      length-append db.seats (all_rows new_id match_id 0 (seats layout)),
      length-all_rows new_id match_id 0 (seats layout),
      length-seats layout,
    )
