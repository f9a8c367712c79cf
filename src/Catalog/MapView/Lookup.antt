-- ===== src/Catalog/MapView/Lookup.antt =====
-- The map that is shown, read back.
use arena_onsale.Prelude.{
  ℕ, ◌+◌, ◌≡◌, refl, String, Bool, true, false, ◌&&◌, Option, List, [], ◌∷◌, ◌++◌, map,
  if◌then◌else◌, arith, length, ap, ◌∙◌, sym,
}
use arena_onsale.Prelude.Query.{select, count_where}
use arena_onsale.Prelude.Text.{str_eq, text_le, eq_iff}
use arena_onsale.Prelude.Sort.{insert_by, sort_by}
use arena_onsale.Tables.{Seat, is_available}
use arena_onsale.Catalog.MapView.{
  Place, RowView, SectionView, Gathered, add_place, add_seat, gather, place_of, section_before,
  assemble_seat_map,
}

-- `rows.get(row, [])`
abbrev pub places_in : String → List RowView → List Place
places_in row [] = []
places_in row (r ∷ rs) = if str_eq r.row row then r.places else places_in row rs

-- `sections.get(code, {}).get(row, [])`
abbrev pub places_at : String → String → List SectionView → List Place
places_at code row [] = []
places_at code row (v ∷ vs) =
    if str_eq v.code code then places_in row v.rows else places_at code row vs

abbrev pub sits_at : String → String → Seat → Bool
sits_at code row s = str_eq s.section code && str_eq s.row row

same_text : (s t u : String) → str_eq s t ≡ true → str_eq s u ≡ str_eq t u
same_text s t u e = ap (λ v. str_eq v u) ((eq_iff s t).0 e)

same_right : (s t u : String) → str_eq t u ≡ true → str_eq s t ≡ str_eq s u
same_right s t u e = ap (λ v. str_eq s v) ((eq_iff t u).0 e)

eq_is_le : (s t : String) → str_eq s t ≡ true → text_le s t ≡ true
eq_is_le s t e = ground arith

places_in-add :
    (row : String) (s : Seat) (rs : List RowView)
    → places_in row (add_place s.row (place_of s) rs)
      ≡ (if str_eq s.row row then places_in row rs ++ place_of s ∷ [] else places_in row rs)
unfolding add_place
places_in-add row s [] = ground arith
places_in-add row s (r ∷ rs) =
    ground (arith, same_text r.row s.row row, same_right r.row s.row row, places_in-add row s rs)

places_at-add :
    (code row : String) (s : Seat) (vs : List SectionView)
    → places_at code row (add_seat s vs) ≡ (
        if sits_at code row s
        then places_at code row vs ++ place_of s ∷ []
        else places_at code row vs)
unfolding add_seat
places_at-add code row s [] = ground (arith, places_in-add row s [])
places_at-add code row s (v ∷ vs) = ground (
  arith,
  same_text v.code s.section code,
  same_right v.code s.section code,
  places_in-add row s v.rows,
  places_at-add code row s vs,
)

append-one {ℓ} :
    {A : Type ℓ} (xs : List A) (y : A) (zs : List A) → (xs ++ y ∷ []) ++ zs ≡ xs ++ y ∷ zs
append-one [] y zs = ground arith
append-one (x ∷ xs) y zs = ap (λ r. x ∷ r) (append-one xs y zs)

append-nil {ℓ} : {A : Type ℓ} (xs : List A) → xs ++ [] ≡ xs
append-nil [] = refl
append-nil (x ∷ xs) = ap (λ r. x ∷ r) (append-nil xs)

place_step :
    (s : Seat) (ss : List Seat) (p : Seat → Bool) (b : Bool) (before after : List Place)
    → after ≡ (if b then before ++ place_of s ∷ [] else before)
    → after ++ map place_of (select p ss)
      ≡ before ++ map place_of (if b then s ∷ select p ss else select p ss)
place_step s ss p true before after e =
    ap (λ ps. ps ++ map place_of (select p ss)) e
    ∙ append-one before (place_of s) (map place_of (select p ss))
place_step s ss p false before after e = ap (λ ps. ps ++ map place_of (select p ss)) e

gather-places :
    (code row : String) (ss : List Seat) (g : Gathered)
    → places_at code row (gather ss g).sections
      ≡ places_at code row g.sections ++ map place_of (select (sits_at code row) ss)
unfolding gather
gather-places code row [] g = sym (append-nil _)
gather-places code row (s ∷ ss) g =
    let next : Gathered = record {
      available = if is_available s.status then g.available + 1 else g.available;
      total = g.total + 1;
      sections = add_seat s g.sections;
    } in
    gather-places code row ss next
    ∙ place_step s ss (sits_at code row) _ _ _ (places_at-add code row s g.sections)

gather-counts :
    (ss : List Seat) (g : Gathered)
    → ((gather ss g).available ≡ g.available + count_where (λ s. is_available s.status) ss)
      × ((gather ss g).total ≡ g.total + length ss)
unfolding gather
gather-counts [] g = (omega arith, omega arith)
gather-counts (s ∷ ss) g =
    let rest = gather-counts ss (record {
      available = if is_available s.status then g.available + 1 else g.available;
      total = g.total + 1;
      sections = add_seat s g.sections;
    }) in
    (ground (arith, rest.0), omega (arith, rest.1))

insert-places :
    (code row : String) (v : SectionView) (vs : List SectionView)
    → places_at code row (insert_by section_before v vs) ≡ places_at code row (v ∷ vs)
insert-places code row v [] = refl
insert-places code row v (w ∷ vs) = ground (
  arith,
  eq_is_le v.code w.code,
  same_text v.code code w.code,
  same_right v.code w.code code,
  insert-places code row v vs,
)

sort-places :
    (code row : String) (vs : List SectionView)
    → places_at code row (sort_by section_before vs) ≡ places_at code row vs
unfolding sort_by
sort-places code row [] = refl
sort-places code row (v ∷ vs) =
    ground (arith, insert-places code row v (sort_by section_before vs), sort-places code row vs)

-- The map shows the house: under a section and a row stand the seats of that section and row, each with
-- its number and status, in the order given and no other; its totals count the seats and the available
-- ones.
pub assemble_seat_map_lem :
    (m : ℕ) (slug : String) (seats : List Seat) (ga_available ga_capacity : Option ℕ) (ttl : ℕ)
    (cached : Bool)
    → let shown = assemble_seat_map m slug seats ga_available ga_capacity ttl cached in
      ((code row : String)
        → places_at code row shown.sections ≡ map place_of (select (sits_at code row) seats))
      × (shown.assigned_total ≡ length seats)
      × (shown.assigned_available ≡ count_where (λ s. is_available s.status) seats)
unfolding assemble_seat_map
assemble_seat_map_lem m slug seats ga_available ga_capacity ttl cached =
    let none_yet : Gathered = record { available = 0; total = 0; sections = [] } in
    let counts = gather-counts seats none_yet in
    (
      (λ code row. sort-places code row _ ∙ gather-places code row seats none_yet),
      omega (arith, counts.1),
      omega (arith, counts.0),
    )
