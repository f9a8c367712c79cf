-- ===== src/Catalog/Service/Cache.antt =====
-- How old the map of a match can be.
use arena_onsale.Prelude.{
  ℕ, ◌+◌, ◌≡◌, ◌<◌, refl, String, Bool, true, not, Option, none, some, List, [], ◌∷◌, arith, All,
  ltb, inl, inr, ◌⊎◌, Bool-cases, Option-cases, ◌∙◌, sym, ap, subst, ltb→lt, ==_iff,
}
use arena_onsale.Prelude.Query.{find?, select}
use arena_onsale.Settings.{Settings, seconds}
use arena_onsale.Tables.{Db, Match}
use arena_onsale.Catalog.MapView.{SeatMap}
use arena_onsale.Catalog.Service.{
  get_match, build_map, CachedMap, map_of, get_cached, set_cached, show_map, seat_map,
}

-- a call of `seat_map`, with the database that it finds
pub record Ask : Type 0 where
  pub now : ℕ
  pub match_id : ℕ
  pub db : Db

abbrev pub OneOf : Ask → List Ask → Type 0
OneOf a [] = ⊥
OneOf a (b ∷ bs) = (b ≡ a) ⊎ OneOf a bs

module _ (collates : String → String → Bool) (cfg : Settings) where
  -- what the map of an asked match is, built from the database of that call
  pub record BuiltFor (a : Ask) (p : SeatMap) : Type 0 where
    pub row : Match
    pub found : get_match a.match_id a.db ≡ some row
    pub as_built : p ≡ record (build_map collates cfg row a.db) { from_cache = p.from_cache }

  -- a cached map was built for a call, and lasts from then on for its time to live
  pub record CachedFor (past : List Ask) (c : CachedMap) : Type 0 where
    pub ask : Ask
    pub was_asked : OneOf ask past
    pub of_match : ask.match_id ≡ c.match_id
    pub built : BuiltFor ask c.payload
    pub ends : c.until ≡ ask.now + seconds cfg.seat_map_ttl_seconds

  -- a map that is shown was built for this call, or for an earlier one of the same match less than the
  -- time to live ago
  pub record Recent (past : List Ask) (a : Ask) (p : SeatMap) : Type 0 where
    pub ask : Ask
    pub was_asked : OneOf ask past
    pub same_match : ask.match_id ≡ a.match_id
    pub built : BuiltFor ask p
    pub not_old : (ask ≡ a) ⊎ (a.now < ask.now + seconds cfg.seat_map_ttl_seconds)

  abbrev pub GoodAnswer : List Ask → Ask → Option SeatMap → Type 0
  GoodAnswer past a none = get_match a.match_id a.db ≡ none
  GoodAnswer past a (some p) = Recent past a p

  -- every answer to the calls is good, where `past` are the earlier calls
  abbrev pub AllGood : List Ask → List Ask → List CachedMap → Type 0
  AllGood past [] cache = Unit
  AllGood past (a ∷ rest) cache =
      let (shown, cache') = seat_map collates cfg a.now a.match_id cache a.db in
      GoodAnswer (a ∷ past) a shown × AllGood (a ∷ past) rest cache'

  longer_past :
      (a : Ask) (past : List Ask) (c : CachedMap) → CachedFor past c → CachedFor (a ∷ past) c
  longer_past a past c k = record {
    ask = k.ask;
    was_asked = inr k.was_asked;
    of_match = k.of_match;
    built = k.built;
    ends = k.ends;
  }

  all_longer :
      (a : Ask) (past : List Ask) (cache : List CachedMap)
      → All (CachedFor past) cache
      → All (CachedFor (a ∷ past)) cache
  all_longer a past [] k = tt
  all_longer a past (c ∷ cs) k = (longer_past a past c k.0, all_longer a past cs k.1)

  some_left :
      (P : CachedMap → Type 0) (p : CachedMap → Bool) (cache : List CachedMap)
      → All P cache
      → All P (select p cache)
  some_left P p [] k = tt
  some_left P p (c ∷ cs) k = elim (Bool-cases (p c)) [
    | inl stays ↦ rw stays (k.0, some_left P p cs k.1)
    | inr goes ↦ rw goes (some_left P p cs k.1)
  ]

  all_found :
      (P : CachedMap → Type 0) (i : ℕ) (c : CachedMap) (cache : List CachedMap)
      → All P cache
      → find? (map_of i) cache ≡ some c
      → P c × (c.match_id ≡ i)
  all_found P i c [] k e = absurd cc
  all_found P i c (d ∷ ds) k e = elim (Bool-cases (map_of i d)) [
    | inl here ↦
        let same : d ≡ c = ground (arith, e, here) in
        (subst P same k.0, sym (ap (λ x. x.match_id) same) ∙ (==_iff d.match_id i).0 here)
    | inr further ↦ all_found P i c ds k.1 (ground (arith, e, further))
  ]

  from_cache_good :
      (past : List Ask) (a : Ask) (c : CachedMap) (m : Match)
      → CachedFor past c
      → c.match_id ≡ a.match_id
      → ltb a.now c.until ≡ true
      → Recent (a ∷ past) a (record (c.payload) { from_cache = true })
  from_cache_good past a c m k e live = record {
    ask = k.ask;
    was_asked = inr k.was_asked;
    same_match = k.of_match ∙ e;
    built = record {
      row = k.built.row;
      found = k.built.found;
      as_built = ap (λ (p : SeatMap). record p { from_cache = true }) k.built.as_built;
    };
    not_old = inr (omega (arith, ltb→lt a.now c.until live, k.ends));
  }

  -- the three paths of `seat_map`
  no_match :
      (a : Ask) (cache : List CachedMap)
      → get_match a.match_id a.db ≡ none
      → seat_map collates cfg a.now a.match_id cache a.db ≡ (none, cache)
  unfolding seat_map
  no_match a cache e = ground (arith, e)

  cache_hit :
      (a : Ask) (m : Match) (p : SeatMap) (cache : List CachedMap)
      → get_match a.match_id a.db ≡ some m
      → get_cached a.now a.match_id cache ≡ some p
      → seat_map collates cfg a.now a.match_id cache a.db
        ≡ (some (record p { from_cache = true }), cache)
  unfolding seat_map show_map
  cache_hit a m p cache e k = rw (e, seat_map) (rw k refl)

  abbrev entry_now : Ask → Match → CachedMap
  entry_now a m = record {
    match_id = a.match_id;
    payload = build_map collates cfg m a.db;
    until = a.now + seconds cfg.seat_map_ttl_seconds;
  }

  cache_miss :
      (a : Ask) (m : Match) (cache : List CachedMap)
      → get_match a.match_id a.db ≡ some m
      → get_cached a.now a.match_id cache ≡ none
      → seat_map collates cfg a.now a.match_id cache a.db
        ≡ (some (build_map collates cfg m a.db), set_cached (entry_now a m) cache)
  unfolding seat_map show_map
  cache_miss a m cache e k = rw (e, seat_map) (rw k refl)

  built_now :
      (a : Ask) (m : Match)
      → get_match a.match_id a.db ≡ some m
      → BuiltFor a (build_map collates cfg m a.db)
  unfolding build_map
  built_now a m e = record { row = m; found = e; as_built = refl }

  miss_good :
      (past : List Ask) (a : Ask) (m : Match) (cache : List CachedMap)
      → All (CachedFor past) cache
      → get_match a.match_id a.db ≡ some m
      → Recent (a ∷ past) a (build_map collates cfg m a.db)
        × All (CachedFor (a ∷ past)) (set_cached (entry_now a m) cache)
  miss_good past a m cache k e = (
    record {
      ask = a;
      was_asked = inl refl;
      same_match = refl;
      built = built_now a m e;
      not_old = inl refl;
    },
    (
      record {
        ask = a;
        was_asked = inl refl;
        of_match = refl;
        built = built_now a m e;
        ends = refl;
      },
      some_left (CachedFor (a ∷ past)) (λ d. not (map_of a.match_id d)) cache
          (all_longer a past cache k),
    ),
  )

  answer_good :
      (past : List Ask) (a : Ask) (cache : List CachedMap)
      → All (CachedFor past) cache
      → let (shown, cache') = seat_map collates cfg a.now a.match_id cache a.db in
        GoodAnswer (a ∷ past) a shown × All (CachedFor (a ∷ past)) cache'
  answer_good past a cache k = elim (Option-cases (get_match a.match_id a.db)) [
    | inl gone ↦ rw (no_match a cache gone) (gone, all_longer a past cache k)
    | inr (m, found) ↦ elim (Option-cases (find? (map_of a.match_id) cache)) [
      | inl never ↦
          rw (cache_miss a m cache found (ground (arith, never))) (miss_good past a m cache k found)
      | inr (c, kept) ↦
          let (was, of_match) = all_found (CachedFor past) a.match_id c cache k kept in
          elim (Bool-cases (ltb a.now c.until)) [
            | inl live ↦
                rw (cache_hit a m c.payload cache found (ground (arith, kept, live)))
                  (from_cache_good past a c m was of_match live, all_longer a past cache k)
            | inr over ↦
                rw (cache_miss a m cache found (ground (arith, kept, over)))
                  (miss_good past a m cache k found)
          ]
    ]
  ]

  all_good :
      (past asks : List Ask) (cache : List CachedMap)
      → All (CachedFor past) cache
      → AllGood past asks cache
  all_good past [] cache k = tt
  all_good past (a ∷ asks) cache k =
      let (good, k') = answer_good past a cache k in
      let cache' = (seat_map collates cfg a.now a.match_id cache a.db).1 in
      (good, all_good (a ∷ past) asks cache' k')

-- From an empty cache, whatever calls come in whatever order and whatever the database has become in
-- between: an answer without a map means that the match is not in the database, and a map that is shown
-- is the one of the call's own database, or of the database that an earlier call for the same match
-- found less than the time to live ago.
pub seat_map-AllGood :
    (collates : String → String → Bool) (cfg : Settings) (asks : List Ask)
    → AllGood collates cfg [] asks []
seat_map-AllGood collates cfg asks = all_good collates cfg [] asks [] tt
