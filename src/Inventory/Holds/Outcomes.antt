-- ===== src/Inventory/Holds/Outcomes.antt =====
-- What a hold request does on success and on every error.
use arena_onsale.Prelude.{
  ℕ, suc, ◌≡◌, refl, Bool, true, false, none, some, List, [], ◌∷◌, if◌then◌else◌, ◌==◌, arith, inl,
  inr, Option-cases, is_empty, All, length, ◌⊎◌, leb, Bool-cases, contains, ◌&&◌,
}
use arena_onsale.Prelude.Query.{select, count_where, length-select}
use arena_onsale.Settings.{Settings}
use arena_onsale.Tables.{Db, Hold, Seat, available}
use arena_onsale.Inventory.Locking.{SeatLockGate, ordered_seat_ids, acquire_all, release_all}
use arena_onsale.Inventory.Locking.AllOrNone.{acquire_all_lem, release_all-acquire_all}
use arena_onsale.Inventory.Locking.Ordered.{contains-ordered}
use arena_onsale.Inventory.Holds.{
  HoldRequest, HoldError, HoldResult, ok, err, new_hold, persist_hold, reserve, reserve_new,
  proceed, settle, existing_hold, insert_seat, order_by_id, is_wanted, is_taken, seat_ids_of,
  write_hold,
}

module _ (P : Seat → Type 0) where
  All-insert_seat : (s : Seat) (ts : List Seat) → All P (insert_seat s ts) → P s × All P ts
  All-insert_seat s [] a = a
  All-insert_seat s (t ∷ ts) a = elim (Bool-cases (leb s.id t.id)) [
    | inl before ↦ let b : All P (s ∷ t ∷ ts) = rw before at a in b
    | inr after ↦
        let b : All P (t ∷ insert_seat s ts) = rw after at a in
        let c = All-insert_seat s ts b.1 in (c.0, (b.0, c.1))
  ]

  All-order_by_id : (ss : List Seat) → All P (order_by_id ss) → All P ss
  unfolding order_by_id
  All-order_by_id [] a = tt
  All-order_by_id (s ∷ ss) a =
      let b = All-insert_seat s (order_by_id ss) a in (b.0, All-order_by_id ss b.1)

  All-select :
      (w : Seat → Bool) (ss : List Seat) → All P (select w ss) → All (λ s. w s ≡ true → P s) ss
  All-select w [] a = tt
  All-select w (s ∷ ss) a = elim (Bool-cases (w s)) [
    | inl here ↦ let b : All P (s ∷ select w ss) = rw here at a in ((λ _. b.0), All-select w ss b.1)
    | inr not_here ↦
        let b : All P (select w ss) = rw not_here at a in ((λ e. cc), All-select w ss b)
  ]

length-insert_seat : (s : Seat) (ts : List Seat) → length (insert_seat s ts) ≡ suc (length ts)
length-insert_seat s [] = refl
length-insert_seat s (t ∷ ts) = ground (arith, length-insert_seat s ts)

length-order_by_id : (ss : List Seat) → length (order_by_id ss) ≡ length ss
unfolding order_by_id
length-order_by_id [] = refl
length-order_by_id (s ∷ ss) =
    omega (arith, length-insert_seat s (order_by_id ss), length-order_by_id ss)

none_taken :
    (ss : List Seat)
    → is_empty (seat_ids_of (select is_taken ss)) ≡ true
    → All (λ s. s.status ≡ available) ss
none_taken [] e = tt
none_taken (s ∷ ss) e = ground (arith, none_taken ss)

-- What `_persist_hold` has checked and written when it returns the hold.
pub record Persisted (ids : List ℕ) (h : Hold) (db db' : Db) : Type 0 where
  -- each requested seat is a row of the match, and was available
  pub all_found : count_where (is_wanted h.match_id ids) db.seats ≡ length ids
  pub was_free : All (λ s. is_wanted h.match_id ids s ≡ true → s.status ≡ available) db.seats
  -- the new hold and the held seats are all that has changed
  pub written : db' ≡ write_hold h.match_id ids h db

persist_hold-Persisted :
    (ids : List ℕ) (h g : Hold) (db : Db)
    → (persist_hold ids h db).0 ≡ ok g true
    → Persisted ids h db (persist_hold ids h db).1
unfolding persist_hold
persist_hold-Persisted ids h g db e =
    let w = is_wanted h.match_id ids in
    let found = select w db.seats in
    record {
      all_found = ground (arith, length-order_by_id found, length-select w db.seats);
      was_free =
          All-select (λ s. s.status ≡ available) w db.seats
            (All-order_by_id (λ s. s.status ≡ available) found
              (none_taken (order_by_id found) (ground arith)));
      written = ground arith;
    }

persist_hold-err :
    (ids : List ℕ) (h : Hold) (db : Db) (e : HoldError)
    → (persist_hold ids h db).0 ≡ err e
    → (persist_hold ids h db).1 ≡ db
unfolding persist_hold
persist_hold-err ids h db e k = ground arith

persist_hold-ok :
    (ids : List ℕ) (h g : Hold) (db : Db) → (persist_hold ids h db).0 ≡ ok g true → g ≡ h
unfolding persist_hold
persist_hold-ok ids h g db k = ground arith

module _ (gate : SeatLockGate) (m : ℕ) (ordered got : List ℕ) (token : ℕ) where
  open gate use {State, owner}

  proceed-err :
      (locks : State) (db : Db) (r : HoldResult × Db) (e : HoldError)
      → let (x, locks', db') = proceed gate m ordered token (got, locks) db r in
        x ≡ err e
        → (locks' ≡ release_all gate m got token locks)
          × ((db' ≡ db) ⊎ ((db' ≡ r.1) × (r.0 ≡ err e)))
  unfolding proceed settle release_all
  proceed-err locks db (ok h b, db') e k = ground arith
  proceed-err locks db (err x, db') e k = ground arith

  proceed-granted :
      (locks : State) (db : Db) (r : HoldResult × Db) (h : Hold)
      → let (x, locks', db') = proceed gate m ordered token (got, locks) db r in
        x ≡ ok h true → (locks' ≡ locks) × (db' ≡ r.1) × (r.0 ≡ ok h true) × (is_empty got ≡ false)
  unfolding proceed settle
  proceed-granted locks db (ok g b, db') h k = ground arith
  proceed-granted locks db (err x, db') h k = ground arith

-- What a granted request has done to the rows and to the locks.
pub record Granted (gate : SeatLockGate) (rq : HoldRequest) (h : Hold) (db db' : Db)
    (locks locks' : SeatLockGate.State gate) : Type 0 where
  pub rows : Persisted (ordered_seat_ids rq.seat_ids) h db db'
  pub free : (j : ℕ) → contains j rq.seat_ids ≡ true → gate.owner locks rq.match_id j ≡ none
  pub taken :
      (n j : ℕ)
      → gate.owner locks' n j
        ≡ (if (rq.match_id == n) && contains j rq.seat_ids then some h.id else gate.owner locks n j)

module _ (gate : SeatLockGate) where
  open gate use {State, owner}

  module _ (between : Db → Db) (s : Settings) (rq : HoldRequest) (hold_id now : ℕ) (locks : State)
      (db : Db) where
    abbrev attempt : HoldResult × State × Db
    attempt = reserve_new gate between s rq hold_id now locks db

    abbrev got_locks : List ℕ × State
    got_locks =
        acquire_all gate rq.match_id (ordered_seat_ids rq.seat_ids) hold_id s.hold_ttl_seconds locks

    got_free :
        is_empty got_locks.0 ≡ false
        → (j : ℕ) → contains j rq.seat_ids ≡ true
        → owner locks rq.match_id j ≡ none
    got_free e j c =
        elim (acquire_all_lem gate rq.match_id hold_id s.hold_ttl_seconds
          (ordered_seat_ids rq.seat_ids) locks) [
            | inl (_, f, _) ↦ f j (rw (contains-ordered j, contains-ordered j) c)
            | inr (nothing, _, _) ↦ ground arith
          ]

    got_taken :
        is_empty got_locks.0 ≡ false
        → (i j : ℕ)
        → owner got_locks.1 i j
          ≡ (if (rq.match_id == i) && contains j rq.seat_ids then some hold_id else owner locks i j)
    got_taken e i j =
        elim (acquire_all_lem gate rq.match_id hold_id s.hold_ttl_seconds
          (ordered_seat_ids rq.seat_ids) locks) [
            | inl (_, _, t) ↦ ground (
              arith,
              t i j,
              contains-ordered j (ordered_seat_ids rq.seat_ids),
              contains-ordered j rq.seat_ids,
            )
            | inr (nothing, _, _) ↦ ground arith
          ]

    attempt_err-locks :
        (e : HoldError) (n j : ℕ) → attempt.0 ≡ err e → owner attempt.1 n j ≡ owner locks n j
    unfolding reserve_new
    attempt_err-locks e n j k =
        let ids = ordered_seat_ids rq.seat_ids in
        let got = acquire_all gate rq.match_id ids hold_id s.hold_ttl_seconds locks in
        rw (proceed-err gate rq.match_id ids got.0 hold_id got.1 db _ e k).0
          (release_all-acquire_all gate rq.match_id hold_id s.hold_ttl_seconds ids locks n j)

    attempt_err-rows :
        (e : HoldError) → attempt.0 ≡ err e → (attempt.2 ≡ db) ⊎ (attempt.2 ≡ between db)
    unfolding reserve_new
    attempt_err-rows e k =
        let ids = ordered_seat_ids rq.seat_ids in
        let got = acquire_all gate rq.match_id ids hold_id s.hold_ttl_seconds locks in
        let n = new_hold s rq hold_id now in
        let r = persist_hold ids n (between db) in
        ground (
          arith,
          proceed-err gate rq.match_id ids got.0 hold_id got.1 db r e,
          persist_hold-err ids n (between db) e,
        )

    attempt-Granted :
        (h : Hold)
        → attempt.0 ≡ ok h true
        → (h ≡ new_hold s rq hold_id now) × Granted gate rq h (between db) attempt.2 locks attempt.1
    unfolding reserve_new
    attempt-Granted h k =
        let ids = ordered_seat_ids rq.seat_ids in
        let got = acquire_all gate rq.match_id ids hold_id s.hold_ttl_seconds locks in
        let n = new_hold s rq hold_id now in
        let p =
          proceed-granted gate rq.match_id ids got.0 hold_id got.1 db
            (persist_hold ids n (between db)) h k in
        let same : h ≡ n = persist_hold-ok ids n h (between db) p.2 in
        (
          same,
          rw same (record {
            rows = rw p.1 (persist_hold-Persisted ids n h (between db) p.2);
            free = λ j c. got_free p.3 j c;
            taken = λ i j. rw p.0 (got_taken p.3 i j);
          }),
        )

    -- A hold request that fails, before the locks, at the locks or at the rows, leaves every lock
    -- with the owner that it had and writes nothing: the rows are those that the others have
    -- committed.
    pub reserve-err :
        (e : HoldError)
        → let (x, locks', db') = reserve gate between s rq hold_id now locks db in
          x ≡ err e
          → ((n j : ℕ) → owner locks' n j ≡ owner locks n j) × ((db' ≡ db) ⊎ (db' ≡ between db))
    unfolding reserve
    reserve-err e k = elim (Option-cases (existing_hold rq.idempotency_key db)) [
      | inl fresh ↦
          ((λ n j. ground (arith, attempt_err-locks e n j)), ground (arith, attempt_err-rows e))
      | inr (h, found) ↦ ((λ n j. ground arith), ground arith)
    ]

    -- A granted request has found every requested seat of the match available and every lock free;
    -- it has written one new hold, made exactly those seats held by it, and has exactly their locks.
    pub reserve-Granted :
        (h : Hold)
        → let (x, locks', db') = reserve gate between s rq hold_id now locks db in
          x ≡ ok h true
          → (h ≡ new_hold s rq hold_id now) × Granted gate rq h (between db) db' locks locks'
    unfolding reserve
    reserve-Granted h k = elim (Option-cases (existing_hold rq.idempotency_key db)) [
      | inl fresh ↦ ground (arith, attempt-Granted h)
      | inr (g, found) ↦ ground arith
    ]
