-- ===== src/Inventory/Holds/Replay.antt =====
-- Idempotency of a hold request.
use arena_onsale.Prelude.{
  ℕ, ◌≡◌, refl, true, false, some, List, arith, inl, inr, Option-cases, is_empty,
}
use arena_onsale.Prelude.Text.{eq_iff}
use arena_onsale.Settings.{Settings}
use arena_onsale.Tables.{Db, Hold}
use arena_onsale.Inventory.Locking.{SeatLockGate, ordered_seat_ids, acquire_all}
use arena_onsale.Inventory.Holds.{
  HoldRequest, HoldResult, ok, err, new_hold, persist_hold, reserve, reserve_new, settle,
  existing_hold,
}

-- What a granted hold has left behind.
abbrev Granted : HoldRequest → Hold → Db → Type 0
Granted rq h db =
    (is_empty rq.seat_ids ≡ false)
    × (existing_hold rq.idempotency_key db ≡ some h)
    × (h.session_id ≡ rq.session_id)

persist_hold-existing :
    (ids : List ℕ) (h g : Hold) (db : Db)
    → (persist_hold ids h db).0 ≡ ok g true
    → (g ≡ h) × (existing_hold h.idempotency_key (persist_hold ids h db).1 ≡ some h)
unfolding persist_hold existing_hold
persist_hold-existing ids h g db e = ground (arith, eq_iff h.idempotency_key h.idempotency_key)

module _ (gate : SeatLockGate) where
  open gate use {State}

  settle-ok :
      (m : ℕ) (got : List ℕ) (token : ℕ) (locks : State) (r : HoldResult × Db) (h : Hold)
      → (settle gate m got token locks r).0 ≡ ok h true
      → (r.0 ≡ ok h true) × ((settle gate m got token locks r).2 ≡ r.1)
  unfolding settle
  settle-ok m got token locks (ok h b, db) g e = (e, refl)
  settle-ok m got token locks (err x, db) g e = cc

  reserve-Granted :
      (between : Db → Db) (s : Settings) (rq : HoldRequest) (hold_id now : ℕ) (locks : State)
      (db : Db) (h : Hold)
      → (reserve gate between s rq hold_id now locks db).0 ≡ ok h true
      → Granted rq h (reserve gate between s rq hold_id now locks db).2
  unfolding reserve reserve_new new_hold
  reserve-Granted between s rq hold_id now locks db h e =
      elim (Option-cases (existing_hold rq.idempotency_key db)) [
        | inl fresh ↦
            let ids = ordered_seat_ids rq.seat_ids in
            let got = acquire_all gate rq.match_id ids hold_id s.hold_ttl_seconds locks in
            let n = new_hold s rq hold_id now in
            let r = persist_hold ids n (between db) in
            ground (
              arith,
              settle-ok rq.match_id got.0 hold_id got.1 r h,
              persist_hold-existing ids n h (between db),
            )
        | inr (g, found) ↦ ground arith
      ]

  reserve_again :
      (between : Db → Db) (s : Settings) (rq : HoldRequest) (hold_id now : ℕ) (locks : State)
      (db : Db) (h : Hold)
      → Granted rq h db
      → reserve gate between s rq hold_id now locks db ≡ (ok h false, locks, db)
  unfolding reserve
  reserve_again between s rq hold_id now locks db h g =
      ground (arith, eq_iff h.session_id rq.session_id)

  -- A hold request that was granted and is sent again, at any time, with any locks and whatever the
  -- others do meanwhile, gets the same hold as a replay; it takes no lock and writes nothing.
  pub reserve-reserve_hold :
      (between between' : Db → Db) (s : Settings) (rq : HoldRequest) (hold_id hold_id' now now' : ℕ)
      (locks locks' : State) (db : Db) (h : Hold)
      → (reserve gate between s rq hold_id now locks db).0 ≡ ok h true
      → let db' = (reserve gate between s rq hold_id now locks db).2 in
        reserve gate between' s rq hold_id' now' locks' db' ≡ (ok h false, locks', db')
  reserve-reserve_hold between between' s rq hold_id hold_id' now now' locks locks' db h e =
      reserve_again between' s rq hold_id' now' locks' _ h
        (reserve-Granted between s rq hold_id now locks db h e)
