-- ===== src/Inventory/Holds/Seats.antt =====
-- What ties seats to holds, across a hold request.
use arena_onsale.Prelude.{
  ℕ, ◌≡◌, refl, Bool, true, false, Option, none, some, List, [], ◌∷◌, arith, All, is_none, inl, inr,
  Option-cases,
}
use arena_onsale.Prelude.Query.{find?, update_where}
use arena_onsale.Settings.{Settings}
use arena_onsale.Tables.{
  Db, Seat, Hold, SeatStatus, available, held, sold, HoldStatus, active, confirmed,
}
use arena_onsale.Inventory.Locking.{SeatLockGate, ordered_seat_ids, acquire_all}
use arena_onsale.Inventory.Holds.{
  HoldRequest, HoldResult, ok, err, hold_is, is_wanted, mark_held, new_hold, persist_hold, reserve,
  reserve_new, settle, existing_hold,
}

abbrev pub status_of : ℕ → List Hold → Option HoldStatus
status_of h hs = elim (find? (hold_is h) hs) [ none ↦ none | some x ↦ some x.status ]

abbrev pub is_active_at : Option HoldStatus → Bool
is_active_at (some active) = true
is_active_at _ = false

abbrev pub is_confirmed_at : Option HoldStatus → Bool
is_confirmed_at (some confirmed) = true
is_confirmed_at _ = false

-- An available seat names no hold; a held seat names an active hold, a sold one a confirmed hold.
abbrev pub seat_ok : List Hold → SeatStatus → Option ℕ → Bool
seat_ok hs available h = is_none h
seat_ok hs held none = false
seat_ok hs held (some h) = is_active_at (status_of h hs)
seat_ok hs sold none = false
seat_ok hs sold (some h) = is_confirmed_at (status_of h hs)

abbrev pub SeatsOk : List Hold → List Seat → Type 0
SeatsOk hs ss = All (λ s. seat_ok hs s.status s.hold_id ≡ true) ss

abbrev pub IsConsistent : Db → Type 0
IsConsistent db = SeatsOk db.holds db.seats

-- A new hold under a fresh id disturbs no seat.
seat_ok-new :
    (h : Hold) (hs : List Hold) (st : SeatStatus) (o : Option ℕ)
    → find? (hold_is h.id) hs ≡ none
    → seat_ok hs st o ≡ true
    → seat_ok (h ∷ hs) st o ≡ true
seat_ok-new h hs available o e k = k
seat_ok-new h hs held none e k = k
seat_ok-new h hs held (some i) e k = ground arith
seat_ok-new h hs sold none e k = k
seat_ok-new h hs sold (some i) e k = ground arith

SeatsOk-write :
    (m : ℕ) (ids : List ℕ) (h : Hold) (hs : List Hold) (ss : List Seat)
    → find? (hold_is h.id) hs ≡ none
    → h.status ≡ active
    → SeatsOk hs ss
    → SeatsOk (h ∷ hs) (update_where (is_wanted m ids) (mark_held h) ss)
SeatsOk-write m ids h hs [] e a k = tt
SeatsOk-write m ids h hs (s ∷ ss) e a k =
    ground (arith, seat_ok-new h hs s.status s.hold_id e k.0, SeatsOk-write m ids h hs ss e a k.1)

pub persist_hold-IsConsistent :
    (ids : List ℕ) (h : Hold) (db : Db)
    → find? (hold_is h.id) db.holds ≡ none
    → h.status ≡ active
    → IsConsistent db
    → IsConsistent (persist_hold ids h db).1
unfolding persist_hold
persist_hold-IsConsistent ids h db e a k =
    ground (arith, SeatsOk-write h.match_id ids h db.holds db.seats e a k)

module _ (gate : SeatLockGate) where
  open gate use {State}

  settle-db :
      (m : ℕ) (got : List ℕ) (token : ℕ) (locks : State) (r : HoldResult × Db)
      → (settle gate m got token locks r).2 ≡ r.1
  unfolding settle
  settle-db m got token locks (ok h b, db) = refl
  settle-db m got token locks (err e, db) = refl

  -- Reserving seats under a fresh hold id keeps every seat tied to its hold, on every path.
  pub reserve-IsConsistent :
      (between : Db → Db) (s : Settings) (rq : HoldRequest) (hold_id now : ℕ) (locks : State)
      (db : Db)
      → find? (hold_is hold_id) (between db).holds ≡ none
      → IsConsistent (between db)
      → IsConsistent db
      → IsConsistent (reserve gate between s rq hold_id now locks db).2
  unfolding reserve reserve_new
  reserve-IsConsistent between s rq hold_id now locks db e k' k =
      elim (Option-cases (existing_hold rq.idempotency_key db)) [
        | inl fresh ↦
            let ids = ordered_seat_ids rq.seat_ids in
            let got = acquire_all gate rq.match_id ids hold_id s.hold_ttl_seconds locks in
            let h = new_hold s rq hold_id now in
            ground (
              arith,
              settle-db rq.match_id got.0 hold_id got.1 (persist_hold ids h (between db)),
              persist_hold-IsConsistent ids h (between db) e refl k',
            )
        | inr (h, found) ↦ ground arith
      ]
