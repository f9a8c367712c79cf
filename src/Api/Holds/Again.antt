-- ===== src/Api/Holds/Again.antt =====
-- A hold request that is sent again, and the hold that is asked for by its id.
use arena_onsale.Prelude.{ℕ, ◌≡◌, refl, false, arith, String, List}
use arena_onsale.Prelude.Text.{strip, is_empty_text}
use arena_onsale.Settings.{Settings}
use arena_onsale.Tables.{Db, Hold}
use arena_onsale.Inventory.Locking.{SeatLockGate, ordered_seat_ids}
use arena_onsale.Inventory.Holds.{ok, reserve, get, write_hold}
use arena_onsale.Inventory.Holds.Outcomes.{reserve-Granted}
use arena_onsale.Inventory.Holds.Replay.{reserve-reserve_hold}
use arena_onsale.Api.{replied}
use arena_onsale.Api.Schemas.{CreateHoldRequest}
use arena_onsale.Api.Holds.{
  HoldResponse, show_hold, answer_hold, hold_request, get_hold, create_hold,
}
use arena_onsale.Api.Holds.Answers.{create_hold-created}

get_hold-first :
    (h : Hold) (m : ℕ) (db db' : Db) (ids : List ℕ)
    → db' ≡ write_hold m ids h db
    → get_hold h.id db' ≡ replied 200 (show_hold h db')
unfolding get_hold get
get_hold-first h m db db' ids e = ground (arith, e)

module _ (gate : SeatLockGate) where
  open gate use {State}

  replayed :
      (between : Db → Db) (cfg : Settings) (m : ℕ) (b : CreateHoldRequest) (key : String)
      (hold_id now : ℕ) (locks : State) (db : Db) (h : Hold)
      → is_empty_text (strip key) ≡ false
      → reserve gate between cfg (hold_request m b key) hold_id now locks db
        ≡ (ok h false, locks, db)
      → create_hold gate between cfg m b key hold_id now locks db
        ≡ (replied 200 (show_hold h db), (locks, db))
  unfolding create_hold answer_hold
  replayed between cfg m b key hold_id now locks db h given e = rw given (rw e refl)

  module _ (between : Db → Db) (cfg : Settings) (m : ℕ) (b : CreateHoldRequest) (key : String)
      (hold_id now : ℕ) (locks : State) (db : Db) where
    create_hold-given :
        (a : HoldResponse)
        → (create_hold gate between cfg m b key hold_id now locks db).0 ≡ replied 201 a
        → is_empty_text (strip key) ≡ false
    unfolding create_hold
    create_hold-given a e = ground arith

    -- A hold request answered with 201 and sent again, before anything else is written to the database, at
    -- whatever time and with whatever locks, is answered with 200 and the same body, and changes nothing.
    pub create_hold-create_hold :
        (between' : Db → Db) (hold_id' now' : ℕ) (locks' : State) (a : HoldResponse)
        → let (r, after) = create_hold gate between cfg m b key hold_id now locks db in
          r ≡ replied 201 a
          → create_hold gate between' cfg m b key hold_id' now' locks' after.1
            ≡ (replied 200 a, (locks', after.1))
    create_hold-create_hold between' hold_id' now' locks' a e =
        let rq = hold_request m b key in
        let given = create_hold-given a e in
        let (h, made, shown, state) =
          create_hold-created gate between cfg m b hold_id now locks db key a e in
        let again =
          reserve-reserve_hold gate between between' cfg rq hold_id hold_id' now now' locks locks'
            db h made in
        rw state (
          rw shown (
            replayed between' cfg m b key hold_id' now' locks'
              (reserve gate between cfg rq hold_id now locks db).2 h given again))

    -- The hold of a 201 is found under its id, with the same body, until something else is written.
    pub get_hold-create_hold :
        (a : HoldResponse)
        → let (r, after) = create_hold gate between cfg m b key hold_id now locks db in
          r ≡ replied 201 a → get_hold a.id after.1 ≡ replied 200 a
    unfolding show_hold
    get_hold-create_hold a e =
        let rq = hold_request m b key in
        let (h, made, shown, state) =
          create_hold-created gate between cfg m b hold_id now locks db key a e in
        let (new, g) = reserve-Granted gate between cfg rq hold_id now locks db h made in
        rw state (
          rw shown (
            get_hold-first h h.match_id (between db) _ (ordered_seat_ids b.seat_ids)
              g.rows.written))
