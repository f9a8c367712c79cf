-- ===== src/Api/Holds/Answers.antt =====
-- What the answers to a hold request promise.
use arena_onsale.Prelude.{
  ℕ, ◌≡◌, refl, true, false, not, ◌&&◌, Option, map, arith, inl, inr, ◌⊎◌, String, ap, sym, subst,
  ◌∙◌, is_none, Bool-cases,
}
use arena_onsale.Prelude.Query.{select}
use arena_onsale.Prelude.Text.{strip, is_empty_text}
use arena_onsale.Settings.{Settings}
use arena_onsale.Tables.{Db, Hold}
use arena_onsale.WaitingRoom.Store.{WaitingRoomStore}
use arena_onsale.Admission.{visitor, require_admission}
use arena_onsale.Inventory.Locking.{SeatLockGate, ordered_seat_ids}
use arena_onsale.Inventory.Holds.{
  HoldResult, HoldError, seat_unavailable, hold_conflict, hold_integrity, ok, err, new_hold,
  reserve, is_wanted, order_by_id, write_hold,
}
use arena_onsale.Inventory.Holds.Outcomes.{Granted, reserve-Granted, reserve-err}
use arena_onsale.Api.{replied, is_refusal}
use arena_onsale.Api.Refusals.{admitted-refused, admitted-replied}
use arena_onsale.Api.Schemas.{CreateHoldRequest, hold_fits, header_or_empty}
use arena_onsale.Api.Holds.{
  HoldResponse, held_seat, response, show_hold, answer_hold, hold_request, create_hold, post_hold,
}
use arena_onsale.Api.Holds.Rows.{Unheld, held_seats-write_hold}

answer_hold-refused :
    (r : HoldResult) (db : Db)
    → is_refusal (answer_hold r db) ≡ true
    → (e : HoldError) × (r ≡ err e)
unfolding answer_hold
answer_hold-refused (ok h true) db e = cc
answer_hold-refused (ok h false) db e = cc
answer_hold-refused (err x) db e = (x, refl)

answer_hold-created :
    (r : HoldResult) (db : Db) (a : HoldResponse)
    → answer_hold r db ≡ replied 201 a
    → (h : Hold) × (r ≡ ok h true) × (a ≡ show_hold h db)
unfolding answer_hold
answer_hold-created (ok h true) db a e = (h, refl, ground arith)
answer_hold-created (ok h false) db a e = ground arith
answer_hold-created (err (seat_unavailable ids)) db a e = cc
answer_hold-created (err hold_conflict) db a e = cc
answer_hold-created (err hold_integrity) db a e = cc

module _ (gate : SeatLockGate) where
  open gate use {State, owner}

  -- The locks keep their owners and the rows are those that the others have committed.
  abbrev pub Untouched : (Db → Db) → State → Db → State × Db → Type 0
  Untouched between locks db after =
      ((n j : ℕ) → owner after.0 n j ≡ owner locks n j) × ((after.1 ≡ db) ⊎ (after.1 ≡ between db))

  module _ (between : Db → Db) (cfg : Settings) (m : ℕ) (b : CreateHoldRequest) (hold_id now : ℕ)
      (locks : State) (db : Db) where
    create_hold-refused :
        (key : String)
        → let (r, after) = create_hold gate between cfg m b key hold_id now locks db in
          is_refusal r ≡ true → Untouched between locks db after
    unfolding create_hold
    create_hold-refused key e = elim (Bool-cases (is_empty_text (strip key))) [
      | inl blank ↦ ((λ n j. ground arith), inl (ground arith))
      | inr given ↦
          let (r, locks', db') =
            reserve gate between cfg (hold_request m b key) hold_id now locks db in
          let (x, failed) = answer_hold-refused r db' (ground arith) in
          rw given
            (reserve-err gate between cfg (hold_request m b key) hold_id now locks db x failed)
    ]

    -- A hold request that is refused, for whatever reason and with whatever status (401, 403, 422,
    -- 400, 409 or 500), leaves every lock with its owner and writes no row.
    pub post_hold-refused :
        (rooms : WaitingRoomStore) (token key : Option String) (room : rooms.State)
        → let (r, room', after) =
            post_hold gate rooms between cfg token m b key hold_id now room locks db in
          is_refusal r ≡ true → Untouched between locks db after
    unfolding post_hold
    post_hold-refused rooms token key room =
        admitted-refused {A = HoldResponse} {Room = rooms.State} {S = State × Db}
          (Untouched between locks db) (require_admission rooms now token room)
          (hold_fits b && not (is_none key)) (locks, db)
          (create_hold gate between cfg m b (header_or_empty key) hold_id now locks db)
          ((λ n j. refl), inl refl) (create_hold-refused (header_or_empty key))

    -- What a reply with status 201 to a hold request means.
    pub record Booked (key : String) (a : HoldResponse) (after : State × Db) : Type 0 where
      -- the answer shows the new hold and the requested rows of the match, in the order of their ids
      pub shown :
          a
          ≡ response (new_hold cfg (hold_request m b key) hold_id now) (
              map held_seat (
                order_by_id
                  (select (is_wanted m (ordered_seat_ids b.seat_ids)) (between db).seats)))
      -- and the rows and the locks of exactly these seats have become the hold's
      pub granted :
          Granted gate
            (hold_request m b key)
            (new_hold cfg (hold_request m b key) hold_id now)
            (between db)
            after.1
            locks
            after.0

    pub create_hold-created :
        (key : String) (a : HoldResponse)
        → let (r, after) = create_hold gate between cfg m b key hold_id now locks db in
          r ≡ replied 201 a
          → let (x, locks', db') =
              reserve gate between cfg (hold_request m b key) hold_id now locks db in
            (h : Hold) × (x ≡ ok h true) × (a ≡ show_hold h db') × (after ≡ (locks', db'))
    unfolding create_hold
    create_hold-created key a e =
        let (x, locks', db') =
          reserve gate between cfg (hold_request m b key) hold_id now locks db in
        elim (Bool-cases (is_empty_text (strip key))) [
          | inl blank ↦ ground arith
          | inr given ↦
              let (h, made, same) = answer_hold-created x db' a (ground arith) in
              (h, made, same, ground arith)
        ]

    shows_new :
        (key : String) (h : Hold) (db' : Db)
        → Unheld hold_id (between db).seats
        → let n = new_hold cfg (hold_request m b key) hold_id now in
          let ids = ordered_seat_ids b.seat_ids in
          h ≡ n
          → db' ≡ write_hold h.match_id ids h (between db)
          → show_hold h db'
            ≡ response n (map held_seat (order_by_id (select (is_wanted m ids) (between db).seats)))
    unfolding show_hold new_hold
    shows_new key h db' u same written =
        let n = new_hold cfg (hold_request m b key) hold_id now in
        rw written (
          rw same (
            ap (response n) (held_seats-write_hold (ordered_seat_ids b.seat_ids) n (between db) u)))

    create_hold-Booked :
        (key : String) (a : HoldResponse)
        → Unheld hold_id (between db).seats
        → let (r, after) = create_hold gate between cfg m b key hold_id now locks db in
          r ≡ replied 201 a → Booked key a after
    create_hold-Booked key a u e =
        let rq = hold_request m b key in
        let (h, made, shown, state) = create_hold-created key a e in
        let (new, g) = reserve-Granted gate between cfg rq hold_id now locks db h made in
        let (x, locks', db') = reserve gate between cfg rq hold_id now locks db in
        let g' : Granted gate rq (new_hold cfg rq hold_id now) (between db) db' locks locks' =
          subst (λ k. Granted gate rq k (between db) db' locks locks') new g in
        rw state (record { shown = shown ∙ shows_new key h db' u new g.rows.written; granted = g' })

    -- A 201 to a hold request comes only with a valid token, a body that fits and a key. It shows the
    -- new active hold and the requested seats of the match in the order of their ids; each of them
    -- was available, and these rows and their locks are now the hold's. The fresh id must name no
    -- seat's hold yet.
    pub post_hold-Booked :
        (rooms : WaitingRoomStore) (token key : Option String) (room : rooms.State)
        (a : HoldResponse)
        → Unheld hold_id (between db).seats
        → let (r, room', after) =
            post_hold gate rooms between cfg token m b key hold_id now room locks db in
          r ≡ replied 201 a
          → (v : String) × ((require_admission rooms now token room).0 ≡ visitor v)
            × (hold_fits b && not (is_none key) ≡ true)
            × Booked (header_or_empty key) a after
    unfolding post_hold
    post_hold-Booked rooms token key room a u e =
        let made = create_hold gate between cfg m b (header_or_empty key) hold_id now locks db in
        let (v, let_in, fits, same) =
          admitted-replied {A = HoldResponse} {Room = rooms.State} {S = State × Db}
            (require_admission rooms now token room) (hold_fits b && not (is_none key)) (locks, db)
            made (ground (arith, e)) in
        (
          v,
          let_in,
          fits,
          rw same (create_hold-Booked (header_or_empty key) a u (sym (ap (λ x. x.0) same) ∙ e)),
        )
