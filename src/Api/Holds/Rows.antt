-- ===== src/Api/Holds/Rows.antt =====
-- What a hold that was granted shows of its seats.
use arena_onsale.Prelude.{
  ℕ, ◌≡◌, refl, Bool, false, List, [], ◌∷◌, map, arith, All, inl, inr, Bool-cases,
}
use arena_onsale.Prelude.Query.{select, update_where}
use arena_onsale.Tables.{Db, Seat, Hold}
use arena_onsale.Inventory.Holds.{
  mark_held, is_wanted, order_by_id, insert_seat, held_by, write_hold, seats_for_hold,
}
use arena_onsale.Api.Holds.{held_seat, held_seats}

-- no seat names the id
abbrev pub Unheld : ℕ → List Seat → Type 0
Unheld i ss = All (λ s. held_by i s ≡ false) ss

select_marked :
    (h : Hold) (w : Seat → Bool) (ss : List Seat)
    → Unheld h.id ss
    → select (held_by h.id) (update_where w (mark_held h) ss) ≡ map (mark_held h) (select w ss)
select_marked h w [] u = refl
select_marked h w (s ∷ ss) u = elim (Bool-cases (w s)) [
  | inl wanted ↦ ground (arith, select_marked h w ss u.1)
  | inr unwanted ↦ ground (arith, select_marked h w ss u.1, u.0)
]

insert_marked :
    (h : Hold) (s : Seat) (ss : List Seat)
    → insert_seat (mark_held h s) (map (mark_held h) ss) ≡ map (mark_held h) (insert_seat s ss)
insert_marked h s [] = refl
insert_marked h s (t ∷ ts) = ground (arith, insert_marked h s ts)

order_marked :
    (h : Hold) (ss : List Seat)
    → order_by_id (map (mark_held h) ss) ≡ map (mark_held h) (order_by_id ss)
unfolding order_by_id
order_marked h [] = refl
order_marked h (s ∷ ss) = rw (order_marked h ss) (insert_marked h s (order_by_id ss))

shown_marked : (h : Hold) (ss : List Seat) → map held_seat (map (mark_held h) ss) ≡ map held_seat ss
shown_marked h [] = refl
shown_marked h (s ∷ ss) = ground (arith, shown_marked h ss)

-- The seats that a new hold shows are the requested rows of the match, in the order of their ids.
pub held_seats-write_hold :
    (ids : List ℕ) (h : Hold) (db : Db)
    → Unheld h.id db.seats
    → held_seats h.id (write_hold h.match_id ids h db)
      ≡ map held_seat (order_by_id (select (is_wanted h.match_id ids) db.seats))
unfolding held_seats seats_for_hold
held_seats-write_hold ids h db u =
    let w = is_wanted h.match_id ids in
    rw (select_marked h w db.seats u)
      (rw (order_marked h (select w db.seats)) (shown_marked h (order_by_id (select w db.seats))))
