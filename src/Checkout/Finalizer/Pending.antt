-- ===== src/Checkout/Finalizer/Pending.antt =====
-- Which rows of a hold the loops of the finalizer still have to visit.
use arena_onsale.Prelude.{
  ℕ, ◌≤◌, ◌≡◌, refl, Bool, true, ◌&&◌, List, [], ◌∷◌, ◌==◌, arith, inl, inr, Bool-cases, All,
  contains, ◌||◌,
}
use arena_onsale.Prelude.Query.{select, update_where, count_where}
use arena_onsale.Tables.{Db, Seat, is_held}
use arena_onsale.Inventory.Holds.{
  seat_is, held_by, seats_for_hold, order_by_id, insert_seat, seat_ids_of,
}
use arena_onsale.Checkout.Finalizer.{sell_guard, sell, release_guard, free_seat}

-- nothing happens between the statements
abbrev pub undisturbed : ℕ → Db → Db
undisturbed i db = db

-- The seats that `seats_for_hold` reads are all of the hold's: an id that it does not read belongs to no
-- row of the hold.
contains-insert_seat :
    (x : ℕ) (s : Seat) (ts : List Seat)
    → contains x (seat_ids_of (insert_seat s ts)) ≡ ((x == s.id) || contains x (seat_ids_of ts))
contains-insert_seat x s [] = refl
contains-insert_seat x s (t ∷ ts) = ground (arith, contains-insert_seat x s ts)

contains-order_by_id :
    (x : ℕ) (ts : List Seat)
    → contains x (seat_ids_of (order_by_id ts)) ≡ contains x (seat_ids_of ts)
unfolding order_by_id
contains-order_by_id x [] = refl
contains-order_by_id x (t ∷ ts) =
    ground (arith, contains-insert_seat x t (order_by_id ts), contains-order_by_id x ts)

-- The rows of the hold that are not yet done are among the ids.
abbrev pub Pending : ℕ → (Seat → Bool) → List ℕ → List Seat → Type 0
Pending h open_row ids ss =
    All (λ s. (held_by h s && open_row s) ≡ true → contains s.id ids ≡ true) ss

abbrev pub any : Seat → Bool
any s = true

abbrev pub still_held : Seat → Bool
still_held s = is_held s.status

Pending-mono :
    (h : ℕ) (p : Seat → Bool) (is js : List ℕ) (ss : List Seat)
    → ((x : ℕ) → contains x is ≡ true → contains x js ≡ true)
    → Pending h p is ss
    → Pending h p js ss
Pending-mono h p is js [] f k = tt
Pending-mono h p is js (s ∷ ss) f k = ((λ e. f s.id (k.0 e)), Pending-mono h p is js ss f k.1)

Pending-select :
    (h : ℕ) (p : Seat → Bool) (ss : List Seat)
    → Pending h p (seat_ids_of (select (held_by h) ss)) ss
Pending-select h p [] = tt
Pending-select h p (s ∷ ss) = (
  (λ e. ground arith),
  Pending-mono h p (seat_ids_of (select (held_by h) ss)) (seat_ids_of (select (held_by h) (s ∷ ss)))
      ss (λ x c. ground arith) (Pending-select h p ss),
)

pub Pending-seats_for_hold :
    (h : ℕ) (p : Seat → Bool) (db : Db) → Pending h p (seat_ids_of (seats_for_hold h db)) db.seats
unfolding seats_for_hold
Pending-seats_for_hold h p db =
    Pending-mono h p (seat_ids_of (select (held_by h) db.seats)) _ db.seats
      (λ x c. rw (contains-order_by_id x) c) (Pending-select h p db.seats)

-- Where a row is the only one with its id and the guard hits one row, it hits that row.
All-of_none :
    (p q : Seat → Bool) (ss : List Seat)
    → count_where p ss ≡ 0
    → All (λ s. p s ≡ true → q s ≡ true) ss
All-of_none p q [] c = tt
All-of_none p q (s ∷ ss) c = ((λ e. ground arith), All-of_none p q ss (ground arith))

count-guard-le :
    (h : ℕ) (seat : Seat) (ss : List Seat)
    → count_where (sell_guard h seat) ss ≤ count_where (seat_is seat.id) ss
count-guard-le h seat [] = ground arith
count-guard-le h seat (s ∷ ss) = ground (arith, count-guard-le h seat ss)

pub guard_of_unique :
    (h : ℕ) (seat : Seat) (ss : List Seat)
    → count_where (sell_guard h seat) ss ≡ 1
    → count_where (seat_is seat.id) ss ≤ 1
    → All (λ s. seat_is seat.id s ≡ true → sell_guard h seat s ≡ true) ss
guard_of_unique h seat [] c u = tt
guard_of_unique h seat (s ∷ ss) c u = elim (Bool-cases (sell_guard h seat s)) [
  | inl hit ↦ ((λ e. hit), All-of_none (seat_is seat.id) (sell_guard h seat) ss (ground arith))
  | inr miss ↦ (
    (λ e. absurd (ground (arith, count-guard-le h seat ss))),
    guard_of_unique h seat ss (ground arith) (ground arith),
  )
]

pub Pending-sell :
    (h : ℕ) (seat : Seat) (ids : List ℕ) (ss : List Seat)
    → All (λ s. seat_is seat.id s ≡ true → sell_guard h seat s ≡ true) ss
    → Pending h still_held (seat.id ∷ ids) ss
    → Pending h still_held ids (update_where (sell_guard h seat) (sell seat) ss)
Pending-sell h seat ids [] u k = tt
Pending-sell h seat ids (s ∷ ss) u k =
    ((λ e. ground (arith, u.0, k.0)), Pending-sell h seat ids ss u.1 k.1)

pub Pending-free :
    (h : ℕ) (seat : Seat) (ids : List ℕ) (ss : List Seat)
    → Pending h any (seat.id ∷ ids) ss
    → Pending h any ids (update_where (release_guard h seat) (free_seat seat) ss)
Pending-free h seat ids [] k = tt
Pending-free h seat ids (s ∷ ss) k = ((λ e. ground (arith, k.0)), Pending-free h seat ids ss k.1)
