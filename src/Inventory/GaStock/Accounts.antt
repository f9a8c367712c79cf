-- ===== src/Inventory/GaStock/Accounts.antt =====
-- The accounts of a pool: what is left in it, what reservations have taken, and its capacity.
use arena_onsale.Prelude.{
  ℕ, ◌+◌, ◌*◌, ◌≡◌, refl, Bool, true, false, ◌&&◌, ◌∷◌, List, [], arith, if◌then◌else◌, ◌==◌,
  Option-cases, inl, inr,
}
use arena_onsale.Prelude.Query.{find?, update_where, count_where, sum_of}
use arena_onsale.Tables.{
  Db, GeneralAdmission, GaReservation, HoldStatus, active, confirmed, expired, released,
}
use arena_onsale.Inventory.GaStock.{claim_guard, take_tickets, pool_of, claim, write_claim}

-- the tickets that a reservation keeps out of the pool
abbrev pub is_counted : HoldStatus → Bool
is_counted active = true
is_counted confirmed = true
is_counted expired = false
is_counted released = false

abbrev pub tickets_of : ℕ → GaReservation → ℕ
tickets_of m r = if (r.match_id == m) && is_counted r.status then r.quantity else 0

abbrev pub left_in : ℕ → GeneralAdmission → ℕ
left_in m g = if g.match_id == m then g.available else 0

abbrev pub seats_in : ℕ → GeneralAdmission → ℕ
seats_in m g = if g.match_id == m then g.capacity else 0

-- Nothing is lost or made up: what is left and what is taken make the capacity.
abbrev pub IsConserved : ℕ → Db → Type 0
IsConserved m db =
    sum_of (left_in m) db.ga_inventory + sum_of (tickets_of m) db.ga_reservations
    ≡ sum_of (seats_in m) db.ga_inventory

pub sum_of-take_tickets :
    (m n v q : ℕ) (gs : List GeneralAdmission)
    → sum_of (left_in m) (update_where (claim_guard n v q) (take_tickets q) gs)
        + (if n == m then q * count_where (claim_guard n v q) gs else 0)
      ≡ sum_of (left_in m) gs
sum_of-take_tickets m n v q [] = ground arith
sum_of-take_tickets m n v q (g ∷ gs) = ground (arith, sum_of-take_tickets m n v q gs)

pub sum_of-capacity :
    (m n v q : ℕ) (gs : List GeneralAdmission)
    → sum_of (seats_in m) (update_where (claim_guard n v q) (take_tickets q) gs)
      ≡ sum_of (seats_in m) gs
sum_of-capacity m n v q [] = refl
sum_of-capacity m n v q (g ∷ gs) = ground (arith, sum_of-capacity m n v q gs)

pub write_claim-IsConserved :
    (m v n q : ℕ) (r : GaReservation) (db : Db)
    → r.match_id ≡ n
    → r.quantity ≡ q
    → r.status ≡ active
    → IsConserved m db
    → IsConserved m (write_claim v n q r db).1
unfolding write_claim
write_claim-IsConserved m v n q r db em eq es c =
    ground
      (arith, sum_of-take_tickets m n v q db.ga_inventory, sum_of-capacity m n v q db.ga_inventory)

-- Whatever other transactions commit in between, if they keep the accounts of every pool
-- then a claim keeps them on every outcome.
pub claim-IsConserved :
    (between : Db → Db) (m n q : ℕ) (r : GaReservation) (db : Db)
    → r.match_id ≡ n
    → r.quantity ≡ q
    → r.status ≡ active
    → IsConserved m (between db)
    → IsConserved m db
    → IsConserved m (claim between n q r db).1
unfolding claim
claim-IsConserved between m n q r db em eq es cb c =
    elim (Option-cases (find? (pool_of n) db.ga_inventory)) [
      | inl e ↦ ground arith
      | inr (g, e) ↦
          ground (arith, write_claim-IsConserved m g.version n q r (between db) em eq es cb)
    ]
