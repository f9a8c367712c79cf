-- ===== src/Inventory/Locking/Ordered.antt =====
-- The order in which seats are locked.
use arena_onsale.Prelude.{ℕ, ◌<◌, ◌≡◌, refl, ◌||◌, List, [], ◌∷◌, ◌==◌, arith, contains, All}
use arena_onsale.Inventory.Locking.{insert_unique, ordered_seat_ids}

-- Each id is above the one before it: ascending, with no id twice.
abbrev pub Ascending : List ℕ → Type 0
Ascending [] = Unit {0}
Ascending (i ∷ is) = All (λ j. i < j) is × Ascending is

insert_unique-All :
    (k i : ℕ) (is : List ℕ) → k < i → All (λ j. k < j) is → All (λ j. k < j) (insert_unique i is)
insert_unique-All k i [] h a = (h, tt)
insert_unique-All k i (j ∷ js) h a = ground (arith, insert_unique-All k i js h a.1)

All-below : (i j : ℕ) (is : List ℕ) → i < j → All (λ k. j < k) is → All (λ k. i < k) is
All-below i j [] h a = tt
All-below i j (k ∷ is) h a = (omega arith, All-below i j is h a.1)

insert_unique-Ascending : (i : ℕ) (is : List ℕ) → Ascending is → Ascending (insert_unique i is)
insert_unique-Ascending i [] a = (tt, tt)
insert_unique-Ascending i (j ∷ js) a =
    ground (arith, insert_unique-Ascending i js a.1, insert_unique-All j i js, All-below i j js)

contains-insert_unique :
    (x i : ℕ) (is : List ℕ) → contains x (insert_unique i is) ≡ ((x == i) || contains x is)
contains-insert_unique x i [] = refl
contains-insert_unique x i (j ∷ js) = ground (arith, contains-insert_unique x i js)

ordered-Ascending : (is : List ℕ) → Ascending (ordered_seat_ids is)
unfolding ordered_seat_ids
ordered-Ascending [] = tt
ordered-Ascending (i ∷ is) = insert_unique-Ascending i _ (ordered-Ascending is)

pub contains-ordered : (x : ℕ) (is : List ℕ) → contains x (ordered_seat_ids is) ≡ contains x is
unfolding ordered_seat_ids
contains-ordered x [] = refl
contains-ordered x (i ∷ is) =
    ground (arith, contains-insert_unique x i (ordered_seat_ids is), contains-ordered x is)

-- The seats are locked in ascending order, each once, and they are exactly the requested ones.
pub ordered_seat_ids_lem :
    (is : List ℕ)
    → Ascending (ordered_seat_ids is) × ((x : ℕ) → contains x (ordered_seat_ids is) ≡ contains x is)
ordered_seat_ids_lem is = (ordered-Ascending is, λ x. contains-ordered x is)
