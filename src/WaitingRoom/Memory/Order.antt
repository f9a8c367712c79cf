-- ===== src/WaitingRoom/Memory/Order.antt =====
-- The queue of waiting_room/memory.py: whom `pop_front` takes, and whom it leaves.
use arena_onsale.Prelude.{
  ℕ, zero, suc, ◌≤◌, ◌≡◌, refl, ◌⊎◌, inl, inr, Bool, true, false, not, List, [], ◌∷◌, arith, length,
  take, min, All, length-take, if◌then◌else◌, leb,
}
use arena_onsale.Prelude.Query.{select}
use arena_onsale.Prelude.Text.{eq_iff}
use arena_onsale.WaitingRoom.Memory.{
  Store, Entry, insert_entry, by_score, among, pop_front, queue_size,
}

-- No entry of `es` has a later score than `f`.
abbrev pub NotAfter : List Entry → Entry → Type 0
NotAfter es f = All (λ e. e.score ≤ f.score) es

abbrev Sorted : List Entry → Type 0
Sorted [] = Unit {0}
Sorted (e ∷ es) = All (λ f. e.score ≤ f.score) es × Sorted es

Above : ℕ → List Entry → Type 0
Above n es = All (λ f. n ≤ f.score) es

insert_entry-Above :
    (n : ℕ) (e : Entry) (es : List Entry) → n ≤ e.score → Above n es → Above n (insert_entry e es)
unfolding Above
insert_entry-Above n e [] h a = (h, tt)
insert_entry-Above n e (x ∷ xs) h a = ground (arith, insert_entry-Above n e xs h a.1)

Above-trans : (n m : ℕ) (es : List Entry) → n ≤ m → Above m es → Above n es
unfolding Above
Above-trans n m [] h a = tt
Above-trans n m (x ∷ xs) h a = (omega arith, Above-trans n m xs h a.1)

insert_entry-Sorted : (e : Entry) (es : List Entry) → Sorted es → Sorted (insert_entry e es)
unfolding Above
insert_entry-Sorted e [] a = (tt, tt)
insert_entry-Sorted e (x ∷ xs) a = ground (
  arith,
  insert_entry-Sorted e xs a.1,
  insert_entry-Above x.score e xs,
  Above-trans e.score x.score xs,
)

by_score-Sorted : (es : List Entry) → Sorted (by_score es)
unfolding by_score
by_score-Sorted [] = tt
by_score-Sorted (e ∷ es) = insert_entry-Sorted e _ (by_score-Sorted es)

module _ (P : Entry → Type 0) where
  insert-split :
      (b : Bool) (e x : Entry) (xs : List Entry)
      → (All P (insert_entry e xs) → P e × All P xs)
      → All P (if b then e ∷ x ∷ xs else x ∷ insert_entry e xs)
      → P e × All P (x ∷ xs)
  insert-split true e x xs f a = a
  insert-split false e x xs f a = let s = f a.1 in (s.0, (a.0, s.1))

  All-insert_entry : (e : Entry) (es : List Entry) → All P (insert_entry e es) → P e × All P es
  All-insert_entry e [] a = a
  All-insert_entry e (x ∷ xs) a =
      insert-split (leb e.score x.score) e x xs (All-insert_entry e xs) a

  All-keep :
      (b : Bool) (e : Entry) (es : List Entry) → P e → All P es → All P (if b then e ∷ es else es)
  All-keep true e es h a = (h, a)
  All-keep false e es h a = a

  All-by_score : (es : List Entry) → All P (by_score es) → All P es
  unfolding by_score
  All-by_score [] a = tt
  All-by_score (e ∷ es) a = let s = All-insert_entry e _ a in (s.0, All-by_score es s.1)

-- Each entry of a sorted list is one of the first `n`, or none of these is after it.
abbrev Served : List Entry → Entry → Type 0
Served taken f = (among taken f ≡ true) ⊎ NotAfter taken f

Served-by_none : (es : List Entry) → All (Served []) es
Served-by_none [] = tt
Served-by_none (e ∷ es) = (inr tt, Served-by_none es)

Served-more :
    (x : Entry) (taken es : List Entry)
    → Above x.score es
    → All (Served taken) es
    → All (Served (x ∷ taken)) es
unfolding Above
Served-more x taken [] h a = tt
Served-more x taken (f ∷ fs) h a = (
  elim a.0 [ inl here ↦ inl (ground arith) | inr later ↦ inr (h.0, later) ],
  Served-more x taken fs h.1 a.1,
)

Sorted-take : (n : ℕ) (es : List Entry) → Sorted es → All (Served (take n es)) es
unfolding Above
Sorted-take zero es s = Served-by_none es
Sorted-take (suc n) [] s = tt
Sorted-take (suc n) (x ∷ xs) s = (
  inl (ground (arith, (eq_iff x.visitor_id x.visitor_id).1 refl)),
  Served-more x (take n xs) xs s.0 (Sorted-take n xs s.1),
)

left_over :
    (taken es : List Entry)
    → All (Served taken) es
    → All (NotAfter taken) (select (λ e. not (among taken e)) es)
left_over taken [] a = tt
left_over taken (f ∷ fs) a = elim a.0 [
  | inl here ↦ rw here (left_over taken fs a.1)
  | inr later ↦ All-keep (NotAfter taken) (not (among taken f)) f _ later (left_over taken fs a.1)
]

length-insert_entry : (e : Entry) (es : List Entry) → length (insert_entry e es) ≡ suc (length es)
length-insert_entry e [] = refl
length-insert_entry e (x ∷ xs) = ground (arith, length-insert_entry e xs)

length-by_score : (es : List Entry) → length (by_score es) ≡ length es
unfolding by_score
length-by_score [] = refl
length-by_score (e ∷ es) = omega (arith, length-insert_entry e (by_score es), length-by_score es)

pub pop_front-length : (n : ℕ) (s : Store) → length (pop_front n s).0 ≡ min n (queue_size s)
unfolding pop_front
pop_front-length n s = omega (arith, length-take n (by_score s.queue), length-by_score s.queue)

-- First come, first served: `pop_front n` takes `n` visitors, or all if there are fewer, and nobody
-- whom it leaves in the queue has a lower score than one of those that it takes.
pub pop_front-NotAfter :
    (n : ℕ) (s : Store)
    → let (taken, s') = pop_front n s in
      (length taken ≡ min n (queue_size s)) × All (NotAfter taken) s'.queue
unfolding pop_front
pop_front-NotAfter n s = (
  pop_front-length n s,
  left_over _ s.queue (All-by_score _ s.queue (Sorted-take n _ (by_score-Sorted s.queue))),
)
