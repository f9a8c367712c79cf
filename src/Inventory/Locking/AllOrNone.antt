-- ===== src/Inventory/Locking/AllOrNone.antt =====
-- `acquire_all` on any gate that keeps the protocol.
use arena_onsale.Prelude.{
  ℕ, ◌<◌, ◌≡◌, refl, true, false, ◌||◌, ◌&&◌, none, some, List, [], ◌∷◌, ◌++◌, if◌then◌else◌, ◌==◌,
  arith, contains, All, is_none, Bool-cases, inl, inr, ◌⊎◌, sym, ◌∙◌,
}
use mathlib.Core.List.{append-nil, append_assoc}
use arena_onsale.Inventory.Locking.{
  SeatLockGate, is_owner, release_all, acquire_from, acquire_all, ordered_seat_ids,
}
use arena_onsale.Inventory.Locking.Ordered.{Ascending, ordered_seat_ids_lem}

contains-append : (x i : ℕ) (is : List ℕ) → contains x (is ++ i ∷ []) ≡ (contains x is || (x == i))
contains-append x i [] = ground arith
contains-append x i (j ∷ is) = ground (arith, contains-append x i is)

contains_middle : (i : ℕ) (is js : List ℕ) → contains i (is ++ i ∷ js) ≡ true
contains_middle i [] js = ground arith
contains_middle i (k ∷ is) js = ground (arith, contains_middle i is js)

lt_of_contains : (x i : ℕ) (is : List ℕ) → All (λ j. i < j) is → contains x is ≡ true → i < x
lt_of_contains x i [] a c = cc
lt_of_contains x i (j ∷ is) a c = ground (arith, lt_of_contains x i is a.1)

module _ (gate : SeatLockGate) (m token ttl : ℕ) where
  open gate use {State, owner, acquire, release, acquire_result, acquire_owner, release_owner}

  -- `s'` is `s` with the locks of `is` in the hands of the token.
  abbrev pub Taken : List ℕ → State → State → Type 0
  Taken is s s' =
      (n j : ℕ) → owner s' n j ≡ (if (m == n) && contains j is then some token else owner s n j)

  -- the locks of `is` were free
  abbrev pub Free : List ℕ → State → Type 0
  Free is s = (j : ℕ) → contains j is ≡ true → owner s m j ≡ none

  abbrev pub Same : State → State → Type 0
  Same s s' = (n j : ℕ) → owner s' n j ≡ owner s n j

  -- Releasing gives every lock of the list back that the token has, and touches no other.
  owner-release_all :
      (is : List ℕ) (s : State) (n j : ℕ)
      → owner (release_all gate m is token s) n j ≡ (
          if ((m == n) && contains j is) && is_owner token (owner s n j) then none else owner s n j)
  unfolding release_all
  owner-release_all [] s n j = ground arith
  owner-release_all (i ∷ is) s n j =
      ground (arith, owner-release_all is (release s m i token) n j, release_owner s m i token n j)

  -- A run of the loop, from `s` to `s'`, that was to take the locks of `is`.
  abbrev pub AllOrNone : List ℕ → State → List ℕ → State → Type 0
  AllOrNone is s got s' =
      ((got ≡ is) × Free is s × Taken is s s')
      ⊎ ((got ≡ [])
          × ((j : ℕ) × (contains j is ≡ true) × (is_none (owner s m j) ≡ false))
          × Same s s')

  -- the state of the loop: what it has taken, since `s`, and what is still to take
  record Progress (done rest : List ℕ) (s s' : State) : Type 0 where
    free : Free done s
    taken : Taken done s s'
    apart : (x : ℕ) → contains x rest ≡ true → contains x done ≡ false

  Free-append :
      (i : ℕ) (is : List ℕ) (s : State) → Free is s → owner s m i ≡ none → Free (is ++ i ∷ []) s
  Free-append i is s f e j c = ground (arith, contains-append j i is, f j)

  acquire-Progress :
      (i : ℕ) (done rest : List ℕ) (s s' : State)
      → All (λ j. i < j) rest
      → is_none (owner s' m i) ≡ true
      → Progress done (i ∷ rest) s s'
      → Progress (done ++ i ∷ []) rest s (acquire s' m i token ttl).1
  acquire-Progress i done rest s s' above e p = record {
    free = Free-append i done s p.free (ground (arith, p.taken m i, p.apart i));
    taken = λ n j.
        ground (arith, acquire_owner s' m i token ttl n j, p.taken n j, contains-append j i done);
    apart =
        λ x c. ground (arith, contains-append x i done, p.apart x, lt_of_contains x i rest above c);
  }

  undo :
      (i : ℕ) (done : List ℕ) (s s' : State)
      → Free done s
      → Taken done s s'
      → is_none (owner s' m i) ≡ false
      → Same s (release_all gate m done token (acquire s' m i token ttl).1)
  undo i done s s' f t e n j = ground (
    arith,
    owner-release_all done (acquire s' m i token ttl).1 n j,
    acquire_owner s' m i token ttl n j,
    t n j,
    f j,
  )

  acquire_from-AllOrNone :
      (all done rest : List ℕ) (s s' : State)
      → done ++ rest ≡ all
      → Ascending rest
      → Progress done rest s s'
      → let (got, s'') = acquire_from gate m token ttl done rest s' in AllOrNone all s got s''
  unfolding acquire_from
  acquire_from-AllOrNone all done [] s s' e a p =
      let e' : done ≡ all = sym (append-nil done) ∙ e in
      inl (e', rw (← e') p.free, rw (← e') p.taken)
  acquire_from-AllOrNone all done (i ∷ rest) s s' e a p =
      elim (Bool-cases (is_none (owner s' m i))) [
        | inl free ↦
            rw (acquire_result s' m i token ttl, free)
              (acquire_from-AllOrNone all (done ++ i ∷ []) rest s (acquire s' m i token ttl).1
                (append_assoc done (i ∷ []) rest ∙ e) a.1
                (acquire-Progress i done rest s s' a.0 free p))
        | inr locked ↦
            rw (acquire_result s' m i token ttl, locked)
              (inr (
                refl,
                (i, rw (← e) (contains_middle i done rest), ground (arith, p.taken m i, p.apart i)),
                undo i done s s' p.free p.taken locked,
              ))
      ]

  -- `acquire_all` takes the lock of every requested seat, all of which were free, or it returns the
  -- empty list, because the lock of a requested seat was not free, and leaves every lock as it was.
  pub acquire_all_lem :
      (seat_ids : List ℕ) (s : State)
      → let (got, s') = acquire_all gate m seat_ids token ttl s in
        AllOrNone (ordered_seat_ids seat_ids) s got s'
  unfolding acquire_all
  acquire_all_lem seat_ids s =
      acquire_from-AllOrNone _ [] (ordered_seat_ids seat_ids) s s refl
        (ordered_seat_ids_lem seat_ids).0
        (record { free = λ j c. cc; taken = λ n j. ground arith; apart = λ x c. refl })

  -- Releasing what `acquire_all` took, with no step of others in between, undoes it.
  pub release_all-acquire_all :
      (seat_ids : List ℕ) (s : State)
      → let (got, s') = acquire_all gate m seat_ids token ttl s in
        (n j : ℕ) → owner (release_all gate m got token s') n j ≡ owner s n j
  release_all-acquire_all seat_ids s n j = elim (acquire_all_lem seat_ids s) [
    | inl (e, f, t) ↦ ground (
      arith,
      owner-release_all (acquire_all gate m seat_ids token ttl s).0
          (acquire_all gate m seat_ids token ttl s).1 n j,
      e,
      t n j,
      f j,
    )
    | inr (e, _, same) ↦ ground (
      arith,
      owner-release_all (acquire_all gate m seat_ids token ttl s).0
          (acquire_all gate m seat_ids token ttl s).1 n j,
      e,
      same n j,
    )
  ]
