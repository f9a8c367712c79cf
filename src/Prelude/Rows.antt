-- ===== src/Prelude/Rows.antt =====
-- Laws of the statements: an update of exactly one row, and what an update leaves alone.
use Prim.Native.Nat.{ℕ, ◌+◌, ◌≤◌}
use mathlib.Core.Path.{◌≡◌, refl}
use mathlib.Core.Logic.{inl, inr}
use mathlib.Core.Bool.{Bool, true, false}
use mathlib.Core.Option.{some}
use mathlib.Core.List.{List, [], ◌∷◌}
use native.Mathlib.Omega.{arith}
use arena_onsale.Prelude.Tests.{Bool-cases}
use arena_onsale.Prelude.Query.{find?, update_where, count_where, sum_of}

module _ {ℓ} {A : Type ℓ} (p : A → Bool) where
  pub find?-holds : (xs : List A) (x : A) → find? p xs ≡ some x → p x ≡ true
  find?-holds [] x e = cc
  find?-holds (y ∷ xs) x e = ground (arith, find?-holds xs x)

  pub find?_of_count :
      (xs : List A) → count_where p xs ≡ 1 → (x : A) × (find? p xs ≡ some x) × (p x ≡ true)
  find?_of_count [] h = absurd (omega arith)
  find?_of_count (y ∷ xs) h = elim (Bool-cases (p y)) [
    | inl here ↦ (y, rw here, here)
    | inr later ↦ let f = find?_of_count xs (ground arith) in (f.0, rw later f.1, f.2)
  ]

  pub count_where-pos : (xs : List A) (x : A) → find? p xs ≡ some x → 1 ≤ count_where p xs
  count_where-pos [] x e = cc
  count_where-pos (y ∷ xs) x e = ground (arith, count_where-pos xs x)

  pub update_where_none :
      (g : A → A) (xs : List A) → count_where p xs ≡ 0 → update_where p g xs ≡ xs
  update_where_none g [] h = refl
  update_where_none g (y ∷ xs) h = ground (arith, update_where_none g xs)

  -- The sum of a column moves by what the one updated row moves.
  pub sum_of-update_where :
      (f : A → ℕ) (g : A → A) (xs : List A) (x : A)
      → find? p xs ≡ some x
      → count_where p xs ≡ 1
      → sum_of f (update_where p g xs) + f x ≡ sum_of f xs + f (g x)
  sum_of-update_where f g [] x e h = cc
  sum_of-update_where f g (y ∷ xs) x e h =
      ground (arith, sum_of-update_where f g xs x, update_where_none g xs)

  -- A column that the update does not write keeps its sum.
  pub sum_of-update_same :
      (f : A → ℕ) (g : A → A)
      → ((x : A) → f (g x) ≡ f x)
      → (xs : List A) → sum_of f (update_where p g xs) ≡ sum_of f xs
  sum_of-update_same f g k [] = refl
  sum_of-update_same f g k (y ∷ xs) = ground (arith, k y, sum_of-update_same f g k xs)

  -- An update that does not touch what a test reads keeps the rows that pass it.
  pub count_where-update_where :
      (q : A → Bool) (g : A → A)
      → ((x : A) → q (g x) ≡ q x)
      → (xs : List A) → count_where q (update_where p g xs) ≡ count_where q xs
  count_where-update_where q g k [] = refl
  count_where-update_where q g k (y ∷ xs) = ground (arith, k y, count_where-update_where q g k xs)

  pub find?-update_where :
      (g : A → A)
      → ((x : A) → p (g x) ≡ p x)
      → (xs : List A) (x : A) → find? p xs ≡ some x
      → find? p (update_where p g xs) ≡ some (g x)
  find?-update_where g k [] x e = cc
  find?-update_where g k (y ∷ xs) x e = ground (arith, k y, find?-update_where g k xs x)

  pub find?-update_ne :
      (q : A → Bool) (g : A → A)
      → ((x : A) → q (g x) ≡ q x)
      → ((x : A) → q x ≡ true → p x ≡ false)
      → (xs : List A) → find? q (update_where p g xs) ≡ find? q xs
  find?-update_ne q g k d [] = refl
  find?-update_ne q g k d (y ∷ xs) = ground (arith, k y, d y, find?-update_ne q g k d xs)

  -- A row found by one test is the row found by another that holds of one row only.
  pub find?_of_unique :
      (q : A → Bool) (xs : List A) (x : A)
      → find? p xs ≡ some x
      → q x ≡ true
      → count_where q xs ≤ 1
      → find? q xs ≡ some x
  find?_of_unique q [] x e h c = cc
  find?_of_unique q (y ∷ xs) x e h c =
      ground (arith, find?_of_unique q xs x, count_where-holds q xs x)
    where
      count_where-holds :
          (q : A → Bool) (ys : List A) (z : A)
          → find? p ys ≡ some z
          → q z ≡ true
          → 1 ≤ count_where q ys
      count_where-holds q [] z e h = cc
      count_where-holds q (y ∷ ys) z e h = ground (arith, count_where-holds q ys z)
