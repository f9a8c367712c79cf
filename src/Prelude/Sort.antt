-- ===== src/Prelude/Sort.antt =====
-- `ORDER BY`: a stable sort of rows, and the rows that pass a test before and after it.
use Prim.Native.Nat.{ℕ, zero, suc, ◌≤◌}
use mathlib.Core.Path.{◌≡◌, refl}
use mathlib.Core.Bool.{Bool, true}
use mathlib.Core.List.{List, [], ◌∷◌}
use native.Mathlib.Omega.{arith}
use arena_onsale.Prelude.Tests.{if◌then◌else◌}
use arena_onsale.Prelude.Lists.{length, take}
use arena_onsale.Prelude.Query.{count_where, select}

module _ {ℓ} {A : Type ℓ} (before : A → A → Bool) where
  abbrev pub insert_by : A → List A → List A
  insert_by a [] = a ∷ []
  insert_by a (x ∷ xs) = if before a x then a ∷ x ∷ xs else x ∷ insert_by a xs

  unfoldable pub sort_by : List A → List A
  sort_by [] = []
  sort_by (x ∷ xs) = insert_by x (sort_by xs)

  count_where-insert_by :
      (p : A → Bool) (a : A) (xs : List A) → count_where p (insert_by a xs) ≡ count_where p (a ∷ xs)
  count_where-insert_by p a [] = refl
  count_where-insert_by p a (x ∷ xs) = ground (arith, count_where-insert_by p a xs)

  pub count_where-sort_by :
      (p : A → Bool) (xs : List A) → count_where p (sort_by xs) ≡ count_where p xs
  unfolding sort_by
  count_where-sort_by p [] = refl
  count_where-sort_by p (x ∷ xs) =
      ground (arith, count_where-insert_by p x (sort_by xs), count_where-sort_by p xs)

  length-insert_by : (a : A) (xs : List A) → length (insert_by a xs) ≡ suc (length xs)
  length-insert_by a [] = refl
  length-insert_by a (x ∷ xs) = ground (arith, length-insert_by a xs)

  pub length-sort_by : (xs : List A) → length (sort_by xs) ≡ length xs
  unfolding sort_by
  length-sort_by [] = refl
  length-sort_by (x ∷ xs) = omega (arith, length-insert_by x (sort_by xs), length-sort_by xs)

module _ {ℓ} {A : Type ℓ} (p : A → Bool) where
  pub count_where-length : (xs : List A) → count_where p xs ≤ length xs
  count_where-length [] = omega arith
  count_where-length (x ∷ xs) = ground (arith, count_where-length xs)

  pub count_where-take : (n : ℕ) (xs : List A) → count_where p (take n xs) ≤ count_where p xs
  count_where-take zero xs = omega arith
  count_where-take (suc n) [] = omega arith
  count_where-take (suc n) (x ∷ xs) = ground (arith, count_where-take n xs)

  -- rows that all pass a test still do where some are left out
  pub count_where-take_all :
      (n : ℕ) (xs : List A)
      → count_where p xs ≡ length xs
      → count_where p (take n xs) ≡ length (take n xs)
  count_where-take_all zero xs h = refl
  count_where-take_all (suc n) [] h = refl
  count_where-take_all (suc n) (x ∷ xs) h =
      ground (arith, count_where-length xs, count_where-take_all n xs)

  pub count_where-select :
      (q : A → Bool) (xs : List A) → count_where p (select q xs) ≤ count_where p xs
  count_where-select q [] = omega arith
  count_where-select q (x ∷ xs) = ground (arith, count_where-select q xs)

  pub count_where-select_all :
      (q : A → Bool) (xs : List A)
      → ((x : A) → q x ≡ true → p x ≡ true)
      → count_where p (select q xs) ≡ length (select q xs)
  count_where-select_all q [] f = refl
  count_where-select_all q (x ∷ xs) f = ground (arith, f x, count_where-select_all q xs f)
