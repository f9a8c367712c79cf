-- ===== src/Catalog/Layout/Codes.antt =====
-- The codes of the sections in CUP26_FINAL_SMALL and CUP26_FINAL.
use arena_onsale.Prelude.{
  ℕ, zero, suc, ◌+◌, ◌≡◌, ◌≤◌, ◌<◌, refl, String, List, [], ◌∷◌, arith, inl, inr, Bool-cases, subst,
}
use arena_onsale.Prelude.Query.{count_where}
use arena_onsale.Prelude.Numerals.{str}
use arena_onsale.Prelude.Text.{str_eq, eq_iff}
use arena_onsale.Catalog.Layout.{SectionSpec, full_sections, cup26_final, cup26_final_small}
use arena_onsale.Catalog.Layout.Places.{has_code, str-injective, UniqueCodes}

-- No code comes again.
abbrev Distinct : List SectionSpec → Type 0
Distinct [] = Unit
Distinct (s ∷ ss) = (count_where (has_code s.code) ss ≡ 0) × Distinct ss

one_code :
    (code : String) (ss : List SectionSpec) → Distinct ss → count_where (has_code code) ss ≤ 1
one_code code [] d = omega arith
one_code code (s ∷ ss) d = elim (Bool-cases (str_eq s.code code)) [
  | inl same ↦
      let no_more : count_where (has_code code) ss ≡ 0 =
        subst (λ c. count_where (has_code c) ss ≡ 0) ((eq_iff s.code code).0 same) d.0 in
      ground (arith, no_more)
  | inr other ↦ ground (arith, one_code code ss d.1)
]

later_codes :
    (m n count : ℕ) → m < n → count_where (has_code (str (100 + m))) (full_sections n count) ≡ 0
unfolding full_sections
later_codes m n zero h = refl
later_codes m n (suc count) h = elim (Bool-cases (str_eq (str (100 + n)) (str (100 + m)))) [
  | inl same ↦ absurd (
      omega (
        arith,
        h,
        str-injective (100 + n) (100 + m) ((eq_iff (str (100 + n)) (str (100 + m))).0 same),
      ))
  | inr other ↦ ground (arith, later_codes m (n + 1) count)
]

full_sections-Distinct : (n count : ℕ) → Distinct (full_sections n count)
unfolding full_sections
full_sections-Distinct n zero = tt
full_sections-Distinct n (suc count) =
    (later_codes n (n + 1) count (omega arith), full_sections-Distinct (n + 1) count)

pub cup26_final-UniqueCodes : UniqueCodes cup26_final
unfolding cup26_final
cup26_final-UniqueCodes code = one_code code (full_sections 1 20) (full_sections-Distinct 1 20)

pub cup26_final_small-UniqueCodes : UniqueCodes cup26_final_small
cup26_final_small-UniqueCodes code =
    one_code code cup26_final_small.sections (refl, (refl, (refl, tt)))
