-- ===== src/Catalog/Layout/Loop.antt =====
-- The loop of `_row_label` ends.
use arena_onsale.Prelude.{
  ℕ, zero, suc, ◌+◌, ◌-◌, ◌/◌, ◌%◌, ◌≤◌, ◌≡◌, String, arith, false, ◌==◌, subst, refl,
}
use arena_onsale.Prelude.{Bool, true, ◌&&◌, leb, ap, ◌∙◌}
use Prim.Native.Char.{code}
use arena_onsale.Catalog.Layout.Labels.{row_label-read}
use arena_onsale.Prelude.Numerals.{chr, code-chr, read}
use arena_onsale.Catalog.Layout.{label_from, row_label}

-- The runs of `while remaining`, from what stands in `remaining` and `label` to the label returned.
pub data Run : ℕ → String → String → Type 0 where
  ended : (label : String) → Run 0 label label
  turn :
      (remaining : ℕ) (label last : String)
      → 1 ≤ remaining
      → Run ((remaining - 1) / 26) (String.◌∷◌ (chr (65 + (remaining - 1) % 26)) label) last
      → Run remaining label last

label_from-Run : (fuel n : ℕ) (s : String) → n ≤ fuel → Run n s (label_from fuel n s)
unfolding label_from
label_from-Run zero n s h = subst (λ m. Run m s s) (omega (arith, h)) (ended s)
label_from-Run (suc fuel) zero s h = ended s
label_from-Run (suc fuel) (suc n) s h =
    let left = (suc n - 1) / 26 in
    let longer = String.◌∷◌ (chr (65 + (suc n - 1) % 26)) s in
    let more : (suc n == 0) ≡ false = ground arith in
    rw more (
      turn (suc n) s (label_from fuel left longer) (omega arith)
        (label_from-Run fuel left longer (omega (arith, h))))

Run-label_from :
    {n : ℕ} {s last : String} → Run n s last → (fuel : ℕ) → n ≤ fuel → last ≡ label_from fuel n s
unfolding label_from
Run-label_from (ended label) zero h = refl
Run-label_from (ended label) (suc fuel) h = refl
Run-label_from (turn remaining label last more run) zero h = absurd (omega (arith, h, more))
Run-label_from (turn remaining label last more run) (suc fuel) h =
    let left : (remaining == 0) ≡ false = ground (arith, more) in
    rw left (Run-label_from run fuel (omega (arith, h, more)))

-- a letter from A to Z
abbrev is_letter : ℕ → Bool
is_letter c = leb 65 c && leb c 90

abbrev pub all_letters : String → Bool
all_letters String.[] = true
all_letters (String.◌∷◌ c s) = is_letter (code c) && all_letters s

label_from-all_letters :
    (fuel n : ℕ) (s : String) → all_letters s ≡ true → all_letters (label_from fuel n s) ≡ true
unfolding label_from
label_from-all_letters zero n s h = h
label_from-all_letters (suc fuel) n s h = ground (
  arith,
  code-chr (65 + (n - 1) % 26),
  label_from-all_letters fuel ((n - 1) / 26) (String.◌∷◌ (chr (65 + (n - 1) % 26)) s),
)

-- For every index the loop of `_row_label` ends, and whatever run of it ends, ends with the label of the
-- model: a text of the letters A to Z that, read in base 26 with these as the digits 1 to 26, is the
-- number of the row from 1.
pub row_label-Run :
    (index : ℕ)
    → Run (index + 1) "" (row_label index)
      × ((last : String)
          → Run (index + 1) "" last
          → (last ≡ row_label index) × (read 26 64 0 last ≡ index + 1) × (all_letters last ≡ true))
unfolding row_label
row_label-Run index = (
  label_from-Run (index + 1) (index + 1) "" (omega arith),
  λ last run.
      let same : last ≡ row_label index = Run-label_from run (index + 1) (omega arith) in
      (
        same,
        ap (read 26 64 0) same ∙ row_label-read index,
        ap all_letters same ∙ label_from-all_letters (index + 1) (index + 1) "" refl,
      ),
)
