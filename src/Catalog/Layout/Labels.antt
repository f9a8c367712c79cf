-- ===== src/Catalog/Layout/Labels.antt =====
-- The labels of rows, read as numbers.
use arena_onsale.Prelude.{ℕ, zero, suc, ◌+◌, ◌-◌, ◌/◌, ◌%◌, ◌≤◌, ◌≡◌, String, arith, ap}
use arena_onsale.Prelude.Numerals.{chr, code-chr, read}
use arena_onsale.Catalog.Layout.{label_from, row_label}

read-label_from :
    (fuel n : ℕ) (s : String) → n ≤ fuel → read 26 64 0 (label_from fuel n s) ≡ read 26 64 n s
unfolding label_from
read-label_from zero n s h = ap (λ m. read 26 64 m s) (omega arith)
read-label_from (suc fuel) n s h = ground (
  arith,
  code-chr (65 + (n - 1) % 26),
  read-label_from fuel ((n - 1) / 26) (String.◌∷◌ (chr (65 + (n - 1) % 26)) s),
)

-- Read in base 26 with the letters as the digits 1 to 26, the label of a row is the row's number from 1.
pub row_label-read : (index : ℕ) → read 26 64 0 (row_label index) ≡ index + 1
unfolding row_label
row_label-read index = read-label_from (index + 1) (index + 1) String.[] (omega arith)

-- No two rows of a section share a label.
pub row_label-injective : (i j : ℕ) → row_label i ≡ row_label j → i ≡ j
row_label-injective i j e =
    omega (arith, row_label-read i, row_label-read j, ap (λ s. read 26 64 0 s) e)
