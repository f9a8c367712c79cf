-- ===== src/Load/Fans.antt =====
-- The names of the fans.
use arena_onsale.Prelude.{ℕ, zero, suc, ◌-◌, ◌≡◌, refl, String, ap, sym, ◌∙◌}
use arena_onsale.Prelude.Numerals.{read, str, read-str}
use arena_onsale.Prelude.Text.{text_length, append}
use arena_onsale.Load.{zeros, padded, visitor_id}

read-zeros : (n : ℕ) (s : String) → read 10 48 0 (zeros n s) ≡ read 10 48 0 s
read-zeros zero s = refl
read-zeros (suc n) s = read-zeros n s

abbrev after_first : String → String
after_first String.[] = ""
after_first (String.◌∷◌ c s) = s

append-injective : (p s t : String) → append p s ≡ append p t → s ≡ t
unfolding append
append-injective String.[] s t e = e
append-injective (String.◌∷◌ c p) s t e = append-injective p s t (ap after_first e)

read-padded : (i : ℕ) → read 10 48 0 (padded i) ≡ i
read-padded i = read-zeros (7 - text_length (str i)) (str i) ∙ read-str i

-- No two fans of a crowd have the same name, so the mapping of a batch has an entry for each index.
pub visitor_id-injective :
    (i j : ℕ) (prefix : String) → visitor_id i prefix ≡ visitor_id j prefix → i ≡ j
unfolding visitor_id
visitor_id-injective i j prefix e =
    let same : padded i ≡ padded j =
      ap after_first
        (append-injective prefix (String.◌∷◌ "-" (padded i)) (String.◌∷◌ "-" (padded j)) e) in
    sym (read-padded i) ∙ ap (read 10 48 0) same ∙ read-padded j
