-- ===== src/Prelude/Text.antt =====
-- Python's `str` as the native text: equality, `strip`, and the order of texts.
use Prim.Native.Nat.{ℕ, ◌+◌}
use Prim.Native.Char.{code}
use Prim.Native.String.{String}
use mathlib.Core.Path.{◌≡◌, refl}
use mathlib.Core.Bool.{Bool, true, false, ◌&&◌, ◌||◌}
use arena_onsale.Prelude.Tests.{leb, ◌==◌, if◌then◌else◌}
use Prim.Native.String.{compare}
use text.Mathlib.Text.{is_le}
pub use text.Mathlib.Text.{◌==◌ as str_eq}
pub use text.Mathlib.TextEquality.{eq_iff}

-- tab to carriage return, the four separators and space
abbrev pub is_ascii_space : ℕ → Bool
is_ascii_space c = (leb 9 c && leb c 13) || (leb 28 c && leb c 32)

-- `str.isspace` of a character
abbrev pub is_space : ℕ → Bool
is_space c =
    is_ascii_space c
    || ((c == 133)
        || ((c == 160)
            || ((c == 5760)
                || ((leb 8192 c && leb c 8202)
                    || ((c == 8232)
                        || ((c == 8233) || ((c == 8239) || ((c == 8287) || (c == 12288)))))))))

abbrev pub is_empty_text : String → Bool
is_empty_text String.[] = true
is_empty_text (String.◌∷◌ c s) = false

unfoldable pub lstrip : String → String
lstrip String.[] = String.[]
lstrip (String.◌∷◌ c s) = if is_space (code c) then lstrip s else String.◌∷◌ c s

unfoldable pub rstrip : String → String
rstrip String.[] = String.[]
rstrip (String.◌∷◌ c s) =
    let rest = rstrip s in
    if is_space (code c) && is_empty_text rest then String.[] else String.◌∷◌ c rest

-- `s.strip()`
unfoldable pub strip : String → String
unfolding lstrip rstrip
strip s = rstrip (lstrip s)

strip_runs : strip "  a b \n" ≡ "a b"
unfolding strip
strip_runs = refl

strip_blank : strip "  " ≡ ""
unfolding strip
strip_blank = refl

-- `len` of a text
unfoldable pub text_length : String → ℕ
text_length String.[] = 0
text_length (String.◌∷◌ c s) = text_length s + 1

-- a text followed by another
unfoldable pub append : String → String → String
append String.[] t = t
append (String.◌∷◌ c s) t = String.◌∷◌ c (append s t)

-- `s <= t`, by code points
abbrev pub text_le : String → String → Bool
text_le s t = is_le (compare s t)
