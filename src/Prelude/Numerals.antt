-- ===== src/Prelude/Numerals.antt =====
-- Python's `chr` and `str` of a number, and reading digits back.
use Prim.Native.Nat.{ℕ, zero, suc, ◌+◌, ◌-◌, ◌*◌, ◌/◌, ◌%◌, ◌≤◌, ◌<◌, compare, Ordering}
use Prim.Native.Char.{Char, char, code, nul, IsScalar}
use Prim.Native.String.{String}
use mathlib.Core.Path.{◌≡◌, refl, ap}
use mathlib.Core.Logic.{inl, inr}
use native.Mathlib.Omega.{arith}
use arena_onsale.Prelude.Tests.{if◌then◌else◌, ◌==◌, Bool-cases}

pub IsScalar-of_lt : (n : ℕ) → compare n 55296 ≡ Ordering.lt → IsScalar n
IsScalar-of_lt n e = ground arith

abbrev pub chr_at : (n : ℕ) (o : Ordering) → compare n 55296 ≡ o → Char
chr_at n Ordering.lt e = char n (IsScalar-of_lt n e)
chr_at n Ordering.eq e = nul
chr_at n Ordering.gt e = nul

-- `chr(n)` below the surrogates
unfoldable pub chr : ℕ → Char
chr n = chr_at n (compare n 55296) refl

code-chr_at : (n : ℕ) (o : Ordering) (e : compare n 55296 ≡ o) → n < 55296 → code (chr_at n o e) ≡ n
code-chr_at n Ordering.lt e h = refl
code-chr_at n Ordering.eq e h = absurd (ground arith)
code-chr_at n Ordering.gt e h = absurd (ground arith)

pub code-chr : (n : ℕ) → n < 55296 → code (chr n) ≡ n
unfolding chr
code-chr n h = code-chr_at n (compare n 55296) refl h

-- The number that a text spells in base `b`, the digit 0 having code `z`; `acc` is what stands before.
abbrev pub read : ℕ → ℕ → ℕ → String → ℕ
read b z acc String.[] = acc
read b z acc (String.◌∷◌ c s) = read b z (acc * b + (code c - z)) s

-- The digits of `n` in base 10 before the text `s`; `fuel` bounds their number.
unfoldable pub digits : ℕ → ℕ → String → String
unfolding chr
digits zero n s = s
digits (suc fuel) n s =
    let more = digits fuel (n / 10) (String.◌∷◌ (chr (48 + n % 10)) s) in if n == 0 then s else more

-- `str(n)` of an `int` that is not negative
unfoldable pub str : ℕ → String
unfolding digits
str n = if n == 0 then "0" else digits n n String.[]

read-digits : (fuel n : ℕ) (s : String) → n ≤ fuel → read 10 48 0 (digits fuel n s) ≡ read 10 48 n s
unfolding digits
read-digits zero n s h = ap (λ m. read 10 48 m s) (omega arith)
read-digits (suc fuel) n s h =
    ground
      (arith, code-chr (48 + n % 10), read-digits fuel (n / 10) (String.◌∷◌ (chr (48 + n % 10)) s))

-- Reading what `str` writes gives the number back.
pub read-str : (n : ℕ) → read 10 48 0 (str n) ≡ n
unfolding str
read-str n = elim (Bool-cases (n == 0)) [
  | inl z ↦ rw z (ground arith)
  | inr nz ↦ rw nz (read-digits n n String.[] (omega arith))
]

str_runs : str 1305 ≡ "1305"
unfolding str
str_runs = refl
