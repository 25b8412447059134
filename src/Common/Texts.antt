-- ===== src/Common/Texts.antt =====
-- Text that the program takes apart, as its code points: `split`, `strip`, `int`.
use Prim.Native.Nat.{ℕ, zero, suc, ◌+◌, ◌-◌, ◌*◌, ◌/◌, ◌%◌, Ordering, compare}
use Prim.Native.Char.{Char, char, code, nul}
use Prim.Native.String.{String}
use mathlib.Core.Path.{◌≡◌, refl}
use mathlib.Core.Bool.{Bool, true, false, ◌||◌, ◌&&◌}
use mathlib.Core.Option.{Option, none, some}
use mathlib.Core.List.{List, [], ◌∷◌, ◌++◌, reverse}
use native.Mathlib.Decide.{ℕ_discrete}
use operandi.Common.Equality.{if◌then◌else◌, Eq, ◌==◌, nat_eq, leb}

abbrev pub Text : Type 0
Text = List ℕ

abbrev pub codes : String → Text
codes String.[] = []
codes (String.◌∷◌ c s) = code c ∷ codes s

unfoldable pub char_by : (n : ℕ) (o : Ordering) → compare n 55296 ≡ o → Char
char_by n Ordering.lt below = char n (rw below tt)
char_by n Ordering.eq below = nul
char_by n Ordering.gt below = nul

-- The string of code points that are below those of the surrogates.
unfoldable pub text_of : Text → String
unfolding char_by
text_of [] = String.[]
text_of (n ∷ ns) = String.◌∷◌ (char_by n (compare n 55296) refl) (text_of ns)

text_dec : Discrete Text
unfolding ℕ_discrete
text_dec = hlevel ℕ_discrete

instance unfoldable pub text_eq : Eq Text
unfolding text_dec
text_eq = record { dec = text_dec }

-- `str.isspace`
unfoldable pub is_space : ℕ → Bool
unfolding nat_eq
is_space c =
    (leb 9 c && leb c 13)
    || (leb 28 c && leb c 32)
    || c == 133
    || c == 160
    || c == 5760
    || (leb 8192 c && leb c 8202)
    || c == 8232
    || c == 8233
    || c == 8239
    || c == 8287
    || c == 12288

abbrev add_word : Text → List Text → List Text
add_word [] ws = ws
add_word (c ∷ w) ws = (c ∷ w) ∷ ws

abbrev split_from : Text → Text → List Text
split_from w [] = add_word w []
split_from w (c ∷ cs) = elim (is_space c) [
  | true ↦ add_word w (split_from [] cs)
  | false ↦ split_from (w ++ c ∷ []) cs
]

-- `s.split()`
unfoldable pub split : Text → List Text
unfolding is_space
split = split_from []

abbrev pub split_at_from : ℕ → Text → Text → List Text
split_at_from sep w [] = w ∷ []
split_at_from sep w (c ∷ cs) = elim (c == sep) [
  | true ↦ w ∷ split_at_from sep [] cs
  | false ↦ split_at_from sep (w ++ c ∷ []) cs
]

-- `s.split(sep)` for a separator of one character: there is always a first part.
unfoldable pub split_at : ℕ → Text → List Text
unfolding nat_eq
split_at sep = split_at_from sep []

abbrev pub lstrip_by : (ℕ → Bool) → Text → Text
lstrip_by p [] = []
lstrip_by p (c ∷ cs) = elim (p c) [ true ↦ lstrip_by p cs | false ↦ c ∷ cs ]

-- `s.strip(chars)`, for the characters that meet `p`.
unfoldable pub strip_by : (ℕ → Bool) → Text → Text
strip_by p s = reverse (lstrip_by p (reverse (lstrip_by p s)))

-- `xs[-1]` of a list with a first element.
abbrev pub last_of {ℓ} : {A : Type ℓ} → A → List A → A
last_of x [] = x
last_of x (y ∷ ys) = last_of y ys

unfoldable pub is_digit : ℕ → Bool
is_digit c = leb b'0' c && leb c b'9'

abbrev pub digits_from : ℕ → Text → Option ℕ
digits_from n [] = some n
digits_from n (c ∷ cs) = elim (is_digit c) [
  | true ↦ digits_from (n * 10 + (c - b'0')) cs
  | false ↦ none
]

abbrev pub read_digits : Text → Option ℕ
read_digits [] = none
read_digits (c ∷ cs) = digits_from 0 (c ∷ cs)

-- `int(s)` of a decimal literal without sign and underscores; `none` for a `ValueError`.
unfoldable pub int_of : Text → Option ℕ
unfolding is_digit is_space strip_by
int_of s = read_digits (strip_by is_space s)

abbrev pub decimal_from : ℕ → ℕ → Text → Text
decimal_from zero n acc = acc
decimal_from (suc fuel) n acc =
    let digits = (b'0' + n % 10) ∷ acc in
    let rest = decimal_from fuel (n / 10) digits in if leb n 9 then digits else rest

-- `str(n)` of a natural number. It has no more digits than `n + 1`, the fuel.
unfoldable pub decimal : ℕ → Text
decimal n = decimal_from (suc n) n []
