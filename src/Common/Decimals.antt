-- ===== src/Common/Decimals.antt =====
-- A number that is printed is read back.
use Prim.Native.Nat.{ℕ, zero, suc, ◌+◌, ◌-◌, ◌*◌, ◌/◌, ◌%◌, ◌≤◌, ◌<◌, Ordering, compare}
use Prim.Native.Char.{code}
use mathlib.Core.Path.{◌≡◌, refl, sym, ◌∙◌, ap}
use mathlib.Core.Logic.{inl, inr}
use mathlib.Core.Bool.{Bool, true, false, ◌&&◌}
use mathlib.Core.Option.{some, some-injective}
use mathlib.Core.List.{[], ◌∷◌, ◌++◌, reverse, reverse-cons, reverse-reverse}
use native.Mathlib.Omega.{arith, compare-eq, compare-gt}
use operandi.Common.Equality.{leb, Bool-cases}
use operandi.Common.Texts.{
  Text, codes, text_of, char_by, decimal, decimal_from, digits_from, is_digit, is_space, lstrip_by,
  strip_by, read_digits, int_of,
}

is_digit-digit : (d : ℕ) → d ≤ 9 → is_digit (48 + d) ≡ true
unfolding is_digit
is_digit-digit d h = ground arith

digits_from-digit :
    (m d : ℕ) (acc : Text) → d ≤ 9 → digits_from m ((48 + d) ∷ acc) ≡ digits_from (m * 10 + d) acc
digits_from-digit m d acc h =
    let same : 48 + d - 48 ≡ d = omega arith in rw (digits_from, is_digit-digit d h) (rw same refl)

last_digit : (n : ℕ) → n % 10 ≤ 9
last_digit n = omega arith

digits_from-decimal_from :
    (fuel n : ℕ) (acc : Text)
    → n < fuel
    → digits_from 0 (decimal_from fuel n acc) ≡ digits_from n acc
digits_from-decimal_from zero n acc h = absurd (omega arith)
digits_from-decimal_from (suc fuel) n acc h = elim (Bool-cases (leb n 9)) [
  | inl small ↦
      let low : n ≤ 9 = ground arith in
      let same : 0 * 10 + n % 10 ≡ n = omega (arith, low) in
      rw (decimal_from, small)
        (digits_from-digit 0 (n % 10) acc (last_digit n) ∙ ap (λ k. digits_from k acc) same)
  | inr large ↦
      let high : 9 < n = ground arith in
      let same : n / 10 * 10 + n % 10 ≡ n = omega arith in
      rw (decimal_from, large)
        (digits_from-decimal_from fuel (n / 10) ((48 + n % 10) ∷ acc) (omega (arith, high))
          ∙ digits_from-digit (n / 10) (n % 10) acc (last_digit n)
          ∙ ap (λ k. digits_from k acc) same)
]

code-char_by :
    (n : ℕ) (o : Ordering) (h : compare n 55296 ≡ o) → n < 55296 → code (char_by n o h) ≡ n
unfolding char_by
code-char_by n Ordering.lt h below = refl
code-char_by n Ordering.eq h below = absurd (omega (arith, compare-eq n 55296 h))
code-char_by n Ordering.gt h below = absurd (omega (arith, compare-gt n 55296 h))

abbrev pub all_digits : Text → Bool
all_digits [] = true
all_digits (c ∷ cs) = is_digit c && all_digits cs

all_digits-decimal_from :
    (fuel n : ℕ) (acc : Text) → all_digits acc ≡ true → all_digits (decimal_from fuel n acc) ≡ true
all_digits-decimal_from zero n acc h = h
all_digits-decimal_from (suc fuel) n acc h = ground (
  arith,
  is_digit-digit (n % 10) (last_digit n),
  all_digits-decimal_from fuel (n / 10) ((48 + n % 10) ∷ acc),
)

digit_bound : (c : ℕ) → is_digit c ≡ true → c < 55296
unfolding is_digit
digit_bound c h = ground arith

codes-text_of : (t : Text) → all_digits t ≡ true → codes (text_of t) ≡ t
unfolding text_of
codes-text_of [] h = refl
codes-text_of (c ∷ cs) h =
    let digit : is_digit c ≡ true = ground arith in
    let rest : all_digits cs ≡ true = ground arith in
    rw (code-char_by c (compare c 55296) refl (digit_bound c digit))
      (ap (λ t. c ∷ t) (codes-text_of cs rest))

digit_is_no_space : (c : ℕ) → is_digit c ≡ true → is_space c ≡ false
unfolding is_digit is_space
digit_is_no_space c h = ground arith

lstrip_by-digits : (t : Text) → all_digits t ≡ true → lstrip_by is_space t ≡ t
lstrip_by-digits [] h = refl
lstrip_by-digits (c ∷ cs) h = ground (arith, digit_is_no_space c)

all_digits-append :
    (t : Text) (c : ℕ) → all_digits t ≡ true → is_digit c ≡ true → all_digits (t ++ c ∷ []) ≡ true
all_digits-append [] c h digit = ground arith
all_digits-append (x ∷ t) c h digit = ground (arith, all_digits-append t c)

all_digits-reverse : (t : Text) → all_digits t ≡ true → all_digits (reverse t) ≡ true
all_digits-reverse [] h = refl
all_digits-reverse (c ∷ t) h =
    let digit : is_digit c ≡ true = ground arith in
    let rest : all_digits t ≡ true = ground arith in
    rw (reverse-cons c t) (all_digits-append (reverse t) c (all_digits-reverse t rest) digit)

strip_by-digits : (t : Text) → all_digits t ≡ true → strip_by is_space t ≡ t
unfolding strip_by
strip_by-digits t h =
    rw (lstrip_by-digits t h)
      (rw (lstrip_by-digits (reverse t) (all_digits-reverse t h)) (reverse-reverse t))

read_digits-decimal_from :
    (fuel n c : ℕ) (acc : Text)
    → read_digits (decimal_from fuel n (c ∷ acc)) ≡ digits_from 0 (decimal_from fuel n (c ∷ acc))
read_digits-decimal_from zero n c acc = refl
read_digits-decimal_from (suc fuel) n c acc =
    ground (arith, read_digits-decimal_from fuel (n / 10) (48 + n % 10) (c ∷ acc))

read_digits-decimal : (n : ℕ) → read_digits (decimal n) ≡ some n
unfolding decimal
read_digits-decimal n = ground (
  arith,
  read_digits-decimal_from n (n / 10) (48 + n % 10) [],
  digits_from-decimal_from (suc n) n [] (omega arith),
)

-- The text of a number is read as the number.
pub int_of-decimal : (n : ℕ) → int_of (codes (text_of (decimal n))) ≡ some n
unfolding int_of decimal
int_of-decimal n =
    let digits = all_digits-decimal_from (suc n) n [] refl in
    rw (codes-text_of (decimal n) digits)
      (rw (strip_by-digits (decimal n) digits) (read_digits-decimal n))

pub decimal-all_digits : (n : ℕ) → all_digits (decimal n) ≡ true
unfolding decimal
decimal-all_digits n = all_digits-decimal_from (suc n) n [] refl

-- Different numbers are printed differently.
pub decimal-injective : (m n : ℕ) → decimal m ≡ decimal n → m ≡ n
decimal-injective m n p =
    some-injective m n
      (sym (int_of-decimal m) ∙ ap (λ t. int_of (codes (text_of t))) p ∙ int_of-decimal n)
