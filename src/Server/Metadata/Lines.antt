-- ===== src/Server/Metadata/Lines.antt =====
-- src/server/operandi_server/routers/workflow_utils.py: the lines of a script, and their words.
use operandi.Common.{
  if◌then◌else◌, replace_char, all_digits, is_digit, ℕ, Bool, true, false, [], ◌∷◌, ◌++◌, Text,
  lines_of, lines_from, remove_pair, split_at_from, newline, nat_eq, ◌==◌, ==_iff, Bool-cases, ◌≡◌,
  refl, sym, ap, ◌∙◌, inl, inr, arith, append_assoc, append-nil,
}

-- The character is not in the text.
abbrev pub IsFree : ℕ → Text → Type 0
IsFree c [] = Unit {0}
IsFree c (d ∷ s) = ((d == c) ≡ false) × IsFree c s

pub IsFree-append : (c : ℕ) (s t : Text) → IsFree c s → IsFree c t → IsFree c (s ++ t)
IsFree-append c [] t hs ht = ht
IsFree-append c (d ∷ s) t (h, hs) ht = (h, IsFree-append c s t hs ht)

pub lines_from-free :
    (line s rest : Text)
    → IsFree newline s
    → lines_from line (s ++ newline ∷ rest) ≡ (line ++ (s ++ newline ∷ [])) ∷ lines_of rest
unfolding lines_of
lines_from-free line [] rest h = refl
lines_from-free line (d ∷ s) rest (h, hs) =
    rw (h, lines_from)
      (lines_from-free (line ++ d ∷ []) s rest hs
        ∙ ap (λ l. l ∷ lines_of rest) (append_assoc line (d ∷ []) (s ++ newline ∷ [])))

pub remove_pair-step :
    (x y : ℕ) (s : Text)
    → (y == newline) ≡ false
    → remove_pair b')' newline (x ∷ y ∷ s) ≡ x ∷ remove_pair b')' newline (y ∷ s)
unfolding remove_pair
remove_pair-step x y s h = ground arith

remove_pair-line :
    (s : Text) (d : ℕ)
    → IsFree newline (s ++ d ∷ [])
    → (d == b')') ≡ false
    → remove_pair b')' newline (s ++ d ∷ newline ∷ []) ≡ s ++ d ∷ newline ∷ []
unfolding remove_pair
remove_pair-line [] d h differ = ground arith
remove_pair-line (x ∷ []) d h differ = ground arith
remove_pair-line (x ∷ y ∷ s) d (hx, (hy, h)) differ =
    remove_pair-step x y (s ++ d ∷ newline ∷ []) hy
    ∙ ap (λ t. x ∷ t) (remove_pair-line (y ∷ s) d (hy, h) differ)

pub remove_pair-call :
    (s : Text) → IsFree newline s → remove_pair b')' newline (s ++ b')' ∷ newline ∷ []) ≡ s
unfolding remove_pair nat_eq
remove_pair-call [] h = refl
remove_pair-call (x ∷ []) h = ground arith
remove_pair-call (x ∷ y ∷ s) (hx, (hy, h)) =
    remove_pair-step x y (s ++ b')' ∷ newline ∷ []) hy
    ∙ ap (λ t. x ∷ t) (remove_pair-call (y ∷ s) (hy, h))

-- A word before a space.
pub split_at_from-word :
    (w v s : Text)
    → IsFree b' ' v
    → split_at_from b' ' w (v ++ b' ' ∷ s) ≡ (w ++ v) ∷ split_at_from b' ' [] s
unfolding nat_eq
split_at_from-word w [] s h = ap (λ u. u ∷ split_at_from b' ' [] s) (sym (append-nil w))
split_at_from-word w (d ∷ v) s (h, hs) =
    rw (h, split_at_from)
      (split_at_from-word (w ++ d ∷ []) v s hs
        ∙ ap (λ u. u ∷ split_at_from b' ' [] s) (append_assoc w (d ∷ []) v))

abbrev pub is_free : ℕ → Text → Bool
is_free c [] = true
is_free c (d ∷ s) = if d == c then false else is_free c s

pub is_free-IsFree : (c : ℕ) (s : Text) → is_free c s ≡ true → IsFree c s
is_free-IsFree c [] h = tt
is_free-IsFree c (d ∷ s) h = elim (Bool-cases (d == c)) [
  | inl same ↦ ground arith
  | inr differ ↦ (differ, is_free-IsFree c s (ground arith))
]

digit_differs : (d c : ℕ) → is_digit d ≡ true → is_digit c ≡ false → (d == c) ≡ false
digit_differs d c h k = elim (Bool-cases (d == c)) [
  | inl same ↦ let equal = ap is_digit ((==_iff d c).0 same) in ground arith
  | inr differ ↦ differ
]

if_differs :
    (test : Bool) (b d c : ℕ)
    → (b == c) ≡ false
    → (d == c) ≡ false
    → ((if test then b else d) == c) ≡ false
if_differs true b d c h k = h
if_differs false b d c h k = k

if_gone : (a b d : ℕ) → (b == a) ≡ false → ((if d == a then b else d) == a) ≡ false
if_gone a b d h = elim (Bool-cases (d == a)) [
  | inl same ↦ rw same h
  | inr differ ↦ rw differ differ
]

pub digits-IsFree : (c : ℕ) (s : Text) → all_digits s ≡ true → is_digit c ≡ false → IsFree c s
digits-IsFree c [] h k = tt
digits-IsFree c (d ∷ s) h k =
    (digit_differs d c (ground arith) k, digits-IsFree c s (ground arith) k)

pub replace_char-IsFree :
    (a b c : ℕ) (s : Text) → IsFree c s → (b == c) ≡ false → IsFree c (replace_char a b s)
unfolding replace_char
replace_char-IsFree a b c [] h k = tt
replace_char-IsFree a b c (d ∷ s) (h, hs) k =
    (if_differs (d == a) b d c k h, replace_char-IsFree a b c s hs k)

-- What is replaced is gone.
pub replaced-IsFree : (a b : ℕ) (s : Text) → (b == a) ≡ false → IsFree a (replace_char a b s)
unfolding replace_char
replaced-IsFree a b [] k = tt
replaced-IsFree a b (d ∷ s) k = (if_gone a b d k, replaced-IsFree a b s k)
