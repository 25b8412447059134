-- ===== src/Common/Search.antt =====
-- Text that is searched and changed: `in`, `startswith`, `endswith`, `replace`, `join`, and lines.
use Prim.Native.Nat.{ℕ}
use mathlib.Core.Path.{◌≡◌, refl, sym, ap, ◌∙◌}
use mathlib.Core.Logic.{inl, inr}
use mathlib.Core.Bool.{Bool, true, false, ◌||◌, ◌&&◌}
use mathlib.Core.List.{List, [], ◌∷◌, ◌++◌, reverse, append-nil, append_assoc}
use operandi.Common.Equality.{if◌then◌else◌, ◌==◌, ==_iff, nat_eq, Bool-cases}
use operandi.Common.Texts.{Text, split_at, split_at_from}

-- `s.startswith(p)`
unfoldable pub starts_with : Text → Text → Bool
unfolding nat_eq
starts_with [] s = true
starts_with (c ∷ p) [] = false
starts_with (c ∷ p) (d ∷ s) = (c == d) && starts_with p s

-- `s.endswith(p)`
unfoldable pub ends_with : Text → Text → Bool
unfolding starts_with
ends_with p s = starts_with (reverse p) (reverse s)

-- `p in s`, for texts
unfoldable pub occurs : Text → Text → Bool
unfolding starts_with
occurs p [] = starts_with p []
occurs p (c ∷ s) = starts_with p (c ∷ s) || occurs p s

-- `s.replace(c, d)`, for single characters
unfoldable pub replace_char : ℕ → ℕ → Text → Text
unfolding nat_eq
replace_char c d [] = []
replace_char c d (x ∷ s) = (if x == c then d else x) ∷ replace_char c d s

-- `s.replace(ab, "")`, for a text of two characters
unfoldable pub remove_pair : ℕ → ℕ → Text → Text
unfolding nat_eq
remove_pair a b [] = []
remove_pair a b (x ∷ []) = x ∷ []
remove_pair a b (x ∷ y ∷ s) = elim ((x == a) && (y == b)) [
  | true ↦ remove_pair a b s
  | false ↦ x ∷ remove_pair a b (y ∷ s)
]

-- `sep.join(words)`
unfoldable pub join_words : Text → List Text → Text
join_words sep [] = []
join_words sep (w ∷ []) = w
join_words sep (w ∷ v ∷ ws) = w ++ (sep ++ join_words sep (v ∷ ws))

join-split_at_from :
    (sep : ℕ) (w v s : Text)
    → join_words (sep ∷ []) (w ∷ split_at_from sep v s)
      ≡ w ++ (sep ∷ join_words (sep ∷ []) (split_at_from sep v s))
unfolding join_words
join-split_at_from sep w v [] = refl
join-split_at_from sep w v (c ∷ s) = elim (Bool-cases (c == sep)) [
  | inl same ↦ rw (same, split_at_from) refl
  | inr differ ↦ rw (differ, split_at_from) (join-split_at_from sep w (v ++ c ∷ []) s)
]

join-split_from : (sep : ℕ) (w s : Text) → join_words (sep ∷ []) (split_at_from sep w s) ≡ w ++ s
unfolding join_words
join-split_from sep w [] = sym (append-nil w)
join-split_from sep w (c ∷ s) = elim (Bool-cases (c == sep)) [
  | inl same ↦
      rw (same, split_at_from)
        (join-split_at_from sep w [] s
          ∙ ap (λ t. w ++ (sep ∷ t)) (join-split_from sep [] s)
          ∙ ap (λ x. w ++ (x ∷ s)) (sym ((==_iff c sep).0 same)))
  | inr differ ↦
      rw (differ, split_at_from) (join-split_from sep (w ++ c ∷ []) s ∙ append_assoc w (c ∷ []) s)
]

-- The parts of a text, joined again.
pub join_words-split_at : (sep : ℕ) (s : Text) → join_words (sep ∷ []) (split_at sep s) ≡ s
unfolding split_at
join_words-split_at sep s = join-split_from sep [] s

-- `"".join(texts)`
abbrev pub joined : List Text → Text
joined [] = []
joined (t ∷ ts) = t ++ joined ts

abbrev pub newline : ℕ
newline = 10

abbrev pub lines_from : Text → Text → List Text
lines_from line [] = elim line [ [] ↦ [] | ◌∷◌ c cs ↦ (c ∷ cs) ∷ [] ]
lines_from line (c ∷ s) = elim (c == newline) [
  | true ↦ (line ++ c ∷ []) ∷ lines_from [] s
  | false ↦ lines_from (line ++ c ∷ []) s
]

-- The lines of an open file, each with its end.
unfoldable pub lines_of : Text → List Text
unfolding nat_eq
lines_of = lines_from []

-- `s[1:]` and `s[:-1]`
abbrev pub but_first : Text → Text
but_first [] = []
but_first (c ∷ s) = s

abbrev pub but_last : Text → Text
but_last [] = []
but_last (c ∷ []) = []
but_last (c ∷ d ∷ s) = c ∷ but_last (d ∷ s)
