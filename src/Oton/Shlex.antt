-- ===== src/Oton/Shlex.antt =====
-- `shlex.split`, in its POSIX mode and with no comments, for ocrd_parser.py.
use operandi.Common.{
  ℕ, Bool, true, false, ◌||◌, Option, none, some, List, [], ◌∷◌, ◌++◌, if◌then◌else◌, Text, Result,
  done, raise, value_error, ◌==◌, nat_eq,
}

-- Where the lexer is: between words or in one, in quotes, or behind a backslash.
pub data Mode : Type 0 where
  plain : Mode
  quoted : ℕ → Mode
  escaped : Mode
  quoted_escaped : Mode

abbrev pub is_shell_space : ℕ → Bool
is_shell_space c = c == 32 || c == 9 || c == 13 || c == 10

abbrev pub is_quote : ℕ → Bool
is_quote c = c == b'"' || c == 39

abbrev pub backslash : ℕ
backslash = 92

-- The word that is read so far; `none` between words.
abbrev pub extend : Option Text → Text → Option Text
extend none cs = some cs
extend (some w) cs = some (w ++ cs)

abbrev pub end_word : Option Text → List Text → List Text
end_word none ws = ws
end_word (some w) ws = w ∷ ws

abbrev pub end_of : Option Text → Result (List Text) → Result (List Text)
end_of w (raise e) = raise e
end_of w (done ws) = done (end_word w ws)

-- Between words or in one.
abbrev pub at_plain :
    ℕ → Option Text → (Mode → Option Text → Result (List Text)) → Result (List Text)
at_plain c word rest = elim (is_shell_space c) [
  | true ↦ end_of word (rest plain none)
  | false ↦ elim (is_quote c) [
    | true ↦ rest (quoted c) (extend word [])
    | false ↦ elim (c == backslash) [
      | true ↦ rest escaped word
      | false ↦ rest plain (extend word (c ∷ []))
    ]
  ]
]

-- In quotes: only double quotes know a backslash.
abbrev pub at_quoted :
    ℕ → ℕ → Option Text → (Mode → Option Text → Result (List Text)) → Result (List Text)
at_quoted quote c word rest = elim (c == quote) [
  | true ↦ rest plain word
  | false ↦ elim (c == backslash) [
    | true ↦ elim (quote == b'"') [
      | true ↦ rest quoted_escaped word
      | false ↦ rest (quoted quote) (extend word (c ∷ []))
    ]
    | false ↦ rest (quoted quote) (extend word (c ∷ []))
  ]
]

-- Behind a backslash in double quotes, which stays unless it stands before one of the two.
abbrev pub after_backslash : ℕ → Text
after_backslash c = if c == backslash || c == b'"' then c ∷ [] else backslash ∷ c ∷ []

-- The end of the text in quotes or behind a backslash is a `ValueError`.
unfoldable pub split_from : Text → Mode → Option Text → Result (List Text)
unfolding nat_eq
split_from [] plain word = done (end_word word [])
split_from [] (quoted q) word = raise value_error
split_from [] escaped word = raise value_error
split_from [] quoted_escaped word = raise value_error
split_from (c ∷ s) plain word = at_plain c word (split_from s)
split_from (c ∷ s) (quoted q) word = at_quoted q c word (split_from s)
split_from (c ∷ s) escaped word = split_from s plain (extend word (c ∷ []))
split_from (c ∷ s) quoted_escaped word =
    split_from s (quoted b'"') (extend word (after_backslash c))

unfoldable pub shlex_split : Text → Result (List Text)
unfolding split_from
shlex_split s = split_from s plain none
