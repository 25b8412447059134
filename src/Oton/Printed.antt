-- ===== src/Oton/Printed.antt =====
-- src/utils/operandi_utils/oton/ocrd_parser.py and process_call_arguments.py: a call that is
-- printed, and parsed again.
use operandi.Common.{
  ℕ, Bool, true, false, ◌||◌, Option, none, some, List, [], ◌∷◌, ◌++◌, Text, codes, Result, done,
  ◌==◌, Bool-cases, text_eq, nat_eq, join_words-split_at, join_words, ◌≡◌, refl, sym, inl, inr,
  arith, append_assoc, append-nil, ap, subst, ◌∙◌, if◌then◌else◌,
}
use operandi.Oton.Arguments.{
  Ocrd, ToolJson, ProcessorCallArguments, processor_call_arguments, dump_bash_form, self_validate,
}
use operandi.Oton.Shlex.{
  shlex_split, split_from, Mode, is_shell_space, is_quote, backslash, plain, at_plain, extend,
  end_of,
}
use operandi.Oton.Parser.{
  parse_groups, parse_option, parse_tokens, parse_arguments, parse_words, validated,
}

-- A character that the shell's lexer takes as it is.
abbrev pub is_plain : ℕ → Bool
unfolding nat_eq
is_plain c = if is_shell_space c || is_quote c || c == backslash then false else true

abbrev pub IsPlain : Text → Type 0
IsPlain [] = Unit {0}
IsPlain (c ∷ s) = (is_plain c ≡ true) × IsPlain s

-- A word of the shell that needs no quotes.
abbrev pub IsWord : Text → Type 0
IsWord [] = ⊥
IsWord (c ∷ s) = IsPlain (c ∷ s)

abbrev pub AreWords : List Text → Type 0
AreWords [] = Unit {0}
AreWords (w ∷ ws) = IsWord w × AreWords ws

at_plain-plain :
    (c : ℕ) (read : Option Text) (rest : Mode → Option Text → Result (List Text))
    → is_plain c ≡ true
    → at_plain c read rest ≡ rest plain (extend read (c ∷ []))
unfolding nat_eq
at_plain-plain c read rest h = ground arith

at_plain-space :
    (read : Option Text) (rest : Mode → Option Text → Result (List Text))
    → at_plain b' ' read rest ≡ end_of read (rest plain none)
unfolding nat_eq
at_plain-space read rest = refl

split_from-plain :
    (w s read : Text)
    → IsPlain w
    → split_from (w ++ s) plain (some read) ≡ split_from s plain (some (read ++ w))
unfolding split_from
split_from-plain [] s read h = ap (λ r. split_from s plain (some r)) (sym (append-nil read))
split_from-plain (c ∷ w) s read (h, hs) =
    at_plain-plain c (some read) (split_from (w ++ s)) h
    ∙ split_from-plain w s (read ++ c ∷ []) hs
    ∙ ap (λ r. split_from s plain (some r)) (append_assoc read (c ∷ []) w)

-- The words of a line, taken apart.
split_from-words :
    (w : Text) (ws : List Text)
    → IsWord w
    → AreWords ws
    → split_from (join_words (codes " ") (w ∷ ws)) plain none ≡ done (w ∷ ws)
unfolding split_from join_words
split_from-words [] ws h hs = absurd h
split_from-words (c ∷ w) [] (h, hs) all =
    at_plain-plain c none (split_from w) h
    ∙ subst (λ t. split_from t plain (some (c ∷ [])) ≡ done ((c ∷ w) ∷ [])) (append-nil w)
        (split_from-plain w [] (c ∷ []) hs)
split_from-words (c ∷ w) (v ∷ ws) (h, hs) (hv, all) =
    let rest = join_words (codes " ") (v ∷ ws) in
    at_plain-plain c none (split_from (w ++ (codes " " ++ rest))) h
    ∙ split_from-plain w (codes " " ++ rest) (c ∷ []) hs
    ∙ at_plain-space (some (c ∷ w)) (split_from rest)
    ∙ ap (end_of (some (c ∷ w))) (split_from-words v ws hv all)

-- A text with commas, taken apart and put together.
pub parse_groups-same : (value : Text) → parse_groups value ≡ value
unfolding parse_groups
parse_groups-same value = join_words-split_at b',' value

abbrev mets_words : Option Text → List Text
mets_words none = []
mets_words (some path) = codes "-m" ∷ path ∷ []

-- The call of a processor, as it stands in a workflow.
abbrev pub call_words : Text → Option Text → Text → Text → List Text
call_words name mets_path inputs outputs =
    name ∷ (mets_words mets_path ++ codes "-I" ∷ inputs ∷ codes "-O" ∷ outputs ∷ [])

abbrev pub call_line : Text → Option Text → Text → Text → Text
unfolding join_words
call_line name mets_path inputs outputs =
    join_words (codes " ") (call_words name mets_path inputs outputs)

abbrev pub parsed_call : Text → Option Text → Text → Text → ProcessorCallArguments
parsed_call name mets_path inputs outputs = record {
  executable = codes "ocrd-" ++ name;
  workspace_dir = none;
  mets_file_path = mets_path;
  mets_socket_path = none;
  input_file_grps = some inputs;
  output_file_grps = some outputs;
  page_id = none;
  parameters = [];
}

abbrev pub IsWordOrNone : Option Text → Type 0
IsWordOrNone none = Unit {0}
IsWordOrNone (some word) = IsWord word

call_words-AreWords :
    (name inputs outputs : Text) (mets_path : Option Text)
    → IsWord name
    → IsWord inputs
    → IsWord outputs
    → IsWordOrNone mets_path
    → AreWords (mets_words mets_path ++ codes "-I" ∷ inputs ∷ codes "-O" ∷ outputs ∷ [])
unfolding nat_eq
call_words-AreWords name inputs outputs none n i o m = ground arith
call_words-AreWords name inputs outputs (some path) n i o m = ground arith

module _ (ocrd : Ocrd) where
  options_lem :
      (name inputs outputs : Text) (mets_path : Option Text)
      → parse_tokens ocrd
          (mets_words mets_path ++ codes "-I" ∷ inputs ∷ codes "-O" ∷ outputs ∷ [])
          (record (parsed_call name none inputs outputs) {
            input_file_grps = none;
            output_file_grps = none;
          })
        ≡ done (parsed_call name mets_path inputs outputs)
  unfolding parse_tokens parse_option text_eq
  options_lem name inputs outputs none =
      rw (parse_groups-same inputs, parse_groups-same outputs) refl
  options_lem name inputs outputs (some path) =
      rw (parse_groups-same inputs, parse_groups-same outputs) refl

  validated_lem :
      (name inputs outputs : Text) (mets_path : Option Text) (tool : ToolJson)
      → IsWord inputs
      → IsWord outputs
      → ocrd.ocrd_all_json (codes "ocrd-" ++ name) ≡ some tool
      → validated ocrd (parsed_call name mets_path inputs outputs)
        ≡ done (parsed_call name mets_path inputs outputs)
  unfolding self_validate
  validated_lem name [] outputs mets_path tool i o known = absurd i
  validated_lem name (c ∷ inputs) [] mets_path tool i o known = absurd o
  validated_lem name (c ∷ inputs) (d ∷ outputs) mets_path tool i o known =
      elim (Bool-cases tool.output_file_grp) [ inl t ↦ ground arith | inr t ↦ ground arith ]

  dump_lem :
      (name inputs outputs : Text) (mets_path : Option Text)
      → IsWordOrNone mets_path
      → dump_bash_form ocrd (parsed_call name mets_path inputs outputs)
        ≡ codes "ocrd-" ++ call_line name mets_path inputs outputs
  unfolding dump_bash_form join_words
  dump_lem name inputs outputs none m = rw (append-nil outputs) refl
  dump_lem name inputs outputs (some []) m = absurd m
  dump_lem name inputs outputs (some (c ∷ path)) m = rw (append-nil outputs) refl

  -- Where the processor has a tool description, and its name, groups and METS path (if there is
  -- one) are words that a shell takes as they are, the parser reads the line `name [-m mets_path]
  -- -I inputs -O outputs` as the call with exactly these arguments, and printing that call as a
  -- command gives the line back, with "ocrd-" in front.
  pub parse_arguments-dump :
      (name inputs outputs : Text) (mets_path : Option Text) (tool : ToolJson)
      → IsWord name
      → IsWord inputs
      → IsWord outputs
      → IsWordOrNone mets_path
      → ocrd.ocrd_all_json (codes "ocrd-" ++ name) ≡ some tool
      → (parse_arguments ocrd (call_line name mets_path inputs outputs)
          ≡ done (parsed_call name mets_path inputs outputs))
        × (dump_bash_form ocrd (parsed_call name mets_path inputs outputs)
            ≡ codes "ocrd-" ++ call_line name mets_path inputs outputs)
  unfolding parse_arguments shlex_split processor_call_arguments join_words
  parse_arguments-dump [] inputs outputs mets_path tool n i o m known = absurd n
  parse_arguments-dump (c ∷ name) inputs outputs mets_path tool n i o m known =
      let words =
        split_from-words (c ∷ name)
          (mets_words mets_path ++ codes "-I" ∷ inputs ∷ codes "-O" ∷ outputs ∷ []) n
          (call_words-AreWords (c ∷ name) inputs outputs mets_path n i o m) in
      (
        rw
            (
              words,
              parse_arguments,
              shlex_split,
              parse_words,
              options_lem (c ∷ name) inputs outputs mets_path,
            )
            (validated_lem (c ∷ name) inputs outputs mets_path tool i o known),
        dump_lem (c ∷ name) inputs outputs mets_path m,
      )
