-- ===== src/Oton/Parser.antt =====
-- src/utils/operandi_utils/oton/ocrd_parser.py
use operandi.Common.{
  Bool, true, false, ◌&&◌, some, List, [], ◌∷◌, if◌then◌else◌, Text, codes, Result, done, raise,
  value_error, index_error, and_then, ◌==◌, text_eq, strip_by, is_space, ends_with, starts_with,
  lines_of, split_at, join_words, but_first, but_last, select, not,
}
use operandi.Oton.Arguments.{
  Ocrd, Parameters, ProcessorCallArguments, processor_call_arguments, self_validate,
}
use operandi.Oton.Shlex.{shlex_split}

-- The groups of an option, taken apart and put together again.
unfoldable pub parse_groups : Text → Text
unfolding split_at join_words
parse_groups value = join_words (codes ",") (split_at b',' value)

abbrev pub has_key : Text → Parameters → Bool
has_key k [] = false
has_key k ((j, v) ∷ ps) = if k == j then true else has_key k ps

abbrev pub set_key : Text → Text → Parameters → Parameters
set_key k v [] = (k, v) ∷ []
set_key k v ((j, w) ∷ ps) = if k == j then (j, v) ∷ ps else (j, w) ∷ set_key k v ps

-- `{**a, **b}`
unfoldable pub merge : Parameters → Parameters → Parameters
merge a [] = a
merge a ((k, v) ∷ b) = merge (set_key k v a) b

module _ (ocrd : Ocrd) where
  -- An option with its value.
  unfoldable pub parse_option : Text → Text → ProcessorCallArguments → Result ProcessorCallArguments
  unfolding parse_groups merge
  parse_option flag value a =
      if flag == codes "-I"
      then done (record a { input_file_grps = some (parse_groups value) })
      else if flag == codes "-O"
      then done (record a { output_file_grps = some (parse_groups value) })
      else if flag == codes "-p"
      then elim (ocrd.parse_json_string_or_file value) [
        | raise e ↦ raise e
        | done ps ↦ done (record a { parameters = merge a.parameters ps })
      ]
      else if flag == codes "-m"
      then done (record a { mets_file_path = some value })
      else raise value_error

  -- `-P`, with the next two tokens, or as many as there are.
  unfoldable pub parse_override : List Text → ProcessorCallArguments → Result ProcessorCallArguments
  parse_override pair a = elim (ocrd.set_json_key_value_overrides a.parameters pair) [
    | raise e ↦ raise e
    | done ps ↦ done (record a { parameters = ps })
  ]

  -- An option without a value: there is no second token.
  abbrev pub lone_option : Text → ProcessorCallArguments → Result ProcessorCallArguments
  lone_option flag a =
      if flag == codes "-P"
      then parse_override [] a
      else if flag == codes "-I"
      then raise index_error
      else if flag == codes "-O"
      then raise index_error
      else if flag == codes "-p"
      then raise index_error
      else if flag == codes "-m"
      then raise index_error
      else raise value_error

  -- `while tokens`
  unfoldable pub parse_tokens : List Text → ProcessorCallArguments → Result ProcessorCallArguments
  unfolding parse_option parse_override
  parse_tokens [] a = done a
  parse_tokens (flag ∷ []) a = lone_option flag a
  parse_tokens (flag ∷ value ∷ []) a = elim (flag == codes "-P") [
    | true ↦ parse_override (value ∷ []) a
    | false ↦ parse_option flag value a
  ]
  parse_tokens (flag ∷ value ∷ next ∷ tokens) a = elim (flag == codes "-P") [
    | true ↦ and_then (parse_override (value ∷ next ∷ []) a) (parse_tokens tokens)
    | false ↦ and_then (parse_option flag value a) (parse_tokens (next ∷ tokens))
  ]

  abbrev pub validated : ProcessorCallArguments → Result ProcessorCallArguments
  validated a = elim (self_validate ocrd a) [ raise e ↦ raise e | done _ ↦ done a ]

  abbrev pub parse_words : List Text → Result ProcessorCallArguments
  parse_words [] = raise index_error
  parse_words (executable ∷ tokens) =
      and_then (and_then (processor_call_arguments executable) (parse_tokens tokens)) validated

  unfoldable pub parse_arguments : Text → Result ProcessorCallArguments
  unfolding parse_tokens shlex_split processor_call_arguments
  parse_arguments processor_arguments = elim (shlex_split processor_arguments) [
    | raise e ↦ raise e
    | done tokens ↦ parse_words tokens
  ]

abbrev pub strip : Text → Text
strip = strip_by is_space

abbrev pub without_backslash : Text → Text
without_backslash s = if ends_with (codes "\\") s then strip (but_last s) else s

abbrev pub without_quotes : Text → Text
without_quotes s =
    if starts_with (codes "\"") s && ends_with (codes "\"") s then but_last (but_first s) else s

unfoldable pub purify_line : Text → Text
unfolding starts_with ends_with strip_by
purify_line line = without_quotes (without_backslash (strip line))

abbrev pub purified : List Text → List Text
purified [] = []
purified (line ∷ lines) = purify_line line ∷ purified lines

-- The first line of the file and the others, without the empty ones.
unfoldable pub read_from_file : Text → Result (Text × List Text)
unfolding purify_line select lines_of
read_from_file content = elim (select (λ line. not (line == [])) (purified (lines_of content))) [
  | [] ↦ raise index_error
  | ◌∷◌ command tasks ↦ done (command, tasks)
]
