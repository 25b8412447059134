-- ===== src/Oton/Validator.antt =====
-- src/utils/operandi_utils/oton/ocrd_validator.py
use operandi.Common.{
  Bool, true, false, not, ◌||◌, Option, none, some, List, [], ◌∷◌, ◌++◌, if◌then◌else◌, Text, codes,
  Result, done, raise, value_error, index_error, Exc, and_then, ◌==◌, text_eq, contains, occurs,
  split_at,
}
use operandi.Oton.Arguments.{Ocrd, ProcessorCallArguments}
use operandi.Oton.Parser.{read_from_file, parse_arguments}

-- The files of the machine.
pub record Files : Type 0 where
  pub exists : Text → Bool
  pub isfile : Text → Bool
  pub content : Text → Text

unfoldable pub validate_file_path : Files → Text → Result (Unit {0})
validate_file_path files filepath =
    if not (files.exists filepath)
    then raise value_error
    else if not (files.isfile filepath)
    then raise value_error
    else done tt

unfoldable pub validate_ocrd_process_command : Text → Result Bool
validate_ocrd_process_command line =
    if not (line == codes "ocrd process") then raise value_error else done true

-- Whether an input file group may be read after processors with the output groups `previous`.
unfoldable pub group_allowed : List Text → Text → Bool
unfolding occurs
group_allowed previous g =
    contains previous g || occurs (codes "GT") g || occurs (codes "OCR-D-OCR") g

abbrev pub check_groups : List Text → List Text → Result (Unit {0})
check_groups previous [] = done tt
check_groups previous (g ∷ gs) = elim (group_allowed previous g) [
  | true ↦ check_groups previous gs
  | false ↦ raise value_error
]

-- `groups.split(',')`, an `AttributeError` where there are none.
unfoldable pub groups_of : Option Text → Result (List Text)
unfolding split_at
groups_of none = raise Exc.other
groups_of (some value) = done (split_at b',' value)

module _ (ocrd : Ocrd) where
  -- The parameters are put back after the validation, so only its verdict counts.
  unfoldable pub validate_processor_params : ProcessorCallArguments → Result (Unit {0})
  validate_processor_params a =
      and_then (ocrd.validates (ocrd.ocrd_all_json a.executable) a.parameters)
        (λ valid. if valid then done tt else raise value_error)

  -- `for processor in processors[1:]`, after processors with the output groups `previous`
  unfoldable pub validate_next_processors :
      List Text → List ProcessorCallArguments → Result (Unit {0})
  unfolding validate_processor_params groups_of group_allowed
  validate_next_processors previous [] = done tt
  validate_next_processors previous (p ∷ ps) = and_then (validate_processor_params p) (λ _.
      and_then (groups_of p.input_file_grps) (λ inputs.
        and_then (check_groups previous inputs) (λ _.
          and_then (groups_of p.output_file_grps)
            (λ outputs. validate_next_processors (previous ++ outputs) ps))))

  unfoldable pub validate_all_processors : List ProcessorCallArguments → Result (Unit {0})
  unfolding validate_next_processors validate_processor_params groups_of
  validate_all_processors [] = raise index_error
  validate_all_processors (p ∷ ps) = and_then (validate_processor_params p) (λ _.
      and_then (groups_of p.output_file_grps) (λ outputs. validate_next_processors outputs ps))

  unfoldable pub parse_all : List Text → Result (List ProcessorCallArguments)
  unfolding parse_arguments
  parse_all [] = done []
  parse_all (task ∷ tasks) =
      and_then (parse_arguments ocrd task)
        (λ a. and_then (parse_all tasks) (λ others. done (a ∷ others)))

  unfoldable pub validate : Files → Text → Result (List ProcessorCallArguments)
  unfolding validate_file_path read_from_file validate_ocrd_process_command parse_all
      validate_all_processors
  validate files input_file = and_then (validate_file_path files input_file) (λ _.
      and_then (read_from_file (files.content input_file)) (λ read.
        and_then (validate_ocrd_process_command read.0) (λ _.
          and_then (parse_all read.1)
            (λ processors. and_then (validate_all_processors processors) (λ _. done processors)))))
