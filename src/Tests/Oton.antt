-- ===== src/Tests/Oton.antt =====
-- src/utils/operandi_utils/oton: a workflow of two processors, and runs of the converter on it.
use operandi.Common.{
  true, false, some, none, List, [], ◌∷◌, Text, codes, done, ◌≡◌, refl, ◌↔◌, ◌==◌, contains, nat_eq,
  join_words, occurs, is_space, ◌++◌, arith, text_eq,
}
use operandi.Oton.Arguments.{Ocrd, ProcessorCallArguments, dump_bash_form, self_validate}
use operandi.Oton.Validator.{Files, validate, validate_file_path, validate_all_processors}
use operandi.Oton.Converter.{convert_oton, process_blocks, workflow_blocks}
use operandi.Oton.Accepted.{IsWorkflow, validate_all_processors_iff}
use operandi.Oton.Printed.{parsed_call, call_line, parse_arguments-dump}
use operandi.Oton.Converted.{
  calls_of, names_of, AreDistinct, convert_oton_iff, convert_oton-processes,
}
use operandi.Oton.Parameters.{NextflowFileExecutable, supported_environments}
use operandi.Server.Metadata.Reads.{metadata_of, with_rest}
use operandi.Server.Metadata.Processes.{AreReadable, executables_of}
use operandi.Server.Metadata.Converted.{converted_processes, converted_workflow}
use operandi.Server.Metadata.Workflows.{HaveGroups, outputs_of}
use operandi.Server.Metadata.{is_executable}
use operandi.Oton.Parser.{read_from_file, purify_line, parse_arguments}

abbrev tools : Ocrd
tools = record {
  ocrd_all_json = λ name.
      some (record { description = codes "{\"output_file_grp\": []}"; output_file_grp = true });
  json_dumps = λ ps. codes "{}";
  parse_json_string_or_file = λ t. done [];
  set_json_key_value_overrides = λ ps pair. done ps;
  validates = λ tool ps. done true;
}

abbrev two_steps : Text
two_steps =
    codes
      "ocrd process \\\n  \"cis-ocropy-binarize -I OCR-D-IMG -O OCR-D-BIN\" \\\n  \"tesserocr-recognize -I OCR-D-BIN -O OCR-D-OCR\"\n"

abbrev one_file : Files
one_file = record {
  exists = λ path. path == codes "wf.txt";
  isfile = λ path. true;
  content = λ path. two_steps;
}

abbrev wf_txt : Text
wf_txt = codes "wf.txt"

abbrev docker : Text
docker = codes "docker"

-- The steps of the workflow.
abbrev binarize : ProcessorCallArguments
binarize = parsed_call (codes "cis-ocropy-binarize") none (codes "OCR-D-IMG") (codes "OCR-D-BIN")

abbrev recognize : ProcessorCallArguments
recognize = parsed_call (codes "tesserocr-recognize") none (codes "OCR-D-BIN") (codes "OCR-D-OCR")

two_steps_valid : validate tools one_file wf_txt ≡ done (binarize ∷ recognize ∷ [])
unfolding validate validate_file_path read_from_file purify_line parse_arguments
    validate_all_processors text_eq nat_eq is_space self_validate
two_steps_valid = refl

docker_known : contains supported_environments docker ≡ true
unfolding text_eq
docker_known = refl

-- The first step reads a group that none before it writes: the validator asks nothing of it, but
-- it does of the others.
validate_all_processors_iff_example :
    (validate_all_processors tools (binarize ∷ recognize ∷ []) ≡ done tt)
    ↔ IsWorkflow tools (binarize ∷ recognize ∷ [])
validate_all_processors_iff_example = validate_all_processors_iff tools (binarize ∷ recognize ∷ [])

parse_arguments-dump_example :
    (parse_arguments tools
        (call_line (codes "tesserocr-recognize") none (codes "OCR-D-BIN") (codes "OCR-D-OCR"))
      ≡ done recognize)
    × (dump_bash_form tools recognize ≡ codes "ocrd-tesserocr-recognize -I OCR-D-BIN -O OCR-D-OCR")
unfolding nat_eq join_words
parse_arguments-dump_example =
    parse_arguments-dump tools (codes "tesserocr-recognize") (codes "OCR-D-BIN") (codes "OCR-D-OCR")
      none (record { description = codes "{\"output_file_grp\": []}"; output_file_grp = true })
      (ground arith) (ground arith) (ground arith) tt refl

convert_oton_iff_example :
    ((r : NextflowFileExecutable × Text) × (convert_oton tools one_file wf_txt docker true
        ≡ done r))
    ↔ (((ps : List ProcessorCallArguments) × (validate tools one_file wf_txt ≡ done ps))
        × (contains supported_environments docker ≡ true))
convert_oton_iff_example = convert_oton_iff tools one_file wf_txt docker true

-- The conversion of the two steps, in the docker environment.
abbrev converted :
    (r : NextflowFileExecutable × Text) × (convert_oton tools one_file wf_txt docker true ≡ done r)
converted =
    (convert_oton_iff tools one_file wf_txt docker true).1
      ((binarize ∷ recognize ∷ [], two_steps_valid), docker_known)

convert_oton-processes_example :
    (validate tools one_file wf_txt ≡ done (calls_of converted.0.0.nf_blocks_process))
    × AreDistinct (names_of converted.0.0.nf_blocks_process)
convert_oton-processes_example =
    convert_oton-processes tools one_file wf_txt docker true converted.0 converted.1

-- The metadata of the two processes, before the text `}`.
steps_readable : AreReadable tools (binarize ∷ recognize ∷ [])
unfolding nat_eq occurs
steps_readable = (
  (codes "cis-ocropy-binarize", (refl, (ground arith, ground arith, ground arith), tt, refl)),
  ((codes "tesserocr-recognize", (refl, (ground arith, ground arith, ground arith), tt, refl)), tt),
)

converted_processes_example :
    metadata_of (process_blocks converted.0.0.nf_blocks_process ++ codes "}\n")
    ≡ with_rest true (executables_of (binarize ∷ recognize ∷ [])) [] (metadata_of (codes "}\n"))
converted_processes_example =
    converted_processes tools one_file wf_txt docker true converted.0 (binarize ∷ recognize ∷ [])
      (codes "}\n") converted.1 two_steps_valid steps_readable

steps-HaveGroups : HaveGroups (binarize ∷ recognize ∷ [])
unfolding nat_eq occurs is_executable
steps-HaveGroups = (
  (
    (ground arith, ground arith, ground arith, refl),
    (ground arith, ground arith, ground arith, refl),
  ),
  (
    (
      (ground arith, ground arith, ground arith, refl),
      (ground arith, ground arith, ground arith, refl),
    ),
    tt,
  ),
)

converted_workflow_example :
    metadata_of (workflow_blocks converted.0.0.nf_blocks_workflow ++ codes "\n")
    ≡ with_rest false [] (outputs_of (binarize ∷ recognize ∷ [])) (metadata_of (codes "\n"))
converted_workflow_example =
    converted_workflow tools one_file wf_txt docker true converted.0 (binarize ∷ recognize ∷ [])
      (codes "\n") converted.1 two_steps_valid steps_readable steps-HaveGroups
