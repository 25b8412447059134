-- ===== src/Oton/Converter.antt =====
-- src/utils/operandi_utils/oton/nf_file_executable.py, the text of a script, and oton_converter.py
-- and cli.py, the conversion.
use operandi.Common.{
  ℕ, ◌⊎◌, inl, inr, Bool, true, false, not, Option, none, some, List, [], ◌∷◌, ◌++◌, if◌then◌else◌,
  Text, codes, Result, done, raise, index_error, Exc, and_then, contains, text_eq, joined,
}
use operandi.Oton.{spaces, placeholder, params_key_input_file_grp, workflow_comment}
use operandi.Oton.Arguments.{Ocrd, Parameters, shown}
use operandi.Oton.Parser.{set_key}
use operandi.Oton.Validator.{Files, validate}
use operandi.Oton.ProcessBlock.{NextflowBlockProcess, triple_quotes, process_representation}
use operandi.Oton.WorkflowBlock.{
  NextflowBlockWorkflow, nextflow_block_workflow, workflow_representation, in_quotes,
}
use operandi.Oton.Parameters.{
  NextflowFileExecutable, nextflow_file_executable, supported_environments, build_parameters,
}
use operandi.Oton.Executable.{build_nextflow_processes}

-- The parts of a list of blocks that the script needs; a block that was not built has no name.
abbrev pub required {ℓ} : {A : Type ℓ} → Option A → Result A
required none = raise Exc.other
required (some a) = done a

unfoldable pub build_main_workflow : Bool → NextflowFileExecutable → Result NextflowFileExecutable
unfolding nextflow_block_workflow
build_main_workflow with_mets_server f = elim f.nf_blocks_process [
  | [] ↦ raise index_error
  | ◌∷◌ first blocks ↦ and_then (required f.nf_process_split_range) (λ split_block.
      and_then (required f.nf_process_merging_mets) (λ merge_block. done (record f {
        nf_lines_parameters =
            set_key params_key_input_file_grp
              (in_quotes (shown first.processor_call_arguments.input_file_grps))
              f.nf_lines_parameters;
        nf_blocks_workflow =
            f.nf_blocks_workflow
            ++ nextflow_block_workflow (codes "main") (first ∷ blocks) split_block merge_block
                with_mets_server
              ∷ [];
      })))
]

-- `key[len("params."):]`
abbrev pub without_prefix : Text → Text
without_prefix (a ∷ b ∷ c ∷ d ∷ e ∷ f ∷ g ∷ key) = key
without_prefix key = []

abbrev pub log_lines : Parameters → Text
log_lines [] = []
log_lines ((key, value) ∷ entries) = joined (
    spaces
    ∷ without_prefix key
    ∷ codes ": "
    ∷ placeholder key
    ∷ codes "\n"
    ∷ log_lines entries
    ∷ [])

unfoldable pub build_log_info_prints : Parameters → Text
build_log_info_prints entries = joined (
    codes "log.info "
    ∷ triple_quotes
    ∷ codes "\\\n"
    ∷ spaces
    ∷ codes "OPERANDI HPC - Nextflow Workflow\n"
    ∷ spaces
    ∷ codes "===================================================\n"
    ∷ log_lines entries
    ∷ spaces
    ∷ triple_quotes
    ∷ codes ".stripIndent()\n"
    ∷ [])

abbrev pub parameter_settings : Parameters → Text
parameter_settings [] = []
parameter_settings ((key, value) ∷ entries) =
    joined (key ∷ codes " = " ∷ value ∷ codes "\n" ∷ parameter_settings entries ∷ [])

abbrev pub process_blocks : List NextflowBlockProcess → Text
process_blocks [] = []
process_blocks (block ∷ blocks) =
    joined (process_representation false block ∷ codes "\n" ∷ process_blocks blocks ∷ [])

abbrev pub workflow_blocks : List NextflowBlockWorkflow → Text
workflow_blocks [] = []
workflow_blocks (block ∷ blocks) =
    joined (workflow_representation block ∷ codes "\n" ∷ workflow_blocks blocks ∷ [])

-- The content of the file that is written.
unfoldable pub produce_nextflow_file : Bool → NextflowFileExecutable → Result Text
unfolding build_log_info_prints process_representation workflow_representation
produce_nextflow_file with_mets_server f =
    and_then (required f.nf_process_split_range) (λ split_block.
      and_then (required f.nf_process_merging_mets) (λ merge_block. done (
        joined (
          workflow_comment
          ∷ codes "\n"
          ∷ codes "nextflow.enable.dsl = 2\n"
          ∷ codes "\n"
          ∷ parameter_settings f.nf_lines_parameters
          ∷ codes "\n"
          ∷ build_log_info_prints f.nf_lines_parameters
          ∷ codes "\n"
          ∷ process_representation true split_block
          ∷ codes "\n"
          ∷ process_blocks f.nf_blocks_process
          ∷ (if with_mets_server then [] else process_representation true merge_block ++ codes "\n")
          ∷ workflow_blocks f.nf_blocks_workflow
          ∷ []))))

module _ (ocrd : Ocrd) (files : Files) where
  -- The object that is built for a file, in an environment, and the text that is written.
  unfoldable pub convert_oton : Text → Text → Bool → Result (NextflowFileExecutable × Text)
  unfolding validate build_parameters build_nextflow_processes build_main_workflow
      produce_nextflow_file
  convert_oton input_path environment with_mets_server =
      and_then (validate ocrd files input_path) (λ processors.
        and_then (build_parameters environment with_mets_server nextflow_file_executable) (λ a.
          and_then (build_nextflow_processes ocrd processors environment with_mets_server a) (λ b.
            and_then (build_main_workflow with_mets_server b)
              (λ f. and_then (produce_nextflow_file with_mets_server f) (λ text. done (f, text))))))

  -- The command `convert`: the text that is written, or the exit code where it knows no such
  -- environment.
  unfoldable pub convert : Text → Text → Bool → Result (ℕ ⊎ Text)
  unfolding convert_oton
  convert input_path environment with_mets_server =
      if not (contains supported_environments environment)
      then done (inl 1)
      else and_then (convert_oton input_path environment with_mets_server)
          (λ made. done (inr made.1))
