-- ===== src/Oton/ProcessBlock.antt =====
-- src/utils/operandi_utils/oton/nf_block_process.py
use operandi.Common.{
  ℕ, Bool, [], ◌∷◌, ◌++◌, if◌then◌else◌, Text, codes, Result, done, raise, value_error, decimal,
  replace_char, joined,
}
use operandi.Oton.{spaces, params_key_env_wrapper_cmd_step, placeholder}
use operandi.Oton.Arguments.{
  Ocrd, Parameters, ProcessorCallArguments, dump_bash_form, dump_bash_form_with_phs,
}
use operandi.Oton.Parser.{has_key}

-- The directives and the parameters are dictionaries, in the order of their entries.
pub record NextflowBlockProcess : Type 0 where
  pub index_pos : Text
  pub processor_call_arguments : ProcessorCallArguments
  pub env_wrapper : Bool
  pub nf_process_name : Text
  pub directives : Parameters
  pub input_params : Parameters
  pub output_params : Parameters
  pub script : Text
  pub ocrd_command_bash : Text
  pub ocrd_command_bash_placeholders : Text

unfoldable pub process_name : Text → ℕ → Text
unfolding replace_char decimal
process_name executable index_pos =
    replace_char b'-' b'_' executable ++ (codes "_" ++ decimal index_pos)

-- The constructor.
unfoldable pub nextflow_block_process :
    Ocrd → ProcessorCallArguments → ℕ → Bool → Bool → NextflowBlockProcess
unfolding process_name dump_bash_form dump_bash_form_with_phs decimal
nextflow_block_process ocrd a index with_mets_server wrapped = record {
  index_pos = decimal index;
  processor_call_arguments = a;
  env_wrapper = wrapped;
  nf_process_name = process_name a.executable index;
  directives = [];
  input_params = [];
  output_params = [];
  script = [];
  ocrd_command_bash = dump_bash_form ocrd a;
  ocrd_command_bash_placeholders = dump_bash_form_with_phs ocrd with_mets_server a;
}

-- A new entry at the end of a dictionary.
abbrev pub add_entry : Text → Text → Parameters → Parameters
add_entry k v entries = entries ++ (k, v) ∷ []

unfoldable pub add_directive : Text → Text → NextflowBlockProcess → Result NextflowBlockProcess
add_directive directive value block =
    if has_key directive block.directives
    then raise value_error
    else done (record block { directives = add_entry directive value block.directives })

unfoldable pub add_parameter_input :
    Text → Text → NextflowBlockProcess → Result NextflowBlockProcess
add_parameter_input parameter parameter_type block =
    if has_key parameter block.input_params
    then raise value_error
    else done
        (record block { input_params = add_entry parameter parameter_type block.input_params })

unfoldable pub add_parameter_output :
    Text → Text → NextflowBlockProcess → Result NextflowBlockProcess
add_parameter_output parameter parameter_type block =
    if has_key parameter block.output_params
    then raise value_error
    else done
        (record block { output_params = add_entry parameter parameter_type block.output_params })

abbrev pub directive_lines : Parameters → Text
directive_lines [] = codes "\n"
directive_lines ((key, value) ∷ entries) =
    joined (spaces ∷ key ∷ codes " " ∷ value ∷ codes "\n" ∷ directive_lines entries ∷ [])

abbrev pub parameter_lines : Parameters → Text
parameter_lines [] = codes "\n"
parameter_lines ((key, value) ∷ entries) =
    joined (spaces ∷ spaces ∷ value ∷ codes " " ∷ key ∷ codes "\n" ∷ parameter_lines entries ∷ [])

unfoldable pub dump_directives : NextflowBlockProcess → Text
dump_directives block = directive_lines block.directives

unfoldable pub dump_parameters_input : NextflowBlockProcess → Text
dump_parameters_input block = parameter_lines block.input_params

unfoldable pub dump_parameters_output : NextflowBlockProcess → Text
dump_parameters_output block = parameter_lines block.output_params

-- Three double quotes.
abbrev pub triple_quotes : Text
triple_quotes = codes "\"\"\""

unfoldable pub dump_script : Bool → NextflowBlockProcess → Text
dump_script local_script block =
    if local_script
    then block.script
    else joined (
        spaces
        ∷ spaces
        ∷ triple_quotes
        ∷ codes "\n"
        ∷ spaces
        ∷ spaces
        ∷ (if block.env_wrapper
            then placeholder (params_key_env_wrapper_cmd_step ++ block.index_pos) ++ codes " "
            else [])
        ∷ block.ocrd_command_bash_placeholders
        ∷ codes "\n"
        ∷ spaces
        ∷ spaces
        ∷ triple_quotes
        ∷ codes "\n"
        ∷ [])

abbrev pub output_part : Parameters → Text
output_part [] = []
output_part (entry ∷ entries) =
    joined (spaces ∷ codes "output:\n" ∷ parameter_lines (entry ∷ entries) ∷ [])

unfoldable pub process_representation : Bool → NextflowBlockProcess → Text
unfolding dump_directives dump_parameters_input dump_parameters_output dump_script
process_representation local_script block = joined (
    codes "process "
    ∷ block.nf_process_name
    ∷ codes " {\n"
    ∷ dump_directives block
    ∷ spaces
    ∷ codes "input:\n"
    ∷ dump_parameters_input block
    ∷ output_part block.output_params
    ∷ spaces
    ∷ codes "script:\n"
    ∷ dump_script local_script block
    ∷ codes "}\n"
    ∷ [])
