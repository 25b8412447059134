-- ===== src/Oton/WorkflowBlock.antt =====
-- src/utils/operandi_utils/oton/nf_block_workflow.py
use operandi.Common.{
  Bool, Option, none, some, List, [], ◌∷◌, ◌++◌, if◌then◌else◌, Text, codes, joined,
}
use operandi.Oton.{spaces, params_key_forks, params_key_input_file_grp}
use operandi.Oton.Arguments.{shown}
use operandi.Oton.ProcessBlock.{NextflowBlockProcess}

pub record NextflowBlockWorkflow : Type 0 where
  pub with_mets_server : Bool
  pub workflow_name : Text
  pub workflow_calls : List Text

-- What a process is called with: the two outputs of an earlier one, `before`, its input groups as
-- the script names them, and its output groups.
abbrev pub call_of : Text → Text → NextflowBlockProcess → Text
call_of before inputs block = joined (
    block.nf_process_name
    ∷ codes "("
    ∷ before
    ∷ codes ".out[0], "
    ∷ before
    ∷ codes ".out[1], "
    ∷ inputs
    ∷ codes ", \""
    ∷ shown block.processor_call_arguments.output_file_grps
    ∷ codes "\")\n"
    ∷ [])

abbrev pub in_quotes : Text → Text
in_quotes t = codes "\"" ++ (t ++ codes "\"")

-- The call of a block after `previous_nfp`; the first one takes the outputs of the split.
unfoldable pub workflow_call : Text → Option Text → NextflowBlockProcess → Text
workflow_call split_name none block = call_of split_name params_key_input_file_grp block
workflow_call split_name (some previous_nfp) block =
    call_of previous_nfp (in_quotes (shown block.processor_call_arguments.input_file_grps)) block

-- The calls of the blocks, and the name of the last one.
unfoldable pub workflow_calls_from :
    Text → Option Text → List NextflowBlockProcess → List Text × Option Text
unfolding workflow_call
workflow_calls_from split_name previous_nfp [] = ([], previous_nfp)
workflow_calls_from split_name previous_nfp (block ∷ blocks) =
    let rest = workflow_calls_from split_name (some block.nf_process_name) blocks in
    (workflow_call split_name previous_nfp block ∷ rest.0, rest.1)

-- The call of the merge, after the process `previous_nfp`.
abbrev pub merge_call : Text → Option Text → Text
merge_call merge_name previous_nfp = joined (
    merge_name
    ∷ codes "("
    ∷ shown previous_nfp
    ∷ codes ".out[0], "
    ∷ shown previous_nfp
    ∷ codes ".out[1])\n"
    ∷ [])

abbrev pub multipliers_call : Text
multipliers_call = joined (
    codes "ch_range_multipliers = Channel.of(0.."
    ∷ params_key_forks
    ∷ codes ".intValue()-1)\n"
    ∷ [])

abbrev pub split_call : Text → Text
split_call split_name = split_name ++ codes "(ch_range_multipliers)\n"

unfoldable pub produce_workflow_calls :
    Bool → List NextflowBlockProcess → NextflowBlockProcess → NextflowBlockProcess → List Text
unfolding workflow_calls_from
produce_workflow_calls with_mets_server blocks split_block merge_block =
    let calls = workflow_calls_from split_block.nf_process_name none blocks in
    multipliers_call
    ∷ split_call split_block.nf_process_name
    ∷ (calls.0
        ++ (if with_mets_server then [] else merge_call merge_block.nf_process_name calls.1 ∷ []))

-- The constructor.
unfoldable pub nextflow_block_workflow :
    Text
    → List NextflowBlockProcess
    → NextflowBlockProcess
    → NextflowBlockProcess
    → Bool
    → NextflowBlockWorkflow
unfolding produce_workflow_calls
nextflow_block_workflow name blocks split_block merge_block mets = record {
  with_mets_server = mets;
  workflow_name = name;
  workflow_calls = produce_workflow_calls mets blocks split_block merge_block;
}

abbrev pub call_lines : List Text → Text
call_lines [] = codes "}"
call_lines (call ∷ calls) = joined (spaces ∷ spaces ∷ call ∷ call_lines calls ∷ [])

unfoldable pub workflow_representation : NextflowBlockWorkflow → Text
workflow_representation block = joined (
    codes "workflow {\n"
    ∷ spaces
    ∷ block.workflow_name
    ∷ codes ":\n"
    ∷ call_lines block.workflow_calls
    ∷ [])
