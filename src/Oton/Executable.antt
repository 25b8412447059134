-- ===== src/Oton/Executable.antt =====
-- src/utils/operandi_utils/oton/nf_file_executable.py: the processes and the workflow of a script.
use operandi.Common.{
  ℕ, Bool, true, false, List, [], ◌∷◌, ◌++◌, ◌+◌, if◌then◌else◌, Text, codes, Result, done, some,
  and_then, decimal, joined,
}
use operandi.Oton.{
  spaces, placeholder, const_dir_in, const_dir_out, const_page_range, const_mets_path,
  params_key_mets_path, params_key_workspace_dir, params_key_env_wrapper_cmd_core,
  params_key_env_wrapper_cmd_step, params_key_forks, params_key_cpus_per_fork,
  params_key_ram_per_fork,
}
use operandi.Oton.Arguments.{Ocrd, ProcessorCallArguments, processor_call_arguments}
use operandi.Oton.Parser.{set_key}
use operandi.Oton.ProcessBlock.{
  NextflowBlockProcess, nextflow_block_process, add_directive, add_parameter_input,
  add_parameter_output, triple_quotes,
}
use operandi.Oton.Parameters.{NextflowFileExecutable, is_apptainer, is_wrapped, null}

-- `cpus` and `memory`, in the environment that asks for them.
abbrev pub add_resources : Text → NextflowBlockProcess → Result NextflowBlockProcess
add_resources environment block =
    if is_apptainer environment
    then and_then (add_directive (codes "cpus") params_key_cpus_per_fork block)
        (add_directive (codes "memory") params_key_ram_per_fork)
    else done block

-- A process of the program's own, which has no command of a processor.
abbrev own_block : Ocrd → Text → Text → Bool → Result NextflowBlockProcess
own_block ocrd executable name with_mets_server =
    and_then (processor_call_arguments executable) (λ a.
      done (record (nextflow_block_process ocrd a 0 with_mets_server false) {
        nf_process_name = name;
        ocrd_command_bash = [];
        ocrd_command_bash_placeholders = [];
      }))

abbrev core_wrapper_of : Text → Text
core_wrapper_of environment =
    if is_wrapped environment then placeholder params_key_env_wrapper_cmd_core ++ codes " " else []

abbrev start_of_script : Text
start_of_script = joined (spaces ∷ spaces ∷ triple_quotes ∷ codes "\n" ∷ spaces ∷ spaces ∷ [])

abbrev end_of_script : Text
end_of_script = joined (spaces ∷ spaces ∷ triple_quotes ∷ codes "\n" ∷ [])

abbrev copy_of_chunk : Text → Bool → Text
copy_of_chunk environment true = joined (
    spaces
    ∷ spaces
    ∷ codes "mets_file_chunk=\\$(echo "
    ∷ placeholder params_key_mets_path
    ∷ codes ")\n"
    ∷ [])
copy_of_chunk environment false = joined (
    spaces
    ∷ spaces
    ∷ codes "mets_file_chunk=\\$(echo "
    ∷ placeholder params_key_workspace_dir
    ∷ codes "/mets_${range_multiplier}.xml)\n"
    ∷ spaces
    ∷ spaces
    ∷ codes "echo \"Mets file chunk path: \\$mets_file_chunk\"\n"
    ∷ spaces
    ∷ spaces
    ∷ codes "\\$("
    ∷ core_wrapper_of environment
    ∷ codes "cp -p "
    ∷ placeholder params_key_mets_path
    ∷ codes " \\$mets_file_chunk)\n"
    ∷ [])

unfoldable pub split_script : Text → Bool → Text
split_script environment with_mets_server = joined (
    start_of_script
    ∷ codes "current_range_pages=\\$("
    ∷ core_wrapper_of environment
    ∷ codes "ocrd workspace -d "
    ∷ placeholder params_key_workspace_dir
    ∷ codes " list-page -f comma-separated -D "
    ∷ placeholder params_key_forks
    ∷ codes " -C ${range_multiplier})\n"
    ∷ spaces
    ∷ spaces
    ∷ codes "echo \"Current range is: \\$current_range_pages\"\n"
    ∷ copy_of_chunk environment with_mets_server
    ∷ end_of_script
    ∷ [])

unfoldable pub merge_script : Text → Text
merge_script environment = joined (
    start_of_script
    ∷ core_wrapper_of environment
    ∷ codes "ocrd workspace -d "
    ∷ placeholder params_key_workspace_dir
    ∷ codes " merge --force --no-copy-files ${mets_file_chunk} --page-id ${page_range}\n"
    ∷ spaces
    ∷ spaces
    ∷ core_wrapper_of environment
    ∷ codes "rm ${mets_file_chunk}\n"
    ∷ end_of_script
    ∷ [])

module _ (ocrd : Ocrd) where
  unfoldable pub build_split_page_ranges_process : Text → Bool → Result NextflowBlockProcess
  unfolding processor_call_arguments nextflow_block_process add_directive add_parameter_input
      add_parameter_output split_script
  build_split_page_ranges_process environment with_mets_server =
      and_then
        (own_block ocrd (codes "split-page-ranges") (codes "split_page_ranges") with_mets_server)
        (λ a. and_then (add_directive (codes "debug") (codes "true") a) (λ b.
          and_then (add_directive (codes "maxForks") params_key_forks b) (λ c.
            and_then (add_resources environment c) (λ d.
              and_then (add_parameter_input (codes "range_multiplier") (codes "val") d) (λ e.
                and_then (add_parameter_output (codes "mets_file_chunk") (codes "env") e) (λ f.
                  and_then (add_parameter_output (codes "current_range_pages") (codes "env") f)
                    (λ block.
                      done
                        (record block { script = split_script environment with_mets_server }))))))))

  unfoldable pub build_merge_mets_process : Text → Bool → Result NextflowBlockProcess
  unfolding processor_call_arguments nextflow_block_process add_directive add_parameter_input
      merge_script
  build_merge_mets_process environment with_mets_server =
      and_then (own_block ocrd (codes "merging-mets") (codes "merging_mets") with_mets_server) (λ a.
        and_then (add_directive (codes "debug") (codes "true") a) (λ b.
          and_then (add_directive (codes "maxForks") (codes "1") b) (λ c.
            and_then (add_resources environment c) (λ d.
              and_then (add_parameter_input (codes "mets_file_chunk") (codes "val") d) (λ e.
                and_then (add_parameter_input (codes "page_range") (codes "val") e)
                  (λ block. done (record block { script = merge_script environment })))))))

  -- The block of one processor.
  unfoldable pub build_processor_block :
      Text → Bool → ProcessorCallArguments → ℕ → Result NextflowBlockProcess
  unfolding nextflow_block_process add_directive add_parameter_input add_parameter_output
  build_processor_block environment with_mets_server processor index =
      let start =
        nextflow_block_process ocrd processor index with_mets_server (is_wrapped environment) in
      and_then (add_directive (codes "debug") (codes "true") start) (λ a.
        and_then (add_directive (codes "maxForks") params_key_forks a) (λ b.
          and_then (add_resources environment b) (λ c.
            and_then (add_parameter_input const_mets_path (codes "val") c) (λ d.
              and_then (add_parameter_input const_page_range (codes "val") d) (λ e.
                and_then (add_parameter_input const_dir_in (codes "val") e) (λ f.
                  and_then (add_parameter_input const_dir_out (codes "val") f) (λ g.
                    and_then (add_parameter_output const_mets_path (codes "val") g)
                      (add_parameter_output const_page_range (codes "val")))))))))

  -- A block goes to the end of the list, and its parameter among the others.
  abbrev pub append_block :
      ℕ → NextflowBlockProcess → NextflowFileExecutable → NextflowFileExecutable
  append_block index block f = record f {
    nf_lines_parameters =
        set_key (params_key_env_wrapper_cmd_step ++ decimal index) null f.nf_lines_parameters;
    nf_blocks_process = f.nf_blocks_process ++ block ∷ [];
  }

  -- `for processor in ocrd_processors`, with the index of the first
  unfoldable pub build_blocks_from :
      Text
      → Bool
      → ℕ
      → List ProcessorCallArguments
      → NextflowFileExecutable
      → Result NextflowFileExecutable
  unfolding build_processor_block decimal
  build_blocks_from environment with_mets_server index [] f = done f
  build_blocks_from environment with_mets_server index (processor ∷ processors) f =
      and_then (build_processor_block environment with_mets_server processor index) (λ block.
        build_blocks_from environment with_mets_server (index + 1) processors
          (append_block index block f))

  unfoldable pub build_nextflow_processes :
      List ProcessorCallArguments
      → Text
      → Bool
      → NextflowFileExecutable
      → Result NextflowFileExecutable
  unfolding build_split_page_ranges_process build_merge_mets_process build_blocks_from
  build_nextflow_processes processors environment with_mets_server f =
      and_then (build_split_page_ranges_process environment with_mets_server) (λ split_block.
        and_then (build_merge_mets_process environment with_mets_server) (λ merge_block.
          build_blocks_from environment with_mets_server 0 processors (record f {
            nf_process_split_range = some split_block;
            nf_process_merging_mets = some merge_block;
          })))
