-- ===== src/Oton/Built.antt =====
-- src/utils/operandi_utils/oton: what the converter builds for a workflow.
use operandi.Common.{
  ℕ, Bool, false, List, [], ◌∷◌, ◌++◌, ◌+◌, if◌then◌else◌, Text, codes, done, none, some,
  Bool-cases, text_eq, ◌≡◌, refl, sym, ap, ◌∙◌, inl, inr, append_assoc, append-nil,
}
use operandi.Oton.{
  params_key_forks, params_key_cpus_per_fork, params_key_ram_per_fork, const_dir_in, const_dir_out,
  const_page_range, const_mets_path,
}
use operandi.Oton.Arguments.{Ocrd, Parameters, ProcessorCallArguments, processor_call_arguments}
use operandi.Oton.ProcessBlock.{
  NextflowBlockProcess, nextflow_block_process, add_directive, add_parameter_input,
  add_parameter_output,
}
use operandi.Oton.Parameters.{NextflowFileExecutable, is_apptainer, is_wrapped}
use operandi.Oton.Executable.{
  build_processor_block, append_block, build_blocks_from, build_split_page_ranges_process,
  build_merge_mets_process, split_script, merge_script, build_nextflow_processes,
}

-- The directives of a process.
abbrev pub directives_of : Text → Bool → Parameters
directives_of forks apptainer =
    (codes "debug", codes "true")
    ∷ (codes "maxForks", forks)
    ∷ (if apptainer
        then (codes "cpus", params_key_cpus_per_fork)
          ∷ (codes "memory", params_key_ram_per_fork)
          ∷ []
        else [])

-- A call with no arguments.
abbrev pub bare_call : Text → ProcessorCallArguments
bare_call executable = record {
  executable = codes "ocrd-" ++ executable;
  workspace_dir = none;
  mets_file_path = none;
  mets_socket_path = none;
  input_file_grps = none;
  output_file_grps = none;
  page_id = none;
  parameters = [];
}

module _ (ocrd : Ocrd) (environment : Text) (mets : Bool) where
  -- The block that a processor gets.
  abbrev pub made_block : ProcessorCallArguments → ℕ → NextflowBlockProcess
  made_block p index = record (nextflow_block_process ocrd p index mets (is_wrapped environment)) {
    directives = directives_of params_key_forks (is_apptainer environment);
    input_params =
        (const_mets_path, codes "val")
        ∷ (const_page_range, codes "val")
        ∷ (const_dir_in, codes "val")
        ∷ (const_dir_out, codes "val")
        ∷ [];
    output_params = (const_mets_path, codes "val") ∷ (const_page_range, codes "val") ∷ [];
  }

  build_processor_block_lem :
      (p : ProcessorCallArguments) (index : ℕ)
      → build_processor_block ocrd environment mets p index ≡ done (made_block p index)
  unfolding build_processor_block add_directive add_parameter_input add_parameter_output
      nextflow_block_process text_eq
  build_processor_block_lem p index = elim (Bool-cases (is_apptainer environment)) [
    | inl there ↦ rw there refl
    | inr other ↦ rw other refl
  ]

  -- The blocks of the processors, the first one of which has this index.
  unfoldable pub made_blocks : ℕ → List ProcessorCallArguments → List NextflowBlockProcess
  made_blocks index [] = []
  made_blocks index (p ∷ ps) = made_block p index ∷ made_blocks (index + 1) ps

  -- The object with these parameters, and with the blocks of processors after its own.
  abbrev with_blocks :
      NextflowFileExecutable → Parameters → List NextflowBlockProcess → NextflowFileExecutable
  with_blocks f entries blocks = record f {
    nf_lines_parameters = entries;
    nf_blocks_process = blocks;
  }

  build_blocks_from_lem :
      (index : ℕ) (ps : List ProcessorCallArguments) (f : NextflowFileExecutable)
      → (entries : Parameters) × (build_blocks_from ocrd environment mets index ps f
          ≡ done (with_blocks f entries (f.nf_blocks_process ++ made_blocks index ps)))
  unfolding build_blocks_from made_blocks
  build_blocks_from_lem index [] f = (
    f.nf_lines_parameters,
    ap (λ bs. done (with_blocks f f.nf_lines_parameters bs)) (sym (append-nil f.nf_blocks_process)),
  )
  build_blocks_from_lem index (p ∷ ps) f =
      let block = made_block p index in
      let (entries, built) =
        build_blocks_from_lem (index + 1) ps (append_block ocrd index block f) in
      (
        entries,
        rw (build_processor_block_lem p index) (
            built
            ∙ ap (λ bs. done (with_blocks f entries bs))
                (append_assoc f.nf_blocks_process (block ∷ []) (made_blocks (index + 1) ps))),
      )

  -- A block of the program's own, with the script of its process.
  abbrev pub made_own :
      Text → Text → Parameters → Parameters → Parameters → Text → NextflowBlockProcess
  made_own executable name directives inputs outputs script =
      record (nextflow_block_process ocrd (bare_call executable) 0 mets false) {
        nf_process_name = name;
        ocrd_command_bash = [];
        ocrd_command_bash_placeholders = [];
        directives = directives;
        input_params = inputs;
        output_params = outputs;
        script = script;
      }

  abbrev pub made_split : NextflowBlockProcess
  made_split =
      made_own (codes "split-page-ranges") (codes "split_page_ranges")
        (directives_of params_key_forks (is_apptainer environment))
        ((codes "range_multiplier", codes "val") ∷ [])
        ((codes "mets_file_chunk", codes "env") ∷ (codes "current_range_pages", codes "env") ∷ [])
        (split_script environment mets)

  abbrev pub made_merge : NextflowBlockProcess
  made_merge =
      made_own (codes "merging-mets") (codes "merging_mets")
        (directives_of (codes "1") (is_apptainer environment))
        ((codes "mets_file_chunk", codes "val") ∷ (codes "page_range", codes "val") ∷ []) []
        (merge_script environment)

  build_split_lem : build_split_page_ranges_process ocrd environment mets ≡ done made_split
  unfolding build_split_page_ranges_process processor_call_arguments nextflow_block_process
      add_directive add_parameter_input add_parameter_output text_eq
  build_split_lem = elim (Bool-cases (is_apptainer environment)) [
    | inl there ↦ rw there refl
    | inr other ↦ rw other refl
  ]

  build_merge_lem : build_merge_mets_process ocrd environment mets ≡ done made_merge
  unfolding build_merge_mets_process processor_call_arguments nextflow_block_process add_directive
      add_parameter_input text_eq
  build_merge_lem = elim (Bool-cases (is_apptainer environment)) [
    | inl there ↦ rw there refl
    | inr other ↦ rw other refl
  ]

  -- The object with every block of the processors.
  pub build_nextflow_processes_lem :
      (ps : List ProcessorCallArguments) (f : NextflowFileExecutable)
      → (entries : Parameters) × (build_nextflow_processes ocrd ps environment mets f
          ≡ done (record f {
            nf_lines_parameters = entries;
            nf_blocks_process = f.nf_blocks_process ++ made_blocks 0 ps;
            nf_process_split_range = some made_split;
            nf_process_merging_mets = some made_merge;
          }))
  unfolding build_nextflow_processes
  build_nextflow_processes_lem ps f =
      rw (build_split_lem, build_merge_lem)
        (build_blocks_from_lem 0 ps (record f {
          nf_process_split_range = some made_split;
          nf_process_merging_mets = some made_merge;
        }))
