-- ===== src/Oton/Parameters.antt =====
-- src/utils/operandi_utils/oton/nf_file_executable.py: the environments, the parameters of a
-- script, and the object that keeps what is built.
use operandi.Common.{
  Bool, true, false, ◌||◌, List, [], ◌∷◌, ◌++◌, if◌then◌else◌, Text, codes, Result, done, raise,
  value_error, Option, none, contains, ◌==◌, text_eq, joined,
}
use operandi.Oton.{
  params_key_input_file_grp, params_key_mets_path, params_key_workspace_dir,
  params_key_env_wrapper_cmd_core, params_key_forks, params_key_pages, params_key_cpus,
  params_key_cpus_per_fork, params_key_ram, params_key_ram_per_fork, params_key_mets_socket_path,
}
use operandi.Oton.Arguments.{Parameters}
use operandi.Oton.Parser.{set_key}
use operandi.Oton.ProcessBlock.{NextflowBlockProcess}
use operandi.Oton.WorkflowBlock.{NextflowBlockWorkflow}

pub record NextflowFileExecutable : Type 0 where
  pub nf_lines_parameters : Parameters
  pub nf_process_split_range : Option NextflowBlockProcess
  pub nf_process_merging_mets : Option NextflowBlockProcess
  pub nf_blocks_process : List NextflowBlockProcess
  pub nf_blocks_workflow : List NextflowBlockWorkflow

-- The constructor.
abbrev pub nextflow_file_executable : NextflowFileExecutable
nextflow_file_executable = record {
  nf_lines_parameters = [];
  nf_process_split_range = none;
  nf_process_merging_mets = none;
  nf_blocks_process = [];
  nf_blocks_workflow = [];
}

abbrev pub supported_environments : List Text
supported_environments = codes "local" ∷ codes "docker" ∷ codes "apptainer" ∷ []

abbrev pub is_apptainer : Text → Bool
is_apptainer environment = environment == codes "apptainer"

abbrev pub is_wrapped : Text → Bool
is_wrapped environment = is_apptainer environment || environment == codes "docker"

abbrev pub null : Text
null = codes "\"null\""

abbrev pub set_all : Parameters → Parameters → Parameters
set_all [] entries = entries
set_all ((k, v) ∷ more) entries = set_all more (set_key k v entries)

abbrev base_parameters : Parameters
base_parameters =
    (params_key_input_file_grp, null)
    ∷ (params_key_mets_path, null)
    ∷ (params_key_workspace_dir, null)
    ∷ (params_key_pages, null)
    ∷ []

abbrev mets_parameters : Bool → Parameters
mets_parameters true = (params_key_mets_socket_path, null) ∷ []
mets_parameters false = []

abbrev four_forks : Parameters
four_forks = (params_key_forks, codes "\"4\"") ∷ []

abbrev core_wrapper : Parameters
core_wrapper = (params_key_env_wrapper_cmd_core, null) ∷ []

-- `(key.toInteger() / params.forks.toInteger()).intValue()`
abbrev per_fork : Text → Text
per_fork key = joined (
    codes "("
    ∷ key
    ∷ codes ".toInteger() / "
    ∷ params_key_forks
    ∷ codes ".toInteger()).intValue()"
    ∷ [])

abbrev apptainer_parameters : Parameters
apptainer_parameters =
    (params_key_cpus, null)
    ∷ (params_key_ram, null)
    ∷ (params_key_forks, params_key_cpus)
    ∷ (params_key_cpus_per_fork, per_fork params_key_cpus)
    ∷ (
      params_key_ram_per_fork,
      joined (codes "sprintf(\"%dGB\", " ∷ per_fork params_key_ram ∷ codes ")" ∷ []),
    )
    ∷ core_wrapper

abbrev environment_parameters : Text → Parameters
environment_parameters environment =
    (if environment == codes "local" then four_forks else [])
    ++ ((if environment == codes "docker" then four_forks ++ core_wrapper else [])
        ++ (if is_apptainer environment then apptainer_parameters else []))

unfoldable pub build_parameters :
    Text → Bool → NextflowFileExecutable → Result NextflowFileExecutable
build_parameters environment with_mets_server f =
    if contains supported_environments environment
    then done (record f {
      nf_lines_parameters =
          set_all
            (base_parameters
              ++ (mets_parameters with_mets_server ++ environment_parameters environment))
            f.nf_lines_parameters;
    })
    else raise value_error
