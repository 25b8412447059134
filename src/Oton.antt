-- ===== src/Oton.antt =====
-- src/utils/operandi_utils/oton: OCR-D workflows, translated into Nextflow scripts. A script is a
-- text, its code points. The constants are those of constants.py.
pub mod Arguments
pub mod Shlex
pub mod Parser
pub mod Validator
pub mod ProcessBlock
pub mod WorkflowBlock
pub mod Parameters
pub mod Executable
pub mod Converter
pub mod Accepted
pub mod Printed
pub mod Names
pub mod Built
pub mod Converted
use operandi.Common.{Text, codes, ◌++◌, ◌∷◌, [], List, ℕ}

abbrev pub spaces : Text
spaces = codes "    "

abbrev pub const_dir_in : Text
const_dir_in = codes "input_group"

abbrev pub const_dir_out : Text
const_dir_out = codes "output_group"

abbrev pub const_page_range : Text
const_page_range = codes "page_range"

abbrev pub const_mets_path : Text
const_mets_path = codes "mets_path"

abbrev pub params_key_env_wrapper_cmd_core : Text
params_key_env_wrapper_cmd_core = codes "params.env_wrapper_cmd_core"

abbrev pub params_key_env_wrapper_cmd_step : Text
params_key_env_wrapper_cmd_step = codes "params.env_wrapper_cmd_step"

abbrev pub params_key_input_file_grp : Text
params_key_input_file_grp = codes "params.input_file_group"

abbrev pub params_key_mets_path : Text
params_key_mets_path = codes "params.mets_path"

abbrev pub params_key_mets_socket_path : Text
params_key_mets_socket_path = codes "params.mets_socket_path"

abbrev pub params_key_workspace_dir : Text
params_key_workspace_dir = codes "params.workspace_dir"

abbrev pub params_key_pages : Text
params_key_pages = codes "params.pages"

abbrev pub params_key_cpus : Text
params_key_cpus = codes "params.cpus"

abbrev pub params_key_ram : Text
params_key_ram = codes "params.ram"

abbrev pub params_key_forks : Text
params_key_forks = codes "params.forks"

abbrev pub params_key_cpus_per_fork : Text
params_key_cpus_per_fork = codes "params.cpus_per_fork"

abbrev pub params_key_ram_per_fork : Text
params_key_ram_per_fork = codes "params.ram_per_fork"

abbrev pub workflow_comment : Text
workflow_comment =
    codes "// This workflow was automatically generated by the operandi_utils.oton module"

-- `${name}` in a script.
abbrev pub placeholder : Text → Text
placeholder name = codes "${" ++ (name ++ codes "}")
