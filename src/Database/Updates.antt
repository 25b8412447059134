-- ===== src/Database/Updates.antt =====
-- The keyword arguments of the `db_update_*` functions: a case for each field that the function
-- sets, one for a key that is no field of the model, and one for a field that it does not set.
use operandi.Common.{ℕ, String, Bool, Option, List}
use operandi.Constants.{AccountType, StateWorkspace}
use operandi.Constants.Job.{StateJob}
use operandi.Constants.Slurm.{StateJobSlurm}

pub data JobUpdate : Type 0 where
  job_id job_dir workflow_id workspace_id : String → JobUpdate
  job_state : StateJob → JobUpdate
  workflow_dir workspace_dir hpc_slurm_job_id details : Option String → JobUpdate
  deleted : Bool → JobUpdate
  not_available not_updatable : String → JobUpdate

pub data SlurmJobUpdate : Type 0 where
  workflow_job_id hpc_slurm_job_id : String → SlurmJobUpdate
  hpc_slurm_job_state : StateJobSlurm → SlurmJobUpdate
  hpc_batch_script_path hpc_slurm_workspace_path details : Option String → SlurmJobUpdate
  deleted : Bool → SlurmJobUpdate
  not_available not_updatable : String → SlurmJobUpdate

pub data WorkspaceUpdate : Type 0 where
  workspace_id workspace_dir workspace_mets_path : String → WorkspaceUpdate
  pages_amount : ℕ → WorkspaceUpdate
  file_groups : List String → WorkspaceUpdate
  state : StateWorkspace → WorkspaceUpdate
  ocrd_identifier bagit_profile_identifier ocrd_base_version_checksum :
      Option String → WorkspaceUpdate
  mets_basename details : Option String → WorkspaceUpdate
  bag_info_adds : List (String × String) → WorkspaceUpdate
  deleted : Bool → WorkspaceUpdate
  not_available not_updatable : String → WorkspaceUpdate

pub data WorkflowUpdate : Type 0 where
  workflow_id workflow_dir workflow_script_base workflow_script_path : String → WorkflowUpdate
  uses_mets_server deleted : Bool → WorkflowUpdate
  executable_steps producible_file_groups : List String → WorkflowUpdate
  details : Option String → WorkflowUpdate
  not_available not_updatable : String → WorkflowUpdate

pub data UserUpdate : Type 0 where
  institution_id email encrypted_pass salt : String → UserUpdate
  account_type : AccountType → UserUpdate
  approved_user deleted : Bool → UserUpdate
  details : Option String → UserUpdate
  not_available not_updatable : String → UserUpdate
