-- ===== src/Database/Models.antt =====
-- src/utils/operandi_utils/database/models.py: the documents, and the database that holds them. A
-- date is a number, `None` is `none`. Of the free-form `bag_info_adds` the keys and texts are
-- kept.
use operandi.Common.{ℕ, String, Bool, Option, List, []}
use operandi.Constants.{AccountType, StateWorkspace}
use operandi.Constants.Job.{StateJob}
use operandi.Constants.Slurm.{StateJobSlurm}
use operandi.Database.ModelsStats.{DbPageStat, DbProcessingStatsTotal}

pub record DbUserAccount : Type 0 where
  pub institution_id : String
  pub user_id : String
  pub email : String
  pub encrypted_pass : String
  pub salt : String
  pub account_type : AccountType
  pub approved_user : Bool
  pub deleted : Bool
  pub datetime : Option ℕ
  pub details : Option String

pub record DbHpcSlurmJob : Type 0 where
  pub user_id : String
  pub workflow_job_id : String
  pub hpc_slurm_job_id : String
  pub hpc_slurm_job_state : StateJobSlurm
  pub hpc_batch_script_path : Option String
  pub hpc_slurm_workspace_path : Option String
  pub deleted : Bool
  pub datetime : Option ℕ
  pub details : Option String

pub record DbWorkflow : Type 0 where
  pub user_id : String
  pub workflow_id : String
  pub workflow_dir : String
  pub workflow_script_base : String
  pub workflow_script_path : String
  pub uses_mets_server : Bool
  pub executable_steps : List String
  pub producible_file_groups : List String
  pub deleted : Bool
  pub datetime : Option ℕ
  pub details : Option String

pub record DbWorkflowJob : Type 0 where
  pub user_id : String
  pub job_id : String
  pub job_dir : String
  pub workflow_id : String
  pub workspace_id : String
  pub job_state : StateJob
  pub workflow_dir : Option String
  pub workspace_dir : Option String
  pub hpc_slurm_job_id : Option String
  pub deleted : Bool
  pub datetime : Option ℕ
  pub details : Option String

pub record DbWorkspace : Type 0 where
  pub user_id : String
  pub workspace_id : String
  pub workspace_dir : String
  pub workspace_mets_path : String
  pub pages_amount : ℕ
  pub file_groups : List String
  pub state : StateWorkspace
  pub ocrd_identifier : Option String
  pub bagit_profile_identifier : Option String
  pub ocrd_base_version_checksum : Option String
  pub mets_basename : Option String
  pub bag_info_adds : List (String × String)
  pub deleted : Bool
  pub datetime : Option ℕ
  pub details : Option String

-- One collection for each model. The six collections of page stats are kept as one list, in which
-- each entry names its model.
pub record Db : Type 0 where
  pub user_accounts : List DbUserAccount
  pub hpc_slurm_jobs : List DbHpcSlurmJob
  pub workflows : List DbWorkflow
  pub workflow_jobs : List DbWorkflowJob
  pub workspaces : List DbWorkspace
  pub page_stats : List DbPageStat
  pub processing_stats_total : List DbProcessingStatsTotal

abbrev pub empty_db : Db
empty_db = record {
  user_accounts = [];
  hpc_slurm_jobs = [];
  workflows = [];
  workflow_jobs = [];
  workspaces = [];
  page_stats = [];
  processing_stats_total = [];
}
