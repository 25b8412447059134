-- ===== src/Tests/Fixtures.antt =====
-- A small installation: one user, one workflow, one workspace, one job and its slurm job.
use operandi.Common.{value_error, true, false, none, some, [], ◌∷◌, done, codes}
use operandi.Constants.{AccountType, StateWorkspace}
use operandi.Constants.Job.{StateJob}
use operandi.Constants.Slurm.{StateJobSlurm}
use operandi.Database.Models.{
  Db, DbHpcSlurmJob, DbUserAccount, DbWorkflow, DbWorkflowJob, DbWorkspace,
}
use operandi.Hpc.Transfer.{Sftp}
use operandi.Broker.Worker.{Env, Site, Worker, new_worker}
use operandi.Broker.Submit.{SubmitWorker}

abbrev pub user : DbUserAccount
user = record {
  institution_id = "goe";
  user_id = "u1";
  email = "u@x.org";
  encrypted_pass = "p";
  salt = "s";
  account_type = AccountType.user;
  approved_user = true;
  deleted = false;
  datetime = some 1;
  details = none;
}

abbrev pub workflow : DbWorkflow
workflow = record {
  user_id = "u1";
  workflow_id = "wf1";
  workflow_dir = "/wf";
  workflow_script_base = "a.nf";
  workflow_script_path = "/wf/a.nf";
  uses_mets_server = false;
  executable_steps = "ocrd-tesserocr-recognize" ∷ [];
  producible_file_groups = "OUT" ∷ [];
  deleted = false;
  datetime = some 1;
  details = none;
}

abbrev pub workspace : DbWorkspace
workspace = record {
  user_id = "u1";
  workspace_id = "ws1";
  workspace_dir = "/ws/ws1";
  workspace_mets_path = "/ws/ws1/mets.xml";
  pages_amount = 3;
  file_groups = "IN" ∷ [];
  state = StateWorkspace.pending;
  ocrd_identifier = none;
  bagit_profile_identifier = none;
  ocrd_base_version_checksum = none;
  mets_basename = some "mets.xml";
  bag_info_adds = [];
  deleted = false;
  datetime = some 1;
  details = none;
}

abbrev pub job : DbWorkflowJob
job = record {
  user_id = "u1";
  job_id = "j1";
  job_dir = "/jobs/j1";
  workflow_id = "wf1";
  workspace_id = "ws1";
  job_state = StateJob.running;
  workflow_dir = some "/wf";
  workspace_dir = some "/ws/ws1";
  hpc_slurm_job_id = none;
  deleted = false;
  datetime = some 1;
  details = none;
}

abbrev pub slurm_job : DbHpcSlurmJob
slurm_job = record {
  user_id = "u1";
  workflow_job_id = "j1";
  hpc_slurm_job_id = "77";
  hpc_slurm_job_state = StateJobSlurm.running;
  hpc_batch_script_path = none;
  hpc_slurm_workspace_path = none;
  deleted = false;
  datetime = some 1;
  details = none;
}

abbrev pub db : Db
db = record {
  user_accounts = user ∷ [];
  hpc_slurm_jobs = slurm_job ∷ [];
  workflows = workflow ∷ [];
  workflow_jobs = job ∷ [];
  workspaces = workspace ∷ [];
  page_stats = [];
  processing_stats_total = [];
}

abbrev pub site : Site Worker
site = record { db = db; worker = new_worker; local = []; acked = []; published = [] }

-- Every call to the outside works, and the slurm job has completed.
abbrev pub sftp : Sftp
sftp = record {
  connect = done tt;
  get = λ _ _ _. done tt;
  put = λ _ _ _. done tt;
  unpack = λ _ _. done tt;
  symlink = λ _ _. done tt;
  slurm_workspaces_dir = "/hpc/jobs";
  batch_scripts_dir = "/hpc/scripts";
  mkdtemp = "/tmp/a";
  copytree = λ _ _. done tt;
  make_zip_archive = λ _ _. done tt;
}

abbrev pub env : Env
env = record {
  now = 2;
  assign_ocrd_mets = value_error;
  sftp = sftp;
  check_status = λ _ _. done (codes "State" ∷ codes "77 COMPLETED 0:0" ∷ codes "" ∷ [], 0);
  execute_blocking = λ _. done ([], 0);
  execute_submit = λ _. done (codes "Submitted batch job 77" ∷ [], 0);
  mets_file_groups = λ _ _. done ("IN" ∷ "OUT" ∷ []);
}

abbrev pub fresh_submit_worker : SubmitWorker
fresh_submit_worker = record {
  has_consumed_message = false;
  current_message_delivery_tag = none;
  current_message_job_id = none;
  current_message_user_id = none;
  current_message_wf_id = none;
  current_message_ws_id = none;
  test_sbatch = true;
}
