-- ===== src/Tests/Broker.antt =====
-- Messages of the three workers.
use operandi.Common.{
  codes, other, index_error, ok, raised, true, false, ◌≡◌, refl, String, none, some, List, [], ◌∷◌,
  done, raise, string_eq, option_eq, find_one, state_of,
}
use operandi.Constants.Slurm.{StateJobSlurm, state_job_slurm_eq}
use operandi.Database.HpcSlurmJob.Laws.{slurm_job_at}
use operandi.Database.WorkflowJob.Laws.{job_at}
use operandi.Database.Workspace.Laws.{workspace_at}
use operandi.Hpc.ExecutorUtils.{parse_slurm_job_state_from_output}
use operandi.Hpc.Executor.{
  check_slurm_job_state_once, check_slurm_job_state, check_slurm_job_try_times,
}
use operandi.Constants.{StateWorkspace}
use operandi.Constants.Job.{StateJob, state_job_eq}
use operandi.Database.ModelsStats.{StatType}
use operandi.Database.UserAccount.{is_user}
use operandi.Hpc.Executor.{remove_workflow_job_dir}
use operandi.Hpc.Transfer.{
  with_retries, download_file_with_retries, download_slurm_job_log_file, download_workflow_job_zip,
  download_workspace_zip, unzip_dir, get_and_unpack_slurm_workspace,
}
use operandi.Broker.Worker.{Env, Site, Worker, DownloadMessage}
use operandi.Broker.Download.Settle.{stat_made}
use operandi.Broker.Status.Callback.{Handled, consumed_msg_callback-Handled, status_message_escapes}
use operandi.Broker.Status.{consumed_msg_callback}
use operandi.Broker.Download.{Documents, extract_updated_file_groups}
use operandi.Broker.Download.Callback.{IsKnown}
use operandi.Broker.Download.Branches.{IsSettled, download_failed_job}
use operandi.Broker.Download.Results.{download_succeeded_job, download_error_keeps_documents}
use operandi.Broker.Download as Download
use operandi.Broker.Handover.{completed_documents, result_download_message, completed_job-IsSettled}
use operandi.Tests.Fixtures.{user, sftp, slurm_job, job, workspace, db, site, env}

slurm_job-found : slurm_job_at (some "j1") db ≡ some slurm_job
unfolding find_one string_eq option_eq
slurm_job-found = refl

job-found : job_at (some "j1") db ≡ some job
unfolding find_one string_eq option_eq
job-found = refl

workspace-found : workspace_at (some "ws1") db ≡ some workspace
unfolding find_one string_eq option_eq
workspace-found = refl

completed :
    check_slurm_job_state (env.check_status "77") check_slurm_job_try_times
    ≡ done StateJobSlurm.completed
unfolding check_slurm_job_state check_slurm_job_state_once parse_slurm_job_state_from_output
    state_job_slurm_eq
completed = refl

consumed_msg_callback-Handled_example :
    Handled site 5 slurm_job job workspace StateJobSlurm.completed
      (consumed_msg_callback env 5 (some (("job_id", "j1") ∷ [])) site)
unfolding string_eq
consumed_msg_callback-Handled_example =
    consumed_msg_callback-Handled env 5 site (("job_id", "j1") ∷ []) "j1" slurm_job job workspace
      StateJobSlurm.completed refl slurm_job-found job-found workspace-found completed

-- An answer whose last but one line has one word.
abbrev short_env : Env
short_env = record env { check_status = λ _ _. done (codes "a" ∷ codes "b" ∷ codes "" ∷ [], 0) }

short_answer :
    check_slurm_job_state (short_env.check_status "77") check_slurm_job_try_times
    ≡ raise index_error
unfolding check_slurm_job_state check_slurm_job_state_once parse_slurm_job_state_from_output
short_answer = refl

status_message_escapes_example :
    consumed_msg_callback short_env 5 (some (("job_id", "j1") ∷ [])) site
    ≡ raised index_error (record site {
      worker = record site.worker {
        current_message_delivery_tag = some 5;
        has_consumed_message = true;
        current_message_job_id = some "j1";
      };
    })
unfolding string_eq
status_message_escapes_example =
    status_message_escapes short_env 5 site (("job_id", "j1") ∷ []) "j1" slurm_job job workspace
      StateJobSlurm.completed index_error refl slurm_job-found job-found short_answer refl

abbrev documents : Documents
documents = record { slurm_job = slurm_job; workflow_job = job; workspace = workspace; user = user }

user-found : find_one (is_user "u1") db.user_accounts ≡ some user
unfolding find_one string_eq
user-found = refl

documents-IsKnown : IsKnown "j1" documents db
documents-IsKnown = record {
  slurm_job = slurm_job-found;
  workflow_job = job-found;
  workspace = workspace-found;
  user = user-found;
}

abbrev download_fields : String → List (String × String)
download_fields state = ("job_id", "j1") ∷ ("previous_job_state", state) ∷ []

download_failed_job_example :
    IsSettled site 6 "j1"
      (record job { job_state = StateJob.failed })
      (record workspace { state = StateWorkspace.ready })
      (stat_made env documents (some "j1") "failed" StatType.failed StateJob.failed)
      (Download.consumed_msg_callback env 6 (some (download_fields "HPC_FAILED")) site)
unfolding string_eq download_slurm_job_log_file download_file_with_retries with_retries
download_failed_job_example =
    download_failed_job env 6 site (download_fields "HPC_FAILED") "j1" documents refl
      documents-IsKnown _ _ refl refl

download_succeeded_job_example :
    IsSettled site 6 "j1"
      (record job { job_state = StateJob.success })
      (record workspace {
        state = StateWorkspace.ready;
        file_groups = extract_updated_file_groups env workspace;
      })
      (stat_made env documents (some "j1") "succeeded" StatType.succeeded StateJob.success)
      (Download.consumed_msg_callback env 6 (some (download_fields "HPC_SUCCESS")) site)
unfolding string_eq download_slurm_job_log_file download_file_with_retries with_retries
    get_and_unpack_slurm_workspace remove_workflow_job_dir download_workflow_job_zip
    download_workspace_zip unzip_dir
download_succeeded_job_example =
    download_succeeded_job env 6 site (download_fields "HPC_SUCCESS") "j1" documents refl
      documents-IsKnown _ refl refl

-- The HPC cannot be reached.
abbrev offline_env : Env
offline_env = record env { sftp = record sftp { connect = raise other } }

download_error_keeps_documents_example :
    Download.consumed_msg_callback offline_env 6 (some (download_fields "HPC_SUCCESS")) site
    ≡ ok tt (record site {
      worker = record site.worker {
        current_message_delivery_tag = none;
        has_consumed_message = false;
        current_message_job_id = none;
      };
      acked = some 6 ∷ [];
    })
unfolding string_eq download_slurm_job_log_file
download_error_keeps_documents_example =
    download_error_keeps_documents offline_env 6 site (download_fields "HPC_SUCCESS") "j1" documents
      refl documents-IsKnown other [] refl refl

-- The f-string of a state where it is the state's value.
abbrev f_string : StateJob → String
f_string StateJob.failed = "FAILED"
f_string StateJob.queued = "QUEUED"
f_string StateJob.pending = "PENDING"
f_string StateJob.running = "RUNNING"
f_string StateJob.success = "SUCCESS"
f_string StateJob.hpc_success = "HPC_SUCCESS"
f_string StateJob.hpc_failed = "HPC_FAILED"
f_string StateJob.transferring_to_hpc = "TRANSFERRING_TO_HPC"
f_string StateJob.transferring_from_hpc = "TRANSFERRING_FROM_HPC"
f_string StateJob.unset = "UNSET"

-- The download worker, started when the status worker is done.
abbrev download_site : Site Worker
download_site = record site {
  db = (state_of (consumed_msg_callback env 5 (some (("job_id", "j1") ∷ [])) site)).db;
}

abbrev handed_message : DownloadMessage
handed_message = record { job_id = "j1"; previous_job_state = StateJob.hpc_success }

completed_job-IsSettled_example :
    ((state_of (consumed_msg_callback env 5 (some (("job_id", "j1") ∷ [])) site)).published
      ≡ handed_message ∷ [])
    × IsSettled download_site 6 "j1"
        (record job { job_state = StateJob.success })
        (record workspace {
          state = StateWorkspace.ready;
          file_groups =
              extract_updated_file_groups env
                (completed_documents slurm_job job workspace user).workspace;
        })
        (stat_made env
          (completed_documents slurm_job job workspace user)
          (some "j1")
          "succeeded"
          StatType.succeeded
          StateJob.success)
        (Download.consumed_msg_callback env 6
          (some (result_download_message f_string handed_message))
          download_site)
unfolding string_eq download_slurm_job_log_file download_file_with_retries with_retries
    get_and_unpack_slurm_workspace remove_workflow_job_dir download_workflow_job_zip
    download_workspace_zip unzip_dir state_job_slurm_eq state_job_eq
completed_job-IsSettled_example =
    completed_job-IsSettled env 5 6 site download_site (("job_id", "j1") ∷ []) "j1" slurm_job job
      workspace user f_string _ refl slurm_job-found job-found workspace-found user-found completed
      refl refl refl refl refl
