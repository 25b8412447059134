-- ===== src/Tests/Submit.antt =====
-- Messages of the submit worker.
use operandi.Common.{
  ◌≡◌, refl, String, false, none, some, List, [], ◌∷◌, ◌++◌, done, raise, ok, raised, other,
  runtime_error, string_eq, option_eq, find_one, select, join, path_name, codes, text_of, state_of,
  int_of, key_error, index_error,
}
use operandi.Constants.{StateWorkspace}
use operandi.Constants.Job.{StateJob}
use operandi.Database.ModelsStats.{StatType}
use operandi.Database.WorkflowJob.Laws.{job_at}
use operandi.Database.Workspace.Laws.{workspace_at}
use operandi.Database.UserAccount.{is_user}
use operandi.Constants.Images.{image_of}
use operandi.Hpc.Executor.{magnitude_of, SlurmJobArgs, trigger_slurm_job, force_command}
use operandi.Hpc.Transfer.{
  pack_and_put_slurm_workspace, create_slurm_workspace_zip, put_slurm_workspace, with_retries,
  remove_path,
}
use operandi.Broker.Worker.{Env, Site}
use operandi.Broker.Submit.{
  SubmitWorker, SubmitMessage, parse_submit_message, slurm_job_args, prepare_and_trigger_slurm_job,
  consumed_msg_callback,
}
use operandi.Broker.Submit.Failure.{
  begun, IsFailed, submit_message_fails, malformed_message_unacked,
}
use operandi.Broker.Submit.Success.{transferred, slurm_job_of, trigger_refused}
use operandi.Broker.Submit.Callback.{
  IsSubmitted, consumed_msg_callback-IsSubmitted, submitted_then_malformed,
}
use operandi.Tests.Fixtures.{user, sftp, workflow, job, workspace, db, env}

abbrev worker : SubmitWorker
worker = record {
  has_consumed_message = false;
  current_message_delivery_tag = none;
  current_message_job_id = none;
  current_message_user_id = none;
  current_message_wf_id = none;
  current_message_ws_id = none;
  test_sbatch = false;
}

abbrev site : Site SubmitWorker
site = record { db = db; worker = worker; local = []; acked = []; published = [] }

-- A site whose worker has the ids of the job.
abbrev busy : Site SubmitWorker
busy = record site {
  worker = record worker {
    current_message_job_id = some "j1";
    current_message_user_id = some "u1";
    current_message_wf_id = some "wf1";
    current_message_ws_id = some "ws1";
  };
}

abbrev fields : List (String × String)
fields =
    ("job_id", "j1")
    ∷ ("input_file_grp", "IN")
    ∷ ("remove_file_grps", "")
    ∷ ("partition", "p")
    ∷ ("cpus", "8")
    ∷ ("ram", "32")
    ∷ []

abbrev message : SubmitMessage
message = record {
  input_file_grp = "IN";
  remove_file_grps = "";
  partition = "p";
  cpus = 8;
  ram = 32;
}

abbrev args : SlurmJobArgs
args = slurm_job_args false "j1" workflow workspace "ws1" message

submit_job-found : job_at (some "j1") db ≡ some job
unfolding find_one string_eq option_eq
submit_job-found = refl

submit_workspace-found : workspace_at (some "ws1") db ≡ some workspace
unfolding find_one string_eq option_eq
submit_workspace-found = refl

submit_user-found : find_one (is_user "u1") db.user_accounts ≡ some user
unfolding find_one string_eq
submit_user-found = refl

triggered : trigger_slurm_job env.execute_submit args ≡ done (codes "77")
unfolding trigger_slurm_job force_command slurm_job_args image_of string_eq magnitude_of
triggered = refl

abbrev packed_files : List String
packed_files = "/tmp/a/j1/ws1" ∷ "/tmp/a/j1/a.nf" ∷ "/tmp/a/j1" ∷ "/tmp/a" ∷ []

packed :
    pack_and_put_slurm_workspace sftp "/ws/ws1" "j1" "/wf/a.nf" []
    ≡ ok ("/tmp/a/j1.zip", "/hpc/jobs/j1.zip") packed_files
unfolding pack_and_put_slurm_workspace create_slurm_workspace_zip put_slurm_workspace with_retries
    remove_path select string_eq path_name join
packed = refl

consumed_msg_callback-IsSubmitted_example :
    IsSubmitted site 4 job workspace
      (slurm_job_of env "u1" "j1" (text_of (codes "77")))
      (consumed_msg_callback env 4 (some fields) site)
unfolding find_one string_eq parse_submit_message int_of
consumed_msg_callback-IsSubmitted_example =
    consumed_msg_callback-IsSubmitted env site 4 fields message job workflow workspace user _ _
      (codes "77") submit_job-found submit_workspace-found submit_user-found packed triggered refl
      refl

first_message-IsSubmitted :
    IsSubmitted site 4 job workspace
      (slurm_job_of env "u1" "j1" (text_of (codes "77")))
      (consumed_msg_callback env 4 (some fields) site)
unfolding find_one string_eq parse_submit_message int_of
first_message-IsSubmitted =
    consumed_msg_callback-IsSubmitted env site 4 fields message job workflow workspace user _ _
      (codes "77") submit_job-found submit_workspace-found submit_user-found packed triggered refl
      refl

submitted_then_malformed_example :
    IsFailed
      (begun 5 (state_of (consumed_msg_callback env 4 (some fields) site)))
      (record job { job_state = StateJob.pending })
      (record workspace { state = StateWorkspace.pending })
      (consumed_msg_callback env 5 none (state_of (consumed_msg_callback env 4 (some fields) site)))
    × ((state_of (
          consumed_msg_callback env 5 none
            (state_of (consumed_msg_callback env 4 (some fields) site)))).db.hpc_slurm_jobs
        ≡ site.db.hpc_slurm_jobs ++ slurm_job_of env "u1" "j1" (text_of (codes "77")) ∷ [])
submitted_then_malformed_example =
    submitted_then_malformed env site 4 5 job workspace
      (slurm_job_of env "u1" "j1" (text_of (codes "77")))
      (consumed_msg_callback env 4 (some fields) site) consumed_msg_callback-IsSubmitted_example

submit_message_fails_example :
    IsFailed (begun 4 busy) job workspace (consumed_msg_callback env 4 (some []) busy)
unfolding parse_submit_message
submit_message_fails_example =
    submit_message_fails env 4 (some []) busy (begun 4 busy) key_error job workspace refl
      submit_job-found submit_workspace-found

malformed_message_unacked_example :
    consumed_msg_callback env 4 none site ≡ raised runtime_error (begun 4 site)
unfolding find_one option_eq
malformed_message_unacked_example = malformed_message_unacked env 4 site refl

-- The HPC answers the submission with nothing.
abbrev refusing_env : Env
refusing_env = record env { execute_submit = λ _. done ([], 1) }

refused : trigger_slurm_job refusing_env.execute_submit args ≡ raise index_error
unfolding trigger_slurm_job force_command slurm_job_args image_of string_eq
refused = refl

trigger_refused_example :
    prepare_and_trigger_slurm_job refusing_env (some "u1") args "/ws/ws1" "/wf/a.nf" busy
    ≡ raised other (record (transferred "j1" "ws1" job workspace packed_files busy) {
      db = record (transferred "j1" "ws1" job workspace packed_files busy).db {
        page_stats =
            record {
              stat_type = StatType.failed;
              institution_id = "goe";
              user_id = "u1";
              datetime = 2;
              workspace_id = "ws1";
              quantity = 3;
              workflow_job_id = some "j1";
            }
            ∷ [];
      };
    })
unfolding slurm_job_args
trigger_refused_example =
    trigger_refused refusing_env busy args "/wf/a.nf" job workspace user _ _ submit_job-found
      submit_workspace-found submit_user-found packed (some "u1") index_error refused
