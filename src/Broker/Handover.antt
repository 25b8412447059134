-- ===== src/Broker/Handover.antt =====
-- From the status worker to the download worker (job_worker_status.py and job_worker_download.py in
-- src/broker/operandi_broker): the second reads what the first publishes.
use operandi.Common.{
  ℕ, ◌≡◌, refl, ap, ◌∙◌, String, true, false, some, List, [], ◌∷◌, ◌++◌, arith, ◌==◌, option_eq,
  string_eq, find_one, Outcome, ok, done, state_of,
}
use operandi.Constants.{StateWorkspace}
use operandi.Constants.Slurm.{StateJobSlurm, state_job_slurm_eq, is_state_hpc_success, completed}
use operandi.Constants.Job.{
  StateJob, state_job_eq, convert_from_slurm_job, hpc_success, transferring_from_hpc,
}
use operandi.Database.Models.{DbHpcSlurmJob, DbUserAccount, DbWorkflowJob, DbWorkspace}
use operandi.Database.ModelsStats.{StatType}
use operandi.Database.UserAccount.{is_user}
use operandi.Database.HpcSlurmJob.Laws.{slurm_job_at}
use operandi.Database.WorkflowJob.Laws.{job_at}
use operandi.Database.Workspace.Laws.{workspace_at}
use operandi.Hpc.Executor.{check_slurm_job_state, check_slurm_job_try_times}
use operandi.Hpc.Transfer.{Local}
use operandi.Broker.Worker.{Worker, Site, Env, DownloadMessage, message_field}
use operandi.Broker.Status as Status
use operandi.Broker.Status.Steps.{asks_download}
use operandi.Broker.Status.Outcome.{state_after, requests_after, workspace_after}
use operandi.Broker.Status.Callback.{Handled, consumed_msg_callback-Handled}
use operandi.Broker.Download as Download
use operandi.Broker.Download.{Documents, extract_updated_file_groups}
use operandi.Broker.Download.Settle.{stat_made}
use operandi.Broker.Download.Callback.{IsKnown}
use operandi.Broker.Download.Branches.{IsSettled}
use operandi.Broker.Download.Results.{transfer, download_succeeded_job}

-- The JSON object of a message, by the text that an f-string gives a state.
abbrev pub result_download_message : (StateJob → String) → DownloadMessage → List (String × String)
result_download_message text m =
    ("job_id", m.job_id) ∷ ("previous_job_state", text m.previous_job_state) ∷ []

-- The documents of a job, once the status worker knows that its slurm job completed.
abbrev pub completed_documents :
    DbHpcSlurmJob → DbWorkflowJob → DbWorkspace → DbUserAccount → Documents
completed_documents slurm job ws user = record {
  slurm_job = record slurm { hpc_slurm_job_state = completed };
  workflow_job = record job { job_state = transferring_from_hpc };
  workspace = record ws { state = StateWorkspace.transferring_from_hpc };
  user = user;
}

module _ (old_slurm : StateJobSlurm) (job : DbWorkflowJob) (ws : DbWorkspace)
    (changed : (old_slurm == completed) ≡ false)
    (asks : asks_download job.job_state hpc_success ≡ true) where
  state_after-completed : state_after old_slurm completed job.job_state ≡ transferring_from_hpc
  unfolding convert_from_slurm_job is_state_hpc_success state_job_slurm_eq
  state_after-completed = ground arith

  requests_after-completed :
      requests_after old_slurm completed job
      ≡ record { job_id = job.job_id; previous_job_state = hpc_success } ∷ []
  unfolding convert_from_slurm_job is_state_hpc_success state_job_slurm_eq
  requests_after-completed = ground arith

  workspace_after-completed :
      workspace_after old_slurm completed job.job_state ws
      ≡ record ws { state = StateWorkspace.transferring_from_hpc }
  unfolding convert_from_slurm_job is_state_hpc_success state_job_slurm_eq
  workspace_after-completed = ground arith

module _ (env : Env) (tag tag' : ℕ) (s s' : Site Worker) (fields : List (String × String))
    (id : String) (slurm : DbHpcSlurmJob) (job : DbWorkflowJob) (ws : DbWorkspace)
    (user : DbUserAccount) (text : StateJob → String) (local : Local) where
  -- The status worker leaves the documents that the download worker will ask for.
  Handled-IsKnown :
      (r : Outcome (Site Worker) (Unit {0}))
      → Handled s tag slurm job ws completed r
      → find_one (is_user ws.user_id) s.db.user_accounts ≡ some user
      → (slurm.hpc_slurm_job_state == completed) ≡ false
      → asks_download job.job_state hpc_success ≡ true
      → IsKnown job.job_id (completed_documents slurm job ws user) (state_of r).db
  Handled-IsKnown r handled found_user changed asks =
      let old = slurm.hpc_slurm_job_state in
      record {
        slurm_job = handled.slurm_state;
        workflow_job =
            handled.job_state
            ∙ ap (λ st. some (record job { job_state = st }))
                (state_after-completed old job ws changed asks);
        workspace = handled.workspace ∙ ap some (workspace_after-completed old job ws changed asks);
        user = ap (find_one (is_user ws.user_id)) handled.user_accounts ∙ found_user;
      }

  -- A job whose slurm job is found completed, where the database has it in another state and the
  -- job in a state that a download follows, comes to its end through two messages. The status
  -- worker publishes one message for the download worker; when that worker, started from the
  -- database that the first left, gets this message and its transfer works, the job becomes
  -- `SUCCESS`, its workspace `READY` with the file groups that came back, and its pages are
  -- counted as succeeded. The f-string of `StateJob.HPC_SUCCESS` has to be its value, as it is
  -- before Python 3.11.
  pub completed_job-IsSettled :
      message_field "job_id" fields ≡ done id
      → slurm_job_at (some id) s.db ≡ some slurm
      → job_at (some id) s.db ≡ some job
      → workspace_at (some job.workspace_id) s.db ≡ some ws
      → find_one (is_user ws.user_id) s.db.user_accounts ≡ some user
      → check_slurm_job_state (env.check_status slurm.hpc_slurm_job_id) check_slurm_job_try_times
        ≡ done completed
      → (slurm.hpc_slurm_job_state == completed) ≡ false
      → asks_download job.job_state hpc_success ≡ true
      → text hpc_success ≡ "HPC_SUCCESS"
      → s'.db ≡ (state_of (Status.consumed_msg_callback env tag (some fields) s)).db
      → transfer env (completed_documents slurm job ws user) s'.local ≡ ok tt local
      → let m : DownloadMessage = record {
        job_id = job.job_id;
        previous_job_state = hpc_success;
      } in
        let d = completed_documents slurm job ws user in
        ((state_of (Status.consumed_msg_callback env tag (some fields) s)).published
          ≡ s.published ++ m ∷ [])
        × IsSettled s' tag' job.job_id
            (record job { job_state = StateJob.success })
            (record ws {
              state = StateWorkspace.ready;
              file_groups = extract_updated_file_groups env d.workspace;
            })
            (stat_made env d (some job.job_id) "succeeded" StatType.succeeded StateJob.success)
            (Download.consumed_msg_callback env tag' (some (result_download_message text m)) s')
  unfolding string_eq
  completed_job-IsSettled has_id found_slurm found_job found_ws found_user answer changed asks
        is_text same_db moved =
      let handled =
        consumed_msg_callback-Handled env tag s fields id slurm job ws completed has_id found_slurm
          found_job found_ws answer in
      let m : DownloadMessage = record { job_id = job.job_id; previous_job_state = hpc_success } in
      let d = completed_documents slurm job ws user in
      let known : IsKnown job.job_id d s'.db = rw same_db (
        Handled-IsKnown (Status.consumed_msg_callback env tag (some fields) s) handled found_user
          changed asks) in
      (
        handled.published
            ∙ ap (λ ms. s.published ++ ms)
                (requests_after-completed slurm.hpc_slurm_job_state job ws changed asks),
        download_succeeded_job env tag' s' (result_download_message text m) job.job_id d refl known
            local (ap done is_text) moved,
      )
