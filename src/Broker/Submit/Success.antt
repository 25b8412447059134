-- ===== src/Broker/Submit/Success.antt =====
-- What the submit worker leaves behind when it submits a job, and when the HPC refuses it.
use operandi.Common.{
  ◌≡◌, String, false, Option, some, [], ◌∷◌, ◌++◌, arith, option_eq, string_eq, find_one, Exc, ok,
  raised, raise, done, other, Text, text_of, join,
}
use operandi.Constants.{StateWorkspace}
use operandi.Constants.Slurm.{unset}
use operandi.Constants.Job.{StateJob}
use operandi.Database.Models.{DbHpcSlurmJob, DbUserAccount, DbWorkspace, DbWorkflowJob}
use operandi.Database.HpcSlurmJob.{db_create_hpc_slurm_job}
use operandi.Database.UserAccount.{is_user, db_get_user_account}
use operandi.Database.WorkflowJob.Laws.{job_at, with_job, update_job_state}
use operandi.Database.Workspace.Laws.{workspace_at, with_workspace, update_workspace_state}
use operandi.Database.ModelsStats.{StatType, page_stat_type_to_model}
use operandi.Database.ProcessingStats.{db_create_page_stat}
use operandi.Hpc.Executor.{SlurmJobArgs, trigger_slurm_job}
use operandi.Hpc.Transfer.{Local, pack_and_put_slurm_workspace}
use operandi.Broker.Worker.{Site, Env}
use operandi.Broker.Submit.{
  SubmitWorker, prepare_slurm_workspace, trigger_or_count, save_slurm_job,
  prepare_and_trigger_slurm_job,
}

-- The site once the workspace is on the HPC.
abbrev pub transferred :
    String → String → DbWorkflowJob → DbWorkspace → Local → Site SubmitWorker → Site SubmitWorker
transferred id workspace_id job ws local s = record s {
  db =
      with_job (some id) (record job { job_state = StateJob.transferring_to_hpc })
        (with_workspace (some workspace_id)
          (record ws { state = StateWorkspace.transferring_to_hpc }) s.db);
  local = local;
}

-- The slurm job that the database gets.
abbrev pub slurm_job_of : Env → String → String → String → DbHpcSlurmJob
slurm_job_of env user_id id slurm_job_id = record {
  user_id = user_id;
  workflow_job_id = id;
  hpc_slurm_job_id = slurm_job_id;
  hpc_slurm_job_state = unset;
  hpc_batch_script_path = some (join env.sftp.batch_scripts_dir "batch_submit_workflow_job.sh");
  hpc_slurm_workspace_path = some (join env.sftp.slurm_workspaces_dir id);
  deleted = false;
  datetime = some env.now;
  details = some "HPCSlurmJob";
}

module _ (env : Env) (s : Site SubmitWorker) (args : SlurmJobArgs) (script_path : String)
    (job : DbWorkflowJob) (ws : DbWorkspace) (user : DbUserAccount) (zip : String × String)
    (local : Local) (found_job : job_at (some args.workflow_job_id) s.db ≡ some job)
    (found_ws : workspace_at (some args.workspace_id) s.db ≡ some ws)
    (found_user : find_one (is_user ws.user_id) s.db.user_accounts ≡ some user)
    (packed : pack_and_put_slurm_workspace env.sftp ws.workspace_dir args.workflow_job_id
        script_path s.local
      ≡ ok zip local) where
  abbrev moved : Site SubmitWorker
  moved = transferred args.workflow_job_id args.workspace_id job ws local s

  pub prepare_slurm_workspace_lem :
      prepare_slurm_workspace env args.workflow_job_id args.workspace_id ws.workspace_dir
        script_path s
      ≡ ok (record ws { state = StateWorkspace.transferring_to_hpc }, user) moved
  unfolding prepare_slurm_workspace db_get_user_account
  prepare_slurm_workspace_lem =
      let db₁ =
        with_workspace (some args.workspace_id)
          (record ws { state = StateWorkspace.transferring_to_hpc }) s.db in
      ground (
        arith,
        packed,
        found_user,
        update_workspace_state env.assign_ocrd_mets (some args.workspace_id)
            StateWorkspace.transferring_to_hpc s.db found_ws,
        update_job_state (some args.workflow_job_id) StateJob.transferring_to_hpc db₁ found_job,
      )

  pub prepare_and_trigger_slurm_job_lem :
      (user_id : String) (slurm_job_id : Text)
      → trigger_slurm_job env.execute_submit args ≡ done slurm_job_id
      → prepare_and_trigger_slurm_job env (some user_id) args ws.workspace_dir script_path s
        ≡ ok (text_of slurm_job_id) (record moved {
          db = record moved.db {
            hpc_slurm_jobs =
                s.db.hpc_slurm_jobs
                ++ slurm_job_of env user_id args.workflow_job_id (text_of slurm_job_id) ∷ [];
          };
        })
  unfolding prepare_and_trigger_slurm_job trigger_or_count save_slurm_job db_create_hpc_slurm_job
  prepare_and_trigger_slurm_job_lem user_id slurm_job_id triggered =
      ground (arith, triggered, prepare_slurm_workspace_lem)

  -- Where the HPC refuses the job, the pages are counted as failed, and no slurm job is saved.
  pub trigger_refused :
      (user_id : Option String) (e : Exc)
      → trigger_slurm_job env.execute_submit args ≡ raise e
      → prepare_and_trigger_slurm_job env user_id args ws.workspace_dir script_path s
        ≡ raised other (record moved {
          db = record moved.db {
            page_stats =
                s.db.page_stats
                ++ record {
                  stat_type = StatType.failed;
                  institution_id = user.institution_id;
                  user_id = ws.user_id;
                  datetime = env.now;
                  workspace_id = args.workspace_id;
                  quantity = args.ws_pages_amount;
                  workflow_job_id = some args.workflow_job_id;
                }
                  ∷ [];
          };
        })
  unfolding prepare_and_trigger_slurm_job trigger_or_count db_create_page_stat
      page_stat_type_to_model string_eq
  trigger_refused user_id e refused = ground (arith, refused, prepare_slurm_workspace_lem)
