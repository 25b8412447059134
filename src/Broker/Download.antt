-- ===== src/Broker/Download.antt =====
-- src/broker/operandi_broker/job_worker_download.py
pub mod Settle
pub mod Callback
pub mod Branches
pub mod Results
pub mod Consistency
use operandi.Common.{
  ℕ, String, Bool, true, false, Option, none, some, List, [], ◌∷◌, ◌==◌, string_eq, if◌then◌else◌,
  Exec, raise, other, modify, pure, lift, ◌>>=◌, ◌>>◌, every_exception, path_name, done, Result,
}
use operandi.Constants.{StateWorkspace}
use operandi.Constants.Job.{StateJob}
use operandi.Database.Updates.{JobUpdate, WorkspaceUpdate}
use operandi.Database.Models.{Db, DbHpcSlurmJob, DbUserAccount, DbWorkflowJob, DbWorkspace}
use operandi.Database.HpcSlurmJob.{sync_db_get_hpc_slurm_job}
use operandi.Database.UserAccount.{sync_db_get_user_account}
use operandi.Database.WorkflowJob.{sync_db_get_workflow_job, sync_db_update_workflow_job}
use operandi.Database.Workspace.{sync_db_get_workspace, sync_db_update_workspace}
use operandi.Database.ProcessingStats.{PageStatArgs, sync_db_create_page_stat}
use operandi.Hpc.Executor.{remove_workflow_job_dir}
use operandi.Hpc.Transfer.{download_slurm_job_log_file, get_and_unpack_slurm_workspace}
use operandi.Broker.Worker.{
  Body, Worker, Site, Env, message_field, on_db, on_local, try_then, begin_message, end_message,
  handle_msg_failure,
}

-- The documents that the callback reads for a message.
pub record Documents : Type 0 where
  pub slurm_job : DbHpcSlurmJob
  pub workflow_job : DbWorkflowJob
  pub workspace : DbWorkspace
  pub user : DbUserAccount

-- The `try` block that parses the message. The job id is kept before the previous state is read.
unfoldable pub parse_download_message : Body → Exec (Site Worker) String
parse_download_message none = lift (raise other)
parse_download_message (some fields) = do
  job_id ← lift (message_field "job_id" fields)
  modify (λ s. record s { worker = record s.worker { current_message_job_id = some job_id } })
  lift (message_field "previous_job_state" fields)

unfoldable pub read_documents : Option String → Exec Db Documents
read_documents job_id = do
  slurm_job ← sync_db_get_hpc_slurm_job job_id
  job ← sync_db_get_workflow_job job_id
  ws ← sync_db_get_workspace (some job.workspace_id)
  user ← sync_db_get_user_account ws.user_id
  pure (record { slurm_job = slurm_job; workflow_job = job; workspace = ws; user = user })

-- The `try` block that reads the database.
unfoldable pub read_download_documents : Exec (Site Worker) Documents
read_download_documents s = on_db (read_documents s.worker.current_message_job_id) s

-- The arguments of the page stat of a message.
abbrev pub page_stat_args : String → Documents → PageStatArgs
page_stat_args stat_type d = record {
  stat_type = stat_type;
  quantity = d.workspace.pages_amount;
  institution_id = d.user.institution_id;
  user_id = d.workspace.user_id;
  workspace_id = d.workflow_job.workspace_id;
  workflow_job_id = some d.workflow_job.job_id;
}

module _ (env : Env) where
  unfoldable pub download_results_from_hpc : String → String → Exec (Site Worker) (Unit {0})
  unfolding path_name
  download_results_from_hpc job_dir workspace_dir = do
    on_local (get_and_unpack_slurm_workspace env.sftp workspace_dir job_dir)
    lift (
        remove_workflow_job_dir env.execute_blocking env.sftp.slurm_workspaces_dir
          (path_name job_dir))

  unfoldable pub extract_updated_file_groups : DbWorkspace → List String
  extract_updated_file_groups ws =
      elim (env.mets_file_groups ws.workspace_mets_path ws.mets_basename) [
        | done groups ↦ groups
        | raise e ↦ "CORRUPTED FILE GROUPS" ∷ []
      ]

  -- The updates at the end of each of the two branches.
  unfoldable pub settle_documents :
      Documents → List WorkspaceUpdate → String → StateJob → Option String → Exec Db (Unit {0})
  settle_documents d ws_updates stat_type new_job_state job_id = do
    sync_db_update_workspace env.assign_ocrd_mets (some d.workflow_job.workspace_id) ws_updates
    sync_db_create_page_stat env.now (page_stat_args stat_type d)
    sync_db_update_workflow_job job_id (JobUpdate.job_state new_job_state ∷ [])
    pure tt

  -- The branch of the previous state `HPC_SUCCESS`.
  unfoldable pub handle_hpc_success : Documents → Exec (Site Worker) (Unit {0})
  handle_hpc_success d s =
      (do
        on_local (
            download_slurm_job_log_file env.sftp d.slurm_job.hpc_slurm_job_id
              d.workflow_job.job_dir)
        download_results_from_hpc d.workflow_job.job_dir d.workspace.workspace_dir
        on_db (
            settle_documents d
              (WorkspaceUpdate.state StateWorkspace.ready
                ∷ WorkspaceUpdate.file_groups (extract_updated_file_groups d.workspace)
                ∷ [])
              "succeeded" StateJob.success s.worker.current_message_job_id))
        s

  -- The branch of the previous state `HPC_FAILED`.
  unfoldable pub handle_hpc_failed : Documents → Exec (Site Worker) (Unit {0})
  handle_hpc_failed d s =
      (do
        on_local (
            download_slurm_job_log_file env.sftp d.slurm_job.hpc_slurm_job_id
              d.workflow_job.job_dir)
        on_db (
            settle_documents d (WorkspaceUpdate.state StateWorkspace.ready ∷ []) "failed"
              StateJob.failed s.worker.current_message_job_id))
        s

  unfoldable pub handle_previous_state : String → Documents → Exec (Site Worker) (Unit {0})
  handle_previous_state previous_job_state d = do
    if previous_job_state == "HPC_SUCCESS" then handle_hpc_success d else pure tt
    if previous_job_state == "HPC_FAILED" then handle_hpc_failed d else pure tt

  -- `_consumed_msg_callback`
  unfoldable pub consumed_msg_callback : ℕ → Body → Exec (Site Worker) (Unit {0})
  unfolding handle_msg_failure
  consumed_msg_callback tag body = do
    begin_message tag
    try_then every_exception (parse_download_message body) (handle_msg_failure false)
        λ previous_job_state.
          try_then every_exception read_download_documents (handle_msg_failure false) λ d.
            try_then every_exception (handle_previous_state previous_job_state d)
              (handle_msg_failure false) λ _. end_message tag
