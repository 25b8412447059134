-- ===== src/Broker/Download/Results.antt =====
-- The results of a job that succeeded on the HPC, when their transfer works and when it fails.
use operandi.Common.{
  ℕ, ◌≡◌, refl, String, false, none, some, List, [], ◌∷◌, ◌++◌, arith, option_eq, string_eq, Exec,
  Exc, ok, raised, done, pure, lift, ◌>>◌, path_name,
}
use operandi.Constants.{StateWorkspace}
use operandi.Constants.Job.{StateJob}
use operandi.Database.Updates.{WorkspaceUpdate}
use operandi.Database.Models.{DbWorkspace}
use operandi.Database.ModelsStats.{StatType, page_stat_type_to_model}
use operandi.Database.Workspace.Laws.{update_workspace_state_groups}
use operandi.Hpc.Executor.{remove_workflow_job_dir}
use operandi.Hpc.Transfer.{Local, download_slurm_job_log_file, get_and_unpack_slurm_workspace}
use operandi.Broker.Worker.{Worker, Site, Env, message_field, handle_msg_failure}
use operandi.Broker.Worker.Steps.{bind_ok, bind_raised}
use operandi.Broker.Download.{
  Documents, handle_hpc_success, handle_previous_state, extract_updated_file_groups,
  download_results_from_hpc, consumed_msg_callback,
}
use operandi.Broker.Download.Settle.{stat_made, settle_documents_lem}
use operandi.Broker.Download.Branches.{IsSettled, settled_site, settled_site-IsSettled}
use operandi.Broker.Download.Callback.{begun, IsKnown, callback-ok, callback-raised}

-- What the download worker fetches: the log file, the results, and then it cleans the HPC up.
abbrev pub transfer : Env → Documents → Exec Local (Unit {0})
transfer env d = do
  download_slurm_job_log_file env.sftp d.slurm_job.hpc_slurm_job_id d.workflow_job.job_dir
  get_and_unpack_slurm_workspace env.sftp d.workspace.workspace_dir d.workflow_job.job_dir
  lift (
      remove_workflow_job_dir env.execute_blocking env.sftp.slurm_workspaces_dir
        (path_name d.workflow_job.job_dir))

module _ (env : Env) (tag : ℕ) (s : Site Worker) (fields : List (String × String)) (id : String)
    (d : Documents) (has_id : message_field "job_id" fields ≡ done id)
    (known : IsKnown id d s.db) where
  -- The workspace with the file groups of the METS file that came back.
  abbrev processed : DbWorkspace
  processed = record d.workspace {
    state = StateWorkspace.ready;
    file_groups = extract_updated_file_groups env d.workspace;
  }

  handle_hpc_success_lem :
      (local : Local)
      → transfer env d s.local ≡ ok tt local
      → handle_hpc_success env d (begun tag id s)
        ≡ ok tt (
            settled_site env tag s fields id d has_id known "succeeded" StatType.succeeded
              StateJob.success processed local)
  unfolding handle_hpc_success download_results_from_hpc page_stat_type_to_model string_eq
  handle_hpc_success_lem local moved =
      let us =
        WorkspaceUpdate.state StateWorkspace.ready
        ∷ WorkspaceUpdate.file_groups (extract_updated_file_groups env d.workspace)
        ∷ [] in
      let settles =
        settle_documents_lem env d (some id) "succeeded" StatType.succeeded StateJob.success us
          processed s.db refl
          (update_workspace_state_groups env.assign_ocrd_mets (some d.workflow_job.workspace_id)
            StateWorkspace.ready (extract_updated_file_groups env d.workspace) s.db known.workspace)
          known.workflow_job in
      ground (arith, moved, settles)

  handle_hpc_success_raised :
      (e : Exc) (local : Local)
      → transfer env d s.local ≡ raised e local
      → handle_hpc_success env d (begun tag id s)
        ≡ raised e (record (begun tag id s) { local = local })
  unfolding handle_hpc_success download_results_from_hpc
  handle_hpc_success_raised e local stops = ground arith

  -- A message that names a job that succeeded on the HPC settles it, once the results are there:
  -- the job becomes `SUCCESS`, the workspace `READY` with the file groups of the METS file that
  -- came back (or the one that says that they could not be read), the pages are counted as
  -- succeeded, and the message is acknowledged.
  pub download_succeeded_job :
      (local : Local)
      → message_field "previous_job_state" fields ≡ done "HPC_SUCCESS"
      → transfer env d s.local ≡ ok tt local
      → IsSettled s tag id
          (record d.workflow_job { job_state = StateJob.success })
          processed
          (stat_made env d (some id) "succeeded" StatType.succeeded StateJob.success)
          (consumed_msg_callback env tag (some fields) s)
  unfolding handle_previous_state string_eq
  download_succeeded_job local has_prev moved =
      rw
        (callback-ok env tag s fields id "HPC_SUCCESS" d has_id has_prev known
          (settled_site env tag s fields id d has_id known "succeeded" StatType.succeeded
            StateJob.success processed local)
          (bind_ok (handle_hpc_success env d) (λ _. pure tt) (begun tag id s) tt _
            (handle_hpc_success_lem local moved)))
        (settled_site-IsSettled env tag s fields id d has_id known "succeeded" StatType.succeeded
          StateJob.success processed local refl)

  -- Where the transfer of the results fails at any point, the message is acknowledged all the
  -- same and no document changes: the job stays in the state in which it was, and nothing is left
  -- that would try again.
  pub download_error_keeps_documents :
      (e : Exc) (local : Local)
      → message_field "previous_job_state" fields ≡ done "HPC_SUCCESS"
      → transfer env d s.local ≡ raised e local
      → consumed_msg_callback env tag (some fields) s
        ≡ ok tt (record s {
          worker = record s.worker {
            current_message_delivery_tag = none;
            has_consumed_message = false;
            current_message_job_id = none;
          };
          local = local;
          acked = s.acked ++ some tag ∷ [];
        })
  unfolding handle_previous_state string_eq handle_msg_failure
  download_error_keeps_documents e local has_prev stops =
      callback-raised env tag s fields id "HPC_SUCCESS" d has_id has_prev known e
        (record (begun tag id s) { local = local })
        (bind_raised (handle_hpc_success env d) (λ _. pure tt) (begun tag id s) e _
          (handle_hpc_success_raised e local stops))
