-- ===== src/Broker/Download/Branches.antt =====
-- The two branches of the download worker, when the transfer works and when it fails.
use operandi.Common.{
  ℕ, ◌≡◌, refl, ap, ◌∙◌, String, true, false, some, List, [], ◌∷◌, ◌++◌, arith, option_eq,
  string_eq, Outcome, ok, done, state_of, is_ok,
}
use operandi.Constants.{StateWorkspace}
use operandi.Constants.Job.{StateJob}
use operandi.Database.Updates.{WorkspaceUpdate}
use operandi.Database.Models.{DbWorkspace, DbWorkflowJob}
use operandi.Database.ModelsStats.{StatType, DbPageStat, page_stat_type_to_model}
use operandi.Database.WorkflowJob.Laws.{job_at, id-job_at, job_at-with_job}
use operandi.Database.Workspace.Laws.{
  workspace_at, id-workspace_at, workspace_at-with_workspace, update_workspace_state,
}
use operandi.Hpc.Transfer.{Local, download_slurm_job_log_file}
use operandi.Broker.Worker.{Worker, Site, Env, message_field, on_db, on_local, end_message}
use operandi.Broker.Worker.Steps.{on_db_ok, on_local_ok, bind_ok}
use operandi.Broker.Download.{
  Documents, handle_hpc_failed, settle_documents, handle_previous_state, consumed_msg_callback,
}
use operandi.Broker.Download.Settle.{stat_made, settled_db, settle_documents_lem}
use operandi.Broker.Download.Callback.{begun, IsKnown, callback-ok}

-- The message is done with, and the job and its workspace have left the HPC.
pub record IsSettled (s : Site Worker) (tag : ℕ) (id : String) (job' : DbWorkflowJob)
    (ws : DbWorkspace) (stat : DbPageStat) (r : Outcome (Site Worker) (Unit {0})) : Type 0 where
  pub returns : is_ok r ≡ true
  pub acked : (state_of r).acked ≡ s.acked ++ some tag ∷ []
  pub idle : (state_of r).worker.has_consumed_message ≡ false
  pub job : job_at (some id) (state_of r).db ≡ some job'
  pub workspace : workspace_at (some job'.workspace_id) (state_of r).db ≡ some ws
  pub page_stats : (state_of r).db.page_stats ≡ s.db.page_stats ++ stat ∷ []

module _ (env : Env) (tag : ℕ) (s : Site Worker) (fields : List (String × String)) (id : String)
    (d : Documents) (has_id : message_field "job_id" fields ≡ done id)
    (known : IsKnown id d s.db) where
  -- What is left once the documents are settled.
  abbrev pub settled_site : String → StatType → StateJob → DbWorkspace → Local → Site Worker
  settled_site stat_type model new ws local = record (begun tag id s) {
    db = settled_db env d (some id) stat_type model new ws s.db;
    local = local;
  }

  pub settled_site-IsSettled :
      (stat_type : String) (model : StatType) (new : StateJob) (ws : DbWorkspace) (local : Local)
      → ws.workspace_id ≡ d.workspace.workspace_id
      → IsSettled s tag id
          (record d.workflow_job { job_state = new })
          ws
          (stat_made env d (some id) stat_type model new)
          (end_message tag (settled_site stat_type model new ws local))
  settled_site-IsSettled stat_type model new ws local same =
      let ws_id = some d.workflow_job.workspace_id in
      let job : DbWorkflowJob = record d.workflow_job { job_state = new } in
      let is_id = id-job_at (some id) s.db known.workflow_job in
      let is_ws_id = id-workspace_at ws_id s.db known.workspace in
      record {
        returns = refl;
        acked = refl;
        idle = refl;
        job = ground (
          arith,
          job_at-with_job (some id) (some id) job s.db d.workflow_job known.workflow_job is_id,
        );
        workspace = ground (
          arith,
          workspace_at-with_workspace ws_id ws_id ws s.db d.workspace known.workspace
              (ap some same ∙ is_ws_id),
        );
        page_stats = refl;
      }

  module _ (log_file : String) (local₁ : Local)
      (log : download_slurm_job_log_file env.sftp d.slurm_job.hpc_slurm_job_id
          d.workflow_job.job_dir s.local
        ≡ ok log_file local₁) where
    handle_hpc_failed_lem :
        handle_hpc_failed env d (begun tag id s)
        ≡ ok tt (
            settled_site "failed" StatType.failed StateJob.failed
              (record d.workspace { state = StateWorkspace.ready })
              local₁)
    unfolding handle_hpc_failed page_stat_type_to_model string_eq
    handle_hpc_failed_lem =
        let us = WorkspaceUpdate.state StateWorkspace.ready ∷ [] in
        let ws : DbWorkspace = record d.workspace { state = StateWorkspace.ready } in
        let b₁ : Site Worker = record (begun tag id s) { local = local₁ } in
        let get_log =
          download_slurm_job_log_file env.sftp d.slurm_job.hpc_slurm_job_id
            d.workflow_job.job_dir in
        let rest = on_db (settle_documents env d us "failed" StateJob.failed (some id)) in
        bind_ok (on_local get_log) (λ _. rest) (begun tag id s) log_file b₁
          (on_local_ok get_log (begun tag id s) log_file local₁ log)
        ∙ on_db_ok (settle_documents env d us "failed" StateJob.failed (some id)) b₁ tt
            (settled_db env d (some id) "failed" StatType.failed StateJob.failed ws s.db)
            (settle_documents_lem env d (some id) "failed" StatType.failed StateJob.failed us ws
              s.db refl
              (update_workspace_state env.assign_ocrd_mets (some d.workflow_job.workspace_id)
                StateWorkspace.ready s.db known.workspace)
              known.workflow_job)

    -- A message that names a job that failed on the HPC settles it, once the log file is there:
    -- the job becomes `FAILED`, the workspace `READY`, the pages are counted as failed, and the
    -- message is acknowledged.
    pub download_failed_job :
        message_field "previous_job_state" fields ≡ done "HPC_FAILED"
        → IsSettled s tag id
            (record d.workflow_job { job_state = StateJob.failed })
            (record d.workspace { state = StateWorkspace.ready })
            (stat_made env d (some id) "failed" StatType.failed StateJob.failed)
            (consumed_msg_callback env tag (some fields) s)
    unfolding handle_previous_state string_eq
    download_failed_job has_prev =
        let ws : DbWorkspace = record d.workspace { state = StateWorkspace.ready } in
        rw
          (callback-ok env tag s fields id "HPC_FAILED" d has_id has_prev known
            (settled_site "failed" StatType.failed StateJob.failed ws local₁) handle_hpc_failed_lem)
          (settled_site-IsSettled "failed" StatType.failed StateJob.failed ws local₁ refl)
