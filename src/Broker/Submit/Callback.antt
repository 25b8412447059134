-- ===== src/Broker/Submit/Callback.antt =====
-- The whole callback of the submit worker, for a job that it submits.
use operandi.Common.{
  ℕ, ◌≡◌, refl, ◌∙◌, String, true, false, Option, none, some, List, [], ◌∷◌, ◌++◌, arith, option_eq,
  string_eq, find_one, Outcome, ok, done, every_exception, state_of, is_ok, Text, text_of,
}
use operandi.Constants.{StateWorkspace}
use operandi.Constants.Job.{StateJob}
use operandi.Database.Models.{
  Db, DbHpcSlurmJob, DbUserAccount, DbWorkflow, DbWorkspace, DbWorkflowJob,
}
use operandi.Database.UserAccount.{is_user}
use operandi.Database.Workflow.{is_workflow, db_get_workflow}
use operandi.Database.WorkflowJob.Laws.{
  get_job, job_at, with_job, job_at-with_job, update_job_state,
}
use operandi.Database.Workspace.Laws.{
  get_workspace, workspace_at, with_workspace, id-workspace_at, workspace_at-with_workspace,
  update_workspace_state,
}
use operandi.Hpc.Executor.{SlurmJobArgs, trigger_slurm_job}
use operandi.Hpc.Transfer.{Local, pack_and_put_slurm_workspace}
use operandi.Broker.Worker.{Site, Env}
use operandi.Broker.Worker.Steps.{try_then_ok}
use operandi.Broker.Submit.{
  SubmitWorker, SubmitMessage, slurm_job_args, parse_submit_message, read_submit_documents,
  submit_job, handle_submit_failure, finish_message, consumed_msg_callback,
}
use operandi.Broker.Submit.Success.{transferred, slurm_job_of, prepare_and_trigger_slurm_job_lem}
use operandi.Broker.Submit.Failure.{begun, IsFailed, malformed_message_fails_previous_job}

-- What the callback leaves of a message whose job was submitted.
pub record IsSubmitted (s : Site SubmitWorker) (tag : ℕ) (job : DbWorkflowJob) (ws : DbWorkspace)
    (slurm_job : DbHpcSlurmJob) (r : Outcome (Site SubmitWorker) (Unit {0})) : Type 0 where
  pub returns : is_ok r ≡ true
  pub acked : (state_of r).acked ≡ s.acked ++ some tag ∷ []
  pub job_state :
      job_at (some job.job_id) (state_of r).db ≡ some (record job { job_state = StateJob.pending })
  pub workspace_state :
      workspace_at (some job.workspace_id) (state_of r).db
      ≡ some (record ws { state = StateWorkspace.pending })
  pub slurm_jobs : (state_of r).db.hpc_slurm_jobs ≡ s.db.hpc_slurm_jobs ++ slurm_job ∷ []
  pub page_stats : (state_of r).db.page_stats ≡ s.db.page_stats
  -- the ids of the message stay with the worker
  pub remembered : (state_of r).worker.current_message_job_id ≡ some job.job_id
  pub remembered_workspace : (state_of r).worker.current_message_ws_id ≡ some job.workspace_id
  pub idle : (state_of r).worker.has_consumed_message ≡ false

abbrev workflow_at : String → Db → Option DbWorkflow
workflow_at id db = find_one (is_workflow id) db.workflows

module _ (env : Env) (s : Site SubmitWorker) (tag : ℕ) (fields : List (String × String))
    (m : SubmitMessage) (job : DbWorkflowJob) (wf : DbWorkflow) (ws : DbWorkspace)
    (user : DbUserAccount) where
  -- The worker once the documents are read.
  abbrev informed : Site SubmitWorker
  informed = record s {
    worker = record s.worker {
      current_message_delivery_tag = some tag;
      has_consumed_message = true;
      current_message_job_id = some job.job_id;
      current_message_user_id = some job.user_id;
      current_message_wf_id = some job.workflow_id;
      current_message_ws_id = some job.workspace_id;
    };
  }

  abbrev args : SlurmJobArgs
  args = slurm_job_args s.worker.test_sbatch job.job_id wf ws job.workspace_id m

  module _ (zip : String × String) (local : Local) (slurm_job_id : Text)
      (found_job : job_at (some job.job_id) s.db ≡ some job)
      (found_ws : workspace_at (some job.workspace_id) s.db ≡ some ws)
      (found_user : find_one (is_user ws.user_id) s.db.user_accounts ≡ some user)
      (packed : pack_and_put_slurm_workspace env.sftp ws.workspace_dir job.job_id
          wf.workflow_script_path s.local
        ≡ ok zip local)
      (triggered : trigger_slurm_job env.execute_submit args ≡ done slurm_job_id) where
    abbrev slurm_job : DbHpcSlurmJob
    slurm_job = slurm_job_of env job.user_id job.job_id (text_of slurm_job_id)

    -- The site between the submission and the last two updates.
    abbrev triggered_site : Site SubmitWorker
    triggered_site =
        let t = transferred job.job_id job.workspace_id job ws local informed in
        record t { db = record t.db { hpc_slurm_jobs = s.db.hpc_slurm_jobs ++ slurm_job ∷ [] } }

    -- The site after them.
    abbrev submitted_site : Site SubmitWorker
    submitted_site = record triggered_site {
      db =
          with_workspace (some job.workspace_id) (record ws { state = StateWorkspace.pending })
            (with_job (some job.job_id) (record job { job_state = StateJob.pending })
              triggered_site.db);
    }

    job_at-triggered_site :
        job_at (some job.job_id) triggered_site.db
        ≡ some (record job { job_state = StateJob.transferring_to_hpc })
    job_at-triggered_site = ground (
      arith,
      job_at-with_job (some job.job_id) (some job.job_id)
          (record job { job_state = StateJob.transferring_to_hpc }) s.db job found_job refl,
    )

    workspace_at-triggered_site :
        workspace_at (some job.workspace_id) triggered_site.db
        ≡ some (record ws { state = StateWorkspace.transferring_to_hpc })
    workspace_at-triggered_site =
        let id = some job.workspace_id in
        ground (
          arith,
          workspace_at-with_workspace id id
              (record ws { state = StateWorkspace.transferring_to_hpc }) s.db ws found_ws
              (id-workspace_at id s.db found_ws),
        )

    submit_job_lem : submit_job env job wf ws m informed ≡ ok tt submitted_site
    unfolding submit_job slurm_job_args
    submit_job_lem =
        let id = some job.job_id in
        let ws_id = some job.workspace_id in
        ground (
          arith,
          prepare_and_trigger_slurm_job_lem env informed args wf.workflow_script_path job ws user
              zip local found_job found_ws found_user packed job.user_id slurm_job_id triggered,
          update_job_state id StateJob.pending triggered_site.db job_at-triggered_site,
          update_workspace_state env.assign_ocrd_mets ws_id StateWorkspace.pending
              (with_job id (record job { job_state = StateJob.pending }) triggered_site.db)
              workspace_at-triggered_site,
        )

    submitted_site-IsSubmitted :
        IsSubmitted s tag job ws slurm_job (finish_message tag submitted_site)
    unfolding finish_message
    submitted_site-IsSubmitted =
        let id = some job.job_id in
        let ws_id = some job.workspace_id in
        let job' : DbWorkflowJob = record job { job_state = StateJob.pending } in
        record {
          returns = refl;
          acked = refl;
          job_state =
              ground
                (arith, job_at-with_job id id job' triggered_site.db _ job_at-triggered_site refl);
          workspace_state = ground (
            arith,
            workspace_at-with_workspace ws_id ws_id (record ws { state = StateWorkspace.pending })
                (with_job id job' triggered_site.db) _ workspace_at-triggered_site
                (id-workspace_at ws_id s.db found_ws),
          );
          slurm_jobs = refl;
          page_stats = refl;
          remembered = refl;
          remembered_workspace = refl;
          idle = refl;
        }

    read_submit_documents_lem :
        workflow_at job.workflow_id s.db ≡ some wf
        → read_submit_documents (record s {
          worker = record s.worker {
            current_message_delivery_tag = some tag;
            has_consumed_message = true;
            current_message_job_id = some job.job_id;
          };
        })
          ≡ ok (job, wf, ws) informed
    unfolding read_submit_documents db_get_workflow
    read_submit_documents_lem found_wf = ground (
      arith,
      found_wf,
      get_job (some job.job_id) s.db job found_job,
      get_workspace (some job.workspace_id) s.db ws found_ws,
    )

    -- A message whose documents the database has, whose workspace reaches the HPC and whose job
    -- the HPC takes, is acknowledged, the job and the workspace become `PENDING`, and the
    -- database gets one slurm job, in the state `UNSET`, with the id that the HPC gave. The
    -- worker keeps the ids of the message.
    pub consumed_msg_callback-IsSubmitted :
        workflow_at job.workflow_id s.db ≡ some wf
        → parse_submit_message (some fields) (begun tag s)
          ≡ ok m (record s {
            worker = record s.worker {
              current_message_delivery_tag = some tag;
              has_consumed_message = true;
              current_message_job_id = some job.job_id;
            };
          })
        → IsSubmitted s tag job ws slurm_job (consumed_msg_callback env tag (some fields) s)
    unfolding consumed_msg_callback
    consumed_msg_callback-IsSubmitted found_wf parsed =
        rw
          (try_then_ok every_exception (parse_submit_message (some fields))
            (handle_submit_failure env false) _ (begun tag s) m _ parsed)
          (rw
            (try_then_ok every_exception read_submit_documents (handle_submit_failure env false) _ _
              (job, wf, ws) informed (read_submit_documents_lem found_wf))
            (rw
              (try_then_ok every_exception (submit_job env job wf ws m)
                (handle_submit_failure env false) (λ _. finish_message tag) informed tt
                submitted_site submit_job_lem)
              submitted_site-IsSubmitted))

-- A job that was submitted is failed by the next message, where that is not JSON, and its
-- workspace is set free; but its slurm job is still in the database, in the state in which it was
-- saved, and so are those from before.
pub submitted_then_malformed :
    (env : Env) (s : Site SubmitWorker) (tag next : ℕ) (job : DbWorkflowJob) (ws : DbWorkspace)
    (slurm_job : DbHpcSlurmJob) (r : Outcome (Site SubmitWorker) (Unit {0}))
    → IsSubmitted s tag job ws slurm_job r
    → IsFailed
        (begun next (state_of r))
        (record job { job_state = StateJob.pending })
        (record ws { state = StateWorkspace.pending })
        (consumed_msg_callback env next none (state_of r))
      × ((state_of (consumed_msg_callback env next none (state_of r))).db.hpc_slurm_jobs
          ≡ s.db.hpc_slurm_jobs ++ slurm_job ∷ [])
submitted_then_malformed env s tag next job ws slurm_job r submitted =
    let failed =
      malformed_message_fails_previous_job env next (state_of r)
        (record job { job_state = StateJob.pending }) (record ws { state = StateWorkspace.pending })
        (rw submitted.remembered submitted.job_state)
        (rw submitted.remembered_workspace submitted.workspace_state) in
    (failed, failed.slurm_jobs ∙ submitted.slurm_jobs)
