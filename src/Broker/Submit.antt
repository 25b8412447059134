-- ===== src/Broker/Submit.antt =====
-- src/broker/operandi_broker/job_worker_submit.py
pub mod Failure
pub mod Success
pub mod Callback
pub mod Consistency
use operandi.Common.{
  ℕ, String, Bool, true, false, Option, none, some, List, [], ◌∷◌, ◌==◌, string_eq, if◌then◌else◌,
  Exec, Outcome, ok, raised, raise, done, Result, other, value_error, modify, pure, lift, ◌>>=◌,
  ◌>>◌, every_exception, path_name, join, codes, text_of, int_of,
}
use operandi.Constants.{StateWorkspace}
use operandi.Constants.Slurm.{unset}
use operandi.Constants.Job.{StateJob}
use operandi.Database.Updates.{JobUpdate, WorkspaceUpdate}
use operandi.Database.Models.{Db, DbUserAccount, DbWorkflow, DbWorkflowJob, DbWorkspace}
use operandi.Database.HpcSlurmJob.{sync_db_create_hpc_slurm_job}
use operandi.Database.UserAccount.{sync_db_get_user_account}
use operandi.Database.Workflow.{sync_db_get_workflow}
use operandi.Database.WorkflowJob.{sync_db_get_workflow_job, sync_db_update_workflow_job}
use operandi.Database.Workspace.{sync_db_get_workspace, sync_db_update_workspace}
use operandi.Database.ProcessingStats.{sync_db_create_page_stat}
use operandi.Hpc.Executor.{SlurmJobArgs, trigger_slurm_job}
use operandi.Hpc.Transfer.{pack_and_put_slurm_workspace}
use operandi.Broker.Worker.{Body, Site, Env, message_field, on_db, on_local, ack, try_then}

pub record SubmitWorker : Type 0 where
  pub has_consumed_message : Bool
  pub current_message_delivery_tag : Option ℕ
  pub current_message_job_id : Option String
  pub current_message_user_id : Option String
  pub current_message_wf_id : Option String
  pub current_message_ws_id : Option String
  pub test_sbatch : Bool

-- What the callback keeps of the message.
pub record SubmitMessage : Type 0 where
  pub input_file_grp : String
  pub remove_file_grps : String
  pub partition : String
  pub cpus : ℕ
  pub ram : ℕ

-- `int(consumed_message[key])`
abbrev pub int_field : String → List (String × String) → Result ℕ
int_field key fields = elim (message_field key fields) [
  | raise e ↦ raise e
  | done v ↦ elim (int_of (codes v)) [ none ↦ raise value_error | some n ↦ done n ]
]

-- The `try` block that parses the message.
unfoldable pub parse_submit_message : Body → Exec (Site SubmitWorker) SubmitMessage
parse_submit_message none = lift (raise other)
parse_submit_message (some fields) = do
  job_id ← lift (message_field "job_id" fields)
  modify (λ s. record s { worker = record s.worker { current_message_job_id = some job_id } })
  input_file_grp ← lift (message_field "input_file_grp" fields)
  remove_file_grps ← lift (message_field "remove_file_grps" fields)
  partition ← lift (message_field "partition" fields)
  cpus ← lift (int_field "cpus" fields)
  ram ← lift (int_field "ram" fields)
  pure (record {
    input_file_grp = input_file_grp;
    remove_file_grps = remove_file_grps;
    partition = partition;
    cpus = cpus;
    ram = ram;
  })

abbrev pub set_ids : DbWorkflowJob → SubmitWorker → SubmitWorker
set_ids job w = record w {
  current_message_user_id = some job.user_id;
  current_message_wf_id = some job.workflow_id;
  current_message_ws_id = some job.workspace_id;
}

-- The `try` block that reads the database.
unfoldable pub read_submit_documents :
    Exec (Site SubmitWorker) (DbWorkflowJob × DbWorkflow × DbWorkspace)
read_submit_documents s =
    (do
      job ← on_db (sync_db_get_workflow_job s.worker.current_message_job_id)
      modify (λ t. record t { worker = set_ids job t.worker })
      wf ← on_db (sync_db_get_workflow job.workflow_id)
      ws ← on_db (sync_db_get_workspace (some job.workspace_id))
      pure (job, wf, ws))
      s

-- `mets_basename` of the workspace, or its default.
unfoldable pub mets_basename_of : Option String → String
mets_basename_of none = "mets.xml"
mets_basename_of (some mets_basename) = if mets_basename == "" then "mets.xml" else mets_basename

-- The arguments of `trigger_slurm_job`. The forks are as many as the cpus.
unfoldable pub slurm_job_args :
    Bool → String → DbWorkflow → DbWorkspace → String → SubmitMessage → SlurmJobArgs
unfolding mets_basename_of path_name
slurm_job_args test_sbatch job_id wf ws workspace_id m = record {
  workflow_job_id = job_id;
  nextflow_script_name = path_name wf.workflow_script_path;
  input_file_grp = m.input_file_grp;
  workspace_id = workspace_id;
  mets_basename = mets_basename_of ws.mets_basename;
  nf_process_forks = m.cpus;
  ws_pages_amount = ws.pages_amount;
  use_mets_server = wf.uses_mets_server;
  nf_executable_steps = wf.executable_steps;
  file_groups_to_remove = m.remove_file_grps;
  cpus = m.cpus;
  ram = m.ram;
  job_deadline_time = if test_sbatch then "00:30:00" else "48:00:00";
  partition = m.partition;
  qos = if test_sbatch then "2h" else "48h";
}

-- `except Exception as error: raise Exception(…)`
abbrev pub reraise {ℓ κ} : {S : Type ℓ} {A : Type κ} → Exec S A → Exec S A
reraise m s = elim (m s) [ ok a t ↦ ok a t | raised e t ↦ raised other t ]

-- The last lines of the callback.
unfoldable pub finish_message : ℕ → Exec (Site SubmitWorker) (Unit {0})
finish_message tag = do
  modify (λ s. record s { worker = record s.worker { has_consumed_message = false } })
  ack (some tag)

module _ (env : Env) where
  -- The first `try` block of `prepare_and_trigger_slurm_job`.
  unfoldable pub prepare_slurm_workspace :
      String → String → String → String → Exec (Site SubmitWorker) (DbWorkspace × DbUserAccount)
  prepare_slurm_workspace job_id workspace_id workspace_dir script_path = do
    ws ← on_db (
        sync_db_update_workspace env.assign_ocrd_mets (some workspace_id)
          (WorkspaceUpdate.state StateWorkspace.transferring_to_hpc ∷ []))
    on_db (
        sync_db_update_workflow_job (some job_id)
          (JobUpdate.job_state StateJob.transferring_to_hpc ∷ []))
    on_local (pack_and_put_slurm_workspace env.sftp workspace_dir job_id script_path)
    user ← on_db (sync_db_get_user_account ws.user_id)
    pure (ws, user)

  -- The second: where the job is not triggered, its pages are counted as failed.
  unfoldable pub trigger_or_count : SlurmJobArgs → DbWorkspace → DbUserAccount → Exec Db String
  trigger_or_count args ws user db = elim (trigger_slurm_job env.execute_submit args) [
    | done slurm_job_id ↦ ok (text_of slurm_job_id) db
    | raise e ↦
        (do
          sync_db_create_page_stat env.now (record {
            stat_type = "failed";
            quantity = args.ws_pages_amount;
            institution_id = user.institution_id;
            user_id = ws.user_id;
            workspace_id = args.workspace_id;
            workflow_job_id = some args.workflow_job_id;
          })
          lift (raise other))
          db
  ]

  -- The third: `user_id` is a `str` of the model, so a missing one is refused.
  unfoldable pub save_slurm_job : Option String → String → String → Exec Db (Unit {0})
  save_slurm_job none job_id slurm_job_id = lift (raise other)
  save_slurm_job (some user_id) job_id slurm_job_id = do
    sync_db_create_hpc_slurm_job env.now user_id job_id slurm_job_id
        (join env.sftp.batch_scripts_dir "batch_submit_workflow_job.sh")
        (join env.sftp.slurm_workspaces_dir job_id) unset "HPCSlurmJob"
    pure tt

  unfoldable pub prepare_and_trigger_slurm_job :
      Option String → SlurmJobArgs → String → String → Exec (Site SubmitWorker) String
  prepare_and_trigger_slurm_job user_id args workspace_dir script_path = do
    (ws, user) ←
        reraise
          (prepare_slurm_workspace args.workflow_job_id args.workspace_id workspace_dir script_path)
    slurm_job_id ← on_db (trigger_or_count args ws user)
    reraise (on_db (save_slurm_job user_id args.workflow_job_id slurm_job_id))
    pure slurm_job_id

  -- The last `try` block of the callback. The job was found by the current job id, so it has that
  -- id.
  unfoldable pub submit_job :
      DbWorkflowJob → DbWorkflow → DbWorkspace → SubmitMessage → Exec (Site SubmitWorker) (Unit {0})
  unfolding slurm_job_args
  submit_job job wf ws m s =
      (do
        prepare_and_trigger_slurm_job s.worker.current_message_user_id
            (slurm_job_args s.worker.test_sbatch job.job_id wf ws job.workspace_id m)
            ws.workspace_dir wf.workflow_script_path
        on_db (
            sync_db_update_workflow_job s.worker.current_message_job_id
              (JobUpdate.job_state StateJob.pending ∷ []))
        on_db (
            sync_db_update_workspace env.assign_ocrd_mets s.worker.current_message_ws_id
              (WorkspaceUpdate.state StateWorkspace.pending ∷ []))
        pure tt)
        s

  -- The documents that a failure changes.
  unfoldable pub fail_documents : Exec (Site SubmitWorker) (Unit {0})
  fail_documents s =
      (do
        on_db (
            sync_db_update_workflow_job s.worker.current_message_job_id
              (JobUpdate.job_state StateJob.failed ∷ []))
        modify (λ t. record t { worker = record t.worker { has_consumed_message = false } })
        on_db (
            sync_db_update_workspace env.assign_ocrd_mets s.worker.current_message_ws_id
              (WorkspaceUpdate.state StateWorkspace.ready ∷ []))
        ack s.worker.current_message_delivery_tag)
        s

  -- `_handle_msg_failure`, whose argument is `interruption`.
  unfoldable pub handle_submit_failure : Bool → Exec (Site SubmitWorker) (Unit {0})
  unfolding fail_documents
  handle_submit_failure true = fail_documents
  handle_submit_failure false = do
    fail_documents
    modify (λ t. record t {
      worker = record t.worker {
        current_message_delivery_tag = none;
        current_message_job_id = none;
        current_message_user_id = none;
        current_message_wf_id = none;
        current_message_ws_id = none;
      };
    })

  -- `_consumed_msg_callback`
  unfoldable pub consumed_msg_callback : ℕ → Body → Exec (Site SubmitWorker) (Unit {0})
  consumed_msg_callback tag body = do
    modify (λ s. record s {
      worker = record s.worker {
        current_message_delivery_tag = some tag;
        has_consumed_message = true;
      };
    })
    try_then every_exception (parse_submit_message body) (handle_submit_failure false) λ m.
        try_then every_exception read_submit_documents (handle_submit_failure false)
          λ (job, wf, ws).
            try_then every_exception (submit_job job wf ws m) (handle_submit_failure false)
              λ _. finish_message tag
