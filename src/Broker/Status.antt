-- ===== src/Broker/Status.antt =====
-- src/broker/operandi_broker/job_worker_status.py
pub mod Steps
pub mod Outcome
pub mod Callback
pub mod Consistency
pub mod Settled
use operandi.Common.{
  ℕ, String, Bool, true, false, ◌||◌, Option, none, some, List, [], ◌∷◌, ◌==◌, string_eq, contains,
  if◌then◌else◌, Exec, ok, raised, raise, other, modify, pure, lift, ◌>>=◌, ◌>>◌, every_exception,
  is_value_error,
}
use operandi.Constants.{StateWorkspace}
use operandi.Constants.Slurm.{StateJobSlurm, state_job_slurm_eq}
use operandi.Constants.Job.{
  StateJob, state_job_eq, failed, success, hpc_success, hpc_failed, transferring_from_hpc,
  convert_from_slurm_job,
}
use operandi.Database.Updates.{JobUpdate, SlurmJobUpdate, WorkspaceUpdate}
use operandi.Database.Models.{DbHpcSlurmJob, DbWorkflowJob}
use operandi.Database.HpcSlurmJob.{sync_db_get_hpc_slurm_job, sync_db_update_hpc_slurm_job}
use operandi.Database.WorkflowJob.{sync_db_get_workflow_job, sync_db_update_workflow_job}
use operandi.Database.Workspace.{sync_db_update_workspace}
use operandi.Hpc.Executor.{check_slurm_job_state, check_slurm_job_try_times}
use operandi.Broker.Worker.{
  Body, Worker, Site, Env, message_field, on_db, ack, publish, try_then, begin_message, end_message,
  handle_msg_failure,
}

-- The states in which the status worker leaves the job alone.
abbrev pub settled_states : List StateJob
settled_states = success ∷ failed ∷ transferring_from_hpc ∷ []

-- The `try` block that parses the message.
unfoldable pub parse_status_message : Body → Exec (Site Worker) (Unit {0})
parse_status_message none = lift (raise other)
parse_status_message (some fields) = do
  job_id ← lift (message_field "job_id" fields)
  modify (λ s. record s { worker = record s.worker { current_message_job_id = some job_id } })

-- The `try` block that reads the database.
unfoldable pub read_status_documents : Exec (Site Worker) (DbHpcSlurmJob × DbWorkflowJob)
read_status_documents s =
    (do
      slurm_job ← on_db (sync_db_get_hpc_slurm_job s.worker.current_message_job_id)
      job ← on_db (sync_db_get_workflow_job s.worker.current_message_job_id)
      pure (slurm_job, job))
      s

module _ (env : Env) where
  -- What follows on a new job state of `HPC_SUCCESS` or `HPC_FAILED`.
  unfoldable pub request_download :
      String → Option String → StateJob → Exec (Site Worker) (Unit {0})
  request_download job_id workspace_id new_job_state = do
    on_db (
        sync_db_update_workspace env.assign_ocrd_mets workspace_id
          (WorkspaceUpdate.state StateWorkspace.transferring_from_hpc ∷ []))
    on_db
        (sync_db_update_workflow_job (some job_id) (JobUpdate.job_state transferring_from_hpc ∷ []))
    publish (record { job_id = job_id; previous_job_state = new_job_state })

  unfoldable pub change_job_state :
      DbWorkflowJob → Option String → StateJob → Exec (Site Worker) (Unit {0})
  unfolding request_download
  change_job_state job workspace_id new_job_state =
      if job.job_state == new_job_state
      then pure tt
      else if contains settled_states job.job_state
      then pure tt
      else do
        on_db
            (sync_db_update_workflow_job (some job.job_id) (JobUpdate.job_state new_job_state ∷ []))
        if new_job_state == hpc_success || new_job_state == hpc_failed
            then request_download job.job_id workspace_id new_job_state
            else pure tt

  -- `__handle_hpc_and_workflow_states`, from the new state of the slurm job on.
  unfoldable pub change_slurm_state :
      DbHpcSlurmJob → DbWorkflowJob → Option String → StateJobSlurm → Exec (Site Worker) (Unit {0})
  change_slurm_state slurm_job job workspace_id new_slurm_job_state =
      if slurm_job.hpc_slurm_job_state == new_slurm_job_state then pure tt else do
        on_db (
            sync_db_update_hpc_slurm_job (some job.job_id)
              (SlurmJobUpdate.hpc_slurm_job_state new_slurm_job_state ∷ []))
        new_job_state ← lift (convert_from_slurm_job new_slurm_job_state)
        change_job_state job workspace_id new_job_state

  unfoldable pub handle_hpc_and_workflow_states :
      DbHpcSlurmJob → DbWorkflowJob → Option String → Exec (Site Worker) (Unit {0})
  handle_hpc_and_workflow_states slurm_job job workspace_id = do
    new_slurm_job_state ← lift (
        check_slurm_job_state (env.check_status slurm_job.hpc_slurm_job_id)
          check_slurm_job_try_times)
    change_slurm_state slurm_job job workspace_id new_slurm_job_state

  -- `_consumed_msg_callback`: only a `ValueError` of the last part is caught.
  unfoldable pub consumed_msg_callback : ℕ → Body → Exec (Site Worker) (Unit {0})
  unfolding parse_status_message read_status_documents handle_msg_failure
  consumed_msg_callback tag body = do
    begin_message tag
    try_then every_exception (parse_status_message body) (handle_msg_failure false) λ _.
        try_then every_exception read_status_documents (handle_msg_failure false)
          λ (slurm_job, job).
            try_then is_value_error
              (handle_hpc_and_workflow_states slurm_job job (some job.workspace_id))
              (handle_msg_failure false) λ _. end_message tag
