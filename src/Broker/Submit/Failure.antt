-- ===== src/Broker/Submit/Failure.antt =====
-- What a failure of the submit worker leaves behind, and whose job it fails.
use operandi.Common.{
  ℕ, ◌≡◌, refl, ◌∙◌, true, false, none, some, [], ◌∷◌, ◌++◌, arith, option_eq, string_eq, Exec, Exc,
  Outcome, raised, other, runtime_error, ◌>>=◌, every_exception, state_of, is_ok,
}
use operandi.Constants.{StateWorkspace}
use operandi.Constants.Job.{StateJob}
use operandi.Database.Models.{DbWorkspace, DbWorkflowJob}
use operandi.Database.Updates.{JobUpdate}
use operandi.Database.WorkflowJob.Laws.{
  job_at, with_job, id-job_at, job_at-with_job, update_job_state, update_missing_job,
}
use operandi.Database.Workspace.Laws.{
  workspace_at, id-workspace_at, workspace_at-with_workspace, update_workspace_state,
}
use operandi.Broker.Worker.{Body, Site, Env, try_then}
use operandi.Broker.Worker.Steps.{try_then_merge, try_then_caught}
use operandi.Broker.Submit.{
  SubmitWorker, parse_submit_message, read_submit_documents, submit_job, handle_submit_failure,
  finish_message, consumed_msg_callback,
}

-- The worker with the message at hand; the ids are still those of the message before.
abbrev pub begun : ℕ → Site SubmitWorker → Site SubmitWorker
begun tag s = record s {
  worker = record s.worker { current_message_delivery_tag = some tag; has_consumed_message = true };
}

-- The bodies of the three `try` blocks, one after the other.
abbrev pub submit_message : Env → Body → Exec (Site SubmitWorker) (Unit {0})
submit_message env body = do
  m ← parse_submit_message body
  (job, wf, ws) ← read_submit_documents
  submit_job env job wf ws m

-- The failure is recorded: the job is failed, the workspace free again, the message acknowledged.
pub record IsFailed (t : Site SubmitWorker) (job : DbWorkflowJob) (ws : DbWorkspace)
    (r : Outcome (Site SubmitWorker) (Unit {0})) : Type 0 where
  pub returns : is_ok r ≡ true
  pub acked : (state_of r).acked ≡ t.acked ++ t.worker.current_message_delivery_tag ∷ []
  pub job_state :
      job_at t.worker.current_message_job_id (state_of r).db
      ≡ some (record job { job_state = StateJob.failed })
  pub workspace_state :
      workspace_at t.worker.current_message_ws_id (state_of r).db
      ≡ some (record ws { state = StateWorkspace.ready })
  pub slurm_jobs : (state_of r).db.hpc_slurm_jobs ≡ t.db.hpc_slurm_jobs
  pub forgotten : (state_of r).worker ≡ record {
    has_consumed_message = false;
    current_message_delivery_tag = none;
    current_message_job_id = none;
    current_message_user_id = none;
    current_message_wf_id = none;
    current_message_ws_id = none;
    test_sbatch = t.worker.test_sbatch;
  }

module _ (env : Env) where
  -- The three `try` blocks of the callback have the same handler, so they act as one block does.
  pub callback-submit_message :
      (tag : ℕ) (body : Body) (s : Site SubmitWorker)
      → consumed_msg_callback env tag body s
        ≡ try_then every_exception
            (submit_message env body)
            (handle_submit_failure env false)
            (λ _. finish_message tag)
            (begun tag s)
  unfolding consumed_msg_callback
  callback-submit_message tag body s =
      try_then_merge (parse_submit_message body)
        (λ m. read_submit_documents >>= λ (job, wf, ws). submit_job env job wf ws m)
        (handle_submit_failure env false) _ (λ _. finish_message tag) (begun tag s)
        λ m t.
          try_then_merge read_submit_documents (λ (job, wf, ws). submit_job env job wf ws m)
            (handle_submit_failure env false) _ (λ _. finish_message tag) t λ d u. refl

  handle_submit_failure-IsFailed :
      (t : Site SubmitWorker) (job : DbWorkflowJob) (ws : DbWorkspace)
      → job_at t.worker.current_message_job_id t.db ≡ some job
      → workspace_at t.worker.current_message_ws_id t.db ≡ some ws
      → IsFailed t job ws (handle_submit_failure env false t)
  unfolding handle_submit_failure
  handle_submit_failure-IsFailed t job ws found_job found_ws =
      let id = t.worker.current_message_job_id in
      let ws_id = t.worker.current_message_ws_id in
      let db₁ = with_job id (record job { job_state = StateJob.failed }) t.db in
      ground (
        arith,
        update_job_state id StateJob.failed t.db found_job,
        update_workspace_state env.assign_ocrd_mets ws_id StateWorkspace.ready db₁ found_ws,
        job_at-with_job id id (record job { job_state = StateJob.failed }) t.db job found_job
            (id-job_at id t.db found_job),
        workspace_at-with_workspace ws_id ws_id (record ws { state = StateWorkspace.ready }) db₁ ws
            found_ws (id-workspace_at ws_id t.db found_ws),
      )

  -- Where any of the three `try` blocks of the callback raises, the job and the workspace whose
  -- ids the worker has by then become `FAILED` and `READY`, the message is acknowledged, and the
  -- worker forgets the ids. The slurm jobs stay as they are.
  pub submit_message_fails :
      (tag : ℕ) (body : Body) (s t : Site SubmitWorker) (e : Exc) (job : DbWorkflowJob)
      (ws : DbWorkspace)
      → submit_message env body (begun tag s) ≡ raised e t
      → job_at t.worker.current_message_job_id t.db ≡ some job
      → workspace_at t.worker.current_message_ws_id t.db ≡ some ws
      → IsFailed t job ws (consumed_msg_callback env tag body s)
  submit_message_fails tag body s t e job ws stops found_job found_ws =
      rw (callback-submit_message tag body s) (
        rw
          (try_then_caught every_exception (submit_message env body)
            (handle_submit_failure env false) (λ _. finish_message tag) (begun tag s) e t stops
            refl)
          (handle_submit_failure-IsFailed t job ws found_job found_ws))

  -- A message that is not JSON fails the job of the message before: after a message that
  -- succeeded the worker still has its ids, so that job becomes `FAILED` and its workspace
  -- `READY`.
  pub malformed_message_fails_previous_job :
      (tag : ℕ) (s : Site SubmitWorker) (job : DbWorkflowJob) (ws : DbWorkspace)
      → job_at s.worker.current_message_job_id s.db ≡ some job
      → workspace_at s.worker.current_message_ws_id s.db ≡ some ws
      → IsFailed (begun tag s) job ws (consumed_msg_callback env tag none s)
  unfolding parse_submit_message
  malformed_message_fails_previous_job tag s job ws found_job found_ws =
      submit_message_fails tag none s (begun tag s) other job ws refl found_job found_ws

  -- With no job that it knows, the worker cannot refuse such a message: the handler itself
  -- raises, and the message is not acknowledged.
  pub malformed_message_unacked :
      (tag : ℕ) (s : Site SubmitWorker)
      → job_at s.worker.current_message_job_id s.db ≡ none
      → consumed_msg_callback env tag none s ≡ raised runtime_error (begun tag s)
  unfolding parse_submit_message handle_submit_failure
  malformed_message_unacked tag s missing =
      callback-submit_message tag none s
      ∙ ground (
        arith,
        update_missing_job s.worker.current_message_job_id
            (JobUpdate.job_state StateJob.failed ∷ []) s.db missing,
      )
