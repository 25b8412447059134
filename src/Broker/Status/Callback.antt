-- ===== src/Broker/Status/Callback.antt =====
-- What the callback of the status worker does with a message that it can handle.
use operandi.Common.{
  ℕ, ◌≡◌, refl, String, true, false, some, List, [], ◌∷◌, ◌++◌, arith, Exec, Outcome, ok, raised,
  done, raise, state_of, is_ok, is_value_error, every_exception, pure, ◌>>=◌, ◌∙◌, Exc,
}
use operandi.Constants.Slurm.{StateJobSlurm}
use operandi.Database.Models.{DbHpcSlurmJob, DbWorkflowJob, DbWorkspace}
use operandi.Database.HpcSlurmJob.{sync_db_get_hpc_slurm_job}
use operandi.Database.WorkflowJob.{sync_db_get_workflow_job}
use operandi.Database.HpcSlurmJob.Laws.{slurm_job_at, get_slurm_job}
use operandi.Database.WorkflowJob.Laws.{job_at, get_job, id-job_at}
use operandi.Database.Workspace.Laws.{workspace_at}
use operandi.Hpc.Executor.{check_slurm_job_state, check_slurm_job_try_times}
use operandi.Broker.Worker.{
  on_db, Worker, Site, Env, message_field, try_then, end_message, handle_msg_failure,
}
use operandi.Broker.Worker.Steps.{on_db_ok, bind_ok, try_then_ok, try_then_escapes}
use operandi.Broker.Status.{
  change_slurm_state, parse_status_message, read_status_documents, handle_hpc_and_workflow_states,
  consumed_msg_callback,
}
use operandi.Broker.Status.Outcome.{
  state_after, requests_after, workspace_after, Advances, change_slurm_state-Advances,
}

-- The worker while it handles the message of a job.
abbrev begun : ℕ → String → Site Worker → Site Worker
begun tag id s = record s {
  worker = record s.worker {
    current_message_delivery_tag = some tag;
    has_consumed_message = true;
    current_message_job_id = some id;
  };
}

-- What the callback leaves of a message that names a slurm job.
pub record Handled (s : Site Worker) (tag : ℕ) (slurm : DbHpcSlurmJob) (job : DbWorkflowJob)
    (ws : DbWorkspace) (new : StateJobSlurm) (r : Outcome (Site Worker) (Unit {0})) : Type 0 where
  pub returns : is_ok r ≡ true
  pub acked : (state_of r).acked ≡ s.acked ++ some tag ∷ []
  pub published :
      (state_of r).published ≡ s.published ++ requests_after slurm.hpc_slurm_job_state new job
  pub idle : (state_of r).worker.has_consumed_message ≡ false
  pub slurm_state :
      slurm_job_at (some job.job_id) (state_of r).db
      ≡ some (record slurm { hpc_slurm_job_state = new })
  pub job_state :
      job_at (some job.job_id) (state_of r).db
      ≡ some (record job { job_state = state_after slurm.hpc_slurm_job_state new job.job_state })
  pub workspace :
      workspace_at (some job.workspace_id) (state_of r).db
      ≡ some (workspace_after slurm.hpc_slurm_job_state new job.job_state ws)
  pub user_accounts : (state_of r).db.user_accounts ≡ s.db.user_accounts

-- The last `try` of the callback, by what its body does.
Advances-Handled :
    (s b : Site Worker) (tag : ℕ) (slurm : DbHpcSlurmJob) (job : DbWorkflowJob) (ws : DbWorkspace)
    (new : StateJobSlurm) (m : Exec (Site Worker) (Unit {0})) (r : Outcome (Site Worker) (Unit {0}))
    → m b ≡ r
    → b.worker.current_message_delivery_tag ≡ some tag
    → b.acked ≡ s.acked
    → b.published ≡ s.published
    → b.db.user_accounts ≡ s.db.user_accounts
    → Advances b slurm job ws (some job.workspace_id) new r
    → Handled s tag slurm job ws new
        (try_then is_value_error m (handle_msg_failure false) (λ _. end_message tag) b)
unfolding handle_msg_failure
Advances-Handled s b tag slurm job ws new m (ok a t) is_r is_tag same same_published same_accounts
      advances =
    ground (
      arith, advances.slurm_state, advances.job_state, advances.published, advances.acked,
      advances.workspace, advances.user_accounts,
    )
Advances-Handled s b tag slurm job ws new m (raised e t) is_r is_tag same same_published
      same_accounts advances =
    ground (
      arith,
      advances.refused e t refl,
      advances.slurm_state,
      advances.job_state,
      advances.published,
      advances.acked,
      advances.workspace,
      advances.user_accounts,
      advances.worker,
    )

module _ (env : Env) (tag : ℕ) (s : Site Worker) (fields : List (String × String)) (id : String)
    (slurm : DbHpcSlurmJob) (job : DbWorkflowJob) (ws : DbWorkspace) (new : StateJobSlurm) where
  parse_status_message_lem :
      message_field "job_id" fields ≡ done id
      → parse_status_message (some fields) s
        ≡ ok tt (record s { worker = record s.worker { current_message_job_id = some id } })
  unfolding parse_status_message
  parse_status_message_lem has_id = rw has_id refl

  read_status_documents_lem :
      s.worker.current_message_job_id ≡ some id
      → slurm_job_at (some id) s.db ≡ some slurm
      → job_at (some id) s.db ≡ some job
      → read_status_documents s ≡ ok (slurm, job) s
  unfolding read_status_documents
  read_status_documents_lem is_id found_slurm found_job =
      let get₁ = sync_db_get_hpc_slurm_job s.worker.current_message_job_id in
      let get₂ = sync_db_get_workflow_job s.worker.current_message_job_id in
      bind_ok (on_db get₁) (λ slurm'. on_db get₂ >>= λ job'. pure (slurm', job')) s slurm s
        (on_db_ok get₁ s slurm s.db (rw is_id (get_slurm_job (some id) s.db slurm found_slurm)))
      ∙ bind_ok (on_db get₂) (λ job'. pure (slurm, job')) s job s
          (on_db_ok get₂ s job s.db (rw is_id (get_job (some id) s.db job found_job)))

  handle_hpc_and_workflow_states_lem :
      check_slurm_job_state (env.check_status slurm.hpc_slurm_job_id) check_slurm_job_try_times
        ≡ done new
      → handle_hpc_and_workflow_states env slurm job (some job.workspace_id) s
        ≡ change_slurm_state env slurm job (some job.workspace_id) new s
  unfolding handle_hpc_and_workflow_states
  handle_hpc_and_workflow_states_lem answer = rw answer refl

module _ (env : Env) (tag : ℕ) (s : Site Worker) (fields : List (String × String)) (id : String)
    (slurm : DbHpcSlurmJob) (job : DbWorkflowJob) (ws : DbWorkspace) (new : StateJobSlurm) where
  callback-begun :
      message_field "job_id" fields ≡ done id
      → slurm_job_at (some id) s.db ≡ some slurm
      → job_at (some id) s.db ≡ some job
      → consumed_msg_callback env tag (some fields) s
        ≡ try_then is_value_error
            (handle_hpc_and_workflow_states env slurm job (some job.workspace_id))
            (handle_msg_failure false)
            (λ _. end_message tag)
            (begun tag id s)
  unfolding consumed_msg_callback
  callback-begun has_id found_slurm found_job =
      let s₁ = record s {
        worker = record s.worker {
          current_message_delivery_tag = some tag;
          has_consumed_message = true;
        };
      } in
      try_then_ok every_exception (parse_status_message (some fields)) (handle_msg_failure false) _
        s₁ tt (begun tag id s)
        (parse_status_message_lem env tag s₁ fields id slurm job ws new has_id)
      ∙ try_then_ok every_exception read_status_documents (handle_msg_failure false) _
          (begun tag id s) (slurm, job) (begun tag id s)
          (read_status_documents_lem env tag (begun tag id s) fields id slurm job ws new refl
            found_slurm found_job)

  -- A message that names a job whose slurm job has an answer is acknowledged, once, and the slurm
  -- job gets the answered state. The state of the job follows by `state_after`: it stays where
  -- the slurm state is the known one, where it is settled, and where the new slurm state
  -- stands for none; it becomes `TRANSFERRING_FROM_HPC` where the job ended; else it is the
  -- state that the slurm state stands for. Just where the job ended and was in no such state, its
  -- workspace becomes `TRANSFERRING_FROM_HPC` too and one message for the download worker is
  -- published. The accounts stay as they are.
  pub consumed_msg_callback-Handled :
      message_field "job_id" fields ≡ done id
      → slurm_job_at (some id) s.db ≡ some slurm
      → job_at (some id) s.db ≡ some job
      → workspace_at (some job.workspace_id) s.db ≡ some ws
      → check_slurm_job_state (env.check_status slurm.hpc_slurm_job_id) check_slurm_job_try_times
        ≡ done new
      → Handled s tag slurm job ws new (consumed_msg_callback env tag (some fields) s)
  consumed_msg_callback-Handled has_id found_slurm found_job found_ws answer =
      let is_id = id-job_at (some id) s.db found_job in
      let b = begun tag id s in
      rw (callback-begun has_id found_slurm found_job) (
        Advances-Handled s b tag slurm job ws new
          (handle_hpc_and_workflow_states env slurm job (some job.workspace_id))
          (change_slurm_state env slurm job (some job.workspace_id) new b)
          (handle_hpc_and_workflow_states_lem env tag b fields id slurm job ws new answer) refl refl
          refl refl
          (change_slurm_state-Advances env slurm job ws (some job.workspace_id) b new
            (rw is_id found_slurm) (rw is_id found_job) found_ws))

  -- An exception of the status check that is no `ValueError` leaves the callback: the message is
  -- not acknowledged, no document changes, and the worker still counts as handling it.
  pub status_message_escapes :
      (e : Exc)
      → message_field "job_id" fields ≡ done id
      → slurm_job_at (some id) s.db ≡ some slurm
      → job_at (some id) s.db ≡ some job
      → check_slurm_job_state (env.check_status slurm.hpc_slurm_job_id) check_slurm_job_try_times
        ≡ raise e
      → is_value_error e ≡ false
      → consumed_msg_callback env tag (some fields) s ≡ raised e (begun tag id s)
  unfolding handle_hpc_and_workflow_states
  status_message_escapes e has_id found_slurm found_job answer escapes =
      callback-begun has_id found_slurm found_job
      ∙ try_then_escapes is_value_error
          (handle_hpc_and_workflow_states env slurm job (some job.workspace_id))
          (handle_msg_failure false) _ (begun tag id s) e (begun tag id s) (rw answer refl) escapes
