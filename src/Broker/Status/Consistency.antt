-- ===== src/Broker/Status/Consistency.antt =====
-- The callback of the status worker keeps the database consistent, whatever message it gets.
use operandi.Common.{
  ℕ, ◌≡◌, sym, subst, String, ◌||◌, Option, none, some, List, [], ◌∷◌, ◌++◌, ◌==◌, string_eq,
  contains, pure, every_exception, is_value_error, Ensures, Ensures-pure, Ensures-lift, Ensures-if,
  Ensures-map, Ensures-bind,
}
use operandi.Constants.Slurm.{StateJobSlurm, state_job_slurm_eq}
use operandi.Constants.Job.{
  StateJob, state_job_eq, hpc_success, hpc_failed, transferring_from_hpc, convert_from_slurm_job,
}
use operandi.Database.Models.{DbHpcSlurmJob, DbWorkflowJob}
use operandi.Database.WorkflowJob.{sync_db_get_workflow_job}
use operandi.Database.Consistency.Operations.{
  Knows, update_slurm_job_state-Keeps, update_job_state-Keeps, update_workspace-Keeps,
  get_job-Ensures, get_slurm_job-Ensures, Knows-tail, Knows-tail_slurm_job,
}
use operandi.Hpc.Executor.{check_slurm_job_state, check_slurm_job_try_times}
use operandi.Broker.Worker.{Body, Worker, Env, message_field, on_db, begin_message, end_message}
use operandi.Broker.Worker.Rules.{Ensures-on_db, Ensures-try_then}
use operandi.Broker.Worker.Sound.{
  asked, handle_msg_failure-Sounds, Sound, Sounds, Sounds-on_db, Sounds-publish, Sounds-bind,
}
use operandi.Broker.Status.{
  settled_states, parse_status_message, read_status_documents, request_download, change_job_state,
  change_slurm_state, handle_hpc_and_workflow_states, consumed_msg_callback,
}

module _ (env : Env) (id : String) (js ks : List (Option String)) where
  request_download-Sounds :
      (workspace_id : Option String) (v : StateJob)
      → Sounds js (some id ∷ ks) (request_download env id workspace_id v)
  unfolding request_download
  request_download-Sounds workspace_id v =
      let ks' = some id ∷ ks in
      Sounds-bind js ks' _ _
        (Sounds-on_db js ks' _ (λ more. update_workspace-Keeps env.assign_ocrd_mets workspace_id _))
        (λ _.
          Sounds-bind js ks' _ _
            (Sounds-on_db js ks' _ (λ more.
              update_job_state-Keeps (some id) transferring_from_hpc
                (λ db known _. known.slurm_jobs.0)))
            (λ _. Sounds-publish js ks _))

module _ (env : Env) (job : DbWorkflowJob) (workspace_id : Option String)
    (js ks : List (Option String)) where
  change_job_state-Sounds :
      (v : StateJob) → Sounds js (some job.job_id ∷ ks) (change_job_state env job workspace_id v)
  unfolding change_job_state
  change_job_state-Sounds v =
      let ks' = some job.job_id ∷ ks in
      let stays : Sounds js ks' (pure tt) = Ensures-pure tt (λ s p. p) in
      Ensures-if (job.job_state == v) _ _ (λ _. stays)
        (λ _.
          Ensures-if (contains settled_states job.job_state) _ _ (λ _. stays)
            (λ _.
              Sounds-bind js ks' _ _
                (Sounds-on_db js ks' _ (λ more.
                  update_job_state-Keeps (some job.job_id) v (λ db known _. known.slurm_jobs.0)))
                (λ _.
                  Ensures-if (v == hpc_success || v == hpc_failed) _ _
                    (λ _. request_download-Sounds env job.job_id js ks workspace_id v)
                    (λ _. stays))))

  change_slurm_state-Sounds :
      (slurm : DbHpcSlurmJob) (v : StateJobSlurm)
      → Sounds js (some job.job_id ∷ ks) (change_slurm_state env slurm job workspace_id v)
  unfolding change_slurm_state
  change_slurm_state-Sounds slurm v =
      let ks' = some job.job_id ∷ ks in
      Ensures-if (slurm.hpc_slurm_job_state == v) _ _ (λ _. Ensures-pure tt (λ s p. p))
        (λ _.
          Sounds-bind js ks' _ _
            (Sounds-on_db js ks' _ (λ more. update_slurm_job_state-Keeps (some job.job_id) v))
            (λ _.
              Sounds-bind js ks' _ _
                (Ensures-lift (convert_from_slurm_job v) (λ _ _ s p. p) (λ s p. p))
                change_job_state-Sounds))

  handle_hpc_and_workflow_states-Sounds :
      (slurm : DbHpcSlurmJob)
      → Sounds js (some job.job_id ∷ ks) (handle_hpc_and_workflow_states env slurm job workspace_id)
  unfolding handle_hpc_and_workflow_states
  handle_hpc_and_workflow_states-Sounds slurm =
      Sounds-bind js (some job.job_id ∷ ks) _ _
        (Ensures-lift
          (check_slurm_job_state (env.check_status slurm.hpc_slurm_job_id)
            check_slurm_job_try_times)
          (λ _ _ s p. p) (λ s p. p))
        (change_slurm_state-Sounds slurm)

module _ (js ks : List (Option String)) where
  parse_status_message-Sounds : (body : Body) → Sounds js ks (parse_status_message body)
  unfolding parse_status_message
  parse_status_message-Sounds none = record { at = λ s p. p }
  parse_status_message-Sounds (some fields) =
      Sounds-bind js ks _ _ (Ensures-lift (message_field "job_id" fields) (λ _ _ s p. p) (λ s p. p))
        (λ _. record { at = λ s p. p })

  -- The slurm job of the job that was read is there.
  read_status_documents-Ensures :
      Ensures
        (Sound js ks)
        read_status_documents
        (λ (slurm, job). Sound (some job.job_id ∷ js) (some job.job_id ∷ ks))
        (Sound js ks)
  unfolding read_status_documents
  read_status_documents-Ensures = record {
    at = λ s p.
        let id = s.worker.current_message_job_id in
        let read_job : Ensures (Sound js (id ∷ ks))
            (on_db {W = Worker} (sync_db_get_workflow_job id))
            (λ job t.
              Knows (some job.job_id ∷ js) (id ∷ ks ++ asked t.published) t.db
              × (some job.job_id ≡ id))
            (Sound js ks) =
          Ensures-map _
            (Ensures-on_db {W = Worker} _
              (λ t. get_job-Ensures {js = js} {ks = id ∷ ks ++ asked t.published} id))
            (λ t q. q) (λ job t q. q) (λ t q. Knows-tail_slurm_job id t.db q) in
        let reads =
          Ensures-bind (λ _. Sound js (id ∷ ks)) {P = Sound js ks} _ _
            (Ensures-on_db _ (λ t. get_slurm_job-Ensures id))
            (λ slurm. Ensures-bind _ _ _ read_job (λ job.
              Ensures-pure (slurm, job)
                (λ t q.
                  subst (λ k. Knows (some job.job_id ∷ js) (k ∷ ks ++ asked t.published) t.db)
                    (sym q.1) q.0))) in
        reads.at s p;
  }

module _ (env : Env) where
  -- Whatever the message and whatever the HPC answers: after the callback, also where it raises,
  -- every slurm job belongs to a job, every job that was submitted has a slurm job, and so has
  -- every job that a message for the download worker names, if that was so before.
  pub consumed_msg_callback-Sounds :
      (tag : ℕ) (body : Body) → Sounds [] [] (consumed_msg_callback env tag body)
  unfolding consumed_msg_callback
  consumed_msg_callback-Sounds tag body =
      let failure = handle_msg_failure-Sounds [] [] in
      Sounds-bind [] [] (begin_message tag) _ (record { at = λ s p. p })
        (λ _.
          Ensures-try_then (λ _. Sound [] []) every_exception _ _ _
            (parse_status_message-Sounds [] [] body) (λ t p. p) failure
            (λ _.
              Ensures-try_then _ every_exception _ _ _ (read_status_documents-Ensures [] [])
                (λ t p. p) failure
                (λ (slurm, job).
                  let id = some job.job_id in
                  Ensures-map {P = Sound (id ∷ []) (id ∷ [])} _
                    (Ensures-try_then (λ _. Sound (id ∷ []) (id ∷ [])) is_value_error _ _
                      (λ _. end_message tag)
                      (handle_hpc_and_workflow_states-Sounds env job (some job.workspace_id)
                        (id ∷ []) [] slurm)
                      (λ t p. p) (handle_msg_failure-Sounds (id ∷ []) (id ∷ []))
                      (λ _. record { at = λ s p. p }))
                    (λ t p. p) (λ _ t p. Knows-tail id id t.db p)
                    (λ t p. Knows-tail id id t.db p))))
