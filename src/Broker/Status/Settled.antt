-- ===== src/Broker/Status/Settled.antt =====
-- The status worker leaves the document of a settled job alone.
use operandi.Common.{
  ℕ, ◌≡◌, ◌≢◌, sym, ap, subst, ◌∙◌, arith, String, true, false, ◌||◌, Option, none, some, [], ◌∷◌,
  ◌==◌, ==_iff, string_eq, option_eq, contains, some-injective, Exec, state_of, Result, raise,
  other, pure, lift, ◌>>=◌, every_exception, is_value_error, Option-cases, inl, inr, Post-state_of,
  state_of-Post, Ensures, Ensures-pure, Ensures-lift, Ensures-if, Ensures-bind,
}
use operandi.Constants.Slurm.{state_job_slurm_eq}
use operandi.Constants.Job.{
  StateJob, state_job_eq, hpc_success, hpc_failed, transferring_from_hpc, convert_from_slurm_job,
}
use operandi.Database.Updates.{JobUpdate}
use operandi.Database.Models.{Db, DbHpcSlurmJob, DbWorkflowJob}
use operandi.Database.HpcSlurmJob.{db_get_hpc_slurm_job, db_update_hpc_slurm_job}
use operandi.Database.WorkflowJob.{db_get_workflow_job, db_update_workflow_job}
use operandi.Database.WorkflowJob.Laws.{
  job_at, job_at-with_job, id-job_at, update_job_state, update_missing_job, get_job,
  get_missing_job,
}
use operandi.Database.Workspace.{db_update_workspace}
use operandi.Hpc.Executor.{check_slurm_job_state, check_slurm_job_try_times}
use operandi.Broker.Worker.{
  Body, Worker, Site, Env, message_field, on_db, begin_message, end_message, handle_msg_failure,
}
use operandi.Broker.Worker.Rules.{Ensures-on_db, Ensures-try_then}
use operandi.Broker.Status.{
  settled_states, parse_status_message, read_status_documents, request_download, change_job_state,
  change_slurm_state, handle_hpc_and_workflow_states, consumed_msg_callback,
}

module _ (id : String) (job : DbWorkflowJob) where
  abbrev Stands : Db → Type 0
  Stands db = job_at (some id) db ≡ some job

  -- The action leaves the document of the job as it is.
  abbrev Leaves : {A : Type 0} → Exec (Site Worker) A → Type 0
  Leaves m = Ensures (λ s. Stands s.db) m (λ _ s. Stands s.db) (λ s. Stands s.db)

  -- An action that changes no job.
  Leaves-on_db :
      {A : Type 0} (m : Exec Db A)
      → ((db : Db) → (state_of (m db)).workflow_jobs ≡ db.workflow_jobs)
      → Leaves (on_db m)
  Leaves-on_db m same = Ensures-on_db m (λ s. record {
    at = λ db h. Post-state_of Stands (m db) (
        subst (λ ds. job_at (some id) (record db { workflow_jobs = ds }) ≡ some job) (sym (same db))
          h);
  })

  Leaves-bind :
      {A B : Type 0} (m : Exec (Site Worker) A) (f : A → Exec (Site Worker) B)
      → Leaves m
      → ((a : A) → Leaves (f a))
      → Leaves (m >>= f)
  Leaves-bind m f h k = Ensures-bind (λ _ s. Stands s.db) m f h k

  -- The update of another job.
  update_other_job :
      (k : String) (v : StateJob)
      → k ≢ id
      → Leaves (on_db (db_update_workflow_job (some k) (JobUpdate.job_state v ∷ [])))
  update_other_job k v other_id =
      Ensures-on_db (db_update_workflow_job (some k) (JobUpdate.job_state v ∷ [])) (λ s. record {
        at = λ db h. elim (Option-cases (job_at (some k) db)) [
          | inl missing ↦ rw (update_missing_job (some k) (JobUpdate.job_state v ∷ []) db missing) h
          | inr (found_job, found) ↦ rw (update_job_state (some k) v db found) (
              ground (
                arith,
                job_at-with_job (some k) (some id) (record found_job { job_state = v }) db found_job
                    found (id-job_at (some k) db found),
                ==_iff (some id) (some k),
                h,
              ))
        ];
      })

module _ (env : Env) (id : String) (job : DbWorkflowJob)
    (settled : contains settled_states job.job_state ≡ true) where
  lift-Leaves : {A : Type 0} (r : Result A) → Leaves id job (lift r)
  lift-Leaves r = Ensures-lift r (λ _ _ s p. p) (λ s p. p)

  module _ (j : DbWorkflowJob) (workspace_id : Option String) (same : j.job_id ≡ id → j ≡ job) where
    -- A job that is not settled is another one.
    unsettled-ne : contains settled_states j.job_state ≡ false → j.job_id ≢ id
    unsettled-ne unsettled is_id =
        let e : contains settled_states j.job_state ≡ true =
          ap (λ (d : DbWorkflowJob). contains settled_states d.job_state) (same is_id) ∙ settled in
        ground (arith, e, unsettled)

    request_download-Leaves :
        (v : StateJob)
        → j.job_id ≢ id
        → Leaves id job (request_download env j.job_id workspace_id v)
    unfolding request_download db_update_workspace
    request_download-Leaves v other_id =
        Leaves-bind id job _ _ (Leaves-on_db id job _ (λ db. ground arith)) (λ _.
          Leaves-bind id job _ _ (update_other_job id job j.job_id transferring_from_hpc other_id)
            (λ _. record { at = λ s p. p }))

    change_job_state-Leaves : (v : StateJob) → Leaves id job (change_job_state env j workspace_id v)
    unfolding change_job_state
    change_job_state-Leaves v =
        let stays : Leaves id job (pure tt) = Ensures-pure tt (λ s p. p) in
        Ensures-if (j.job_state == v) _ _ (λ _. stays)
          (λ _.
            Ensures-if (contains settled_states j.job_state) _ _ (λ _. stays)
              (λ unsettled.
                let other_id = unsettled-ne unsettled in
                Leaves-bind id job _ _ (update_other_job id job j.job_id v other_id) (λ _.
                  Ensures-if (v == hpc_success || v == hpc_failed) _ _
                    (λ _. request_download-Leaves v other_id) (λ _. stays))))

    handle_hpc_and_workflow_states-Leaves :
        (slurm : DbHpcSlurmJob)
        → Leaves id job (handle_hpc_and_workflow_states env slurm j workspace_id)
    unfolding handle_hpc_and_workflow_states change_slurm_state db_update_hpc_slurm_job
    handle_hpc_and_workflow_states-Leaves slurm =
        Leaves-bind id job _ _
          (lift-Leaves (
            check_slurm_job_state (env.check_status slurm.hpc_slurm_job_id)
              check_slurm_job_try_times))
          (λ v.
            Ensures-if (slurm.hpc_slurm_job_state == v) _ _ (λ _. Ensures-pure tt (λ s p. p))
              (λ _. Leaves-bind id job _ _ (Leaves-on_db id job _ (λ db. ground arith)) (λ _.
                Leaves-bind id job _ _ (lift-Leaves (convert_from_slurm_job v))
                  change_job_state-Leaves)))

  -- What is read under the id is the job.
  read_job-Ensures :
      (k : Option String)
      → Ensures
          (λ s. Stands id job s.db)
          (on_db {W = Worker} (db_get_workflow_job k))
          (λ j s. Stands id job s.db × (j.job_id ≡ id → j ≡ job))
          (λ s. Stands id job s.db)
  read_job-Ensures k = Ensures-on_db (db_get_workflow_job k) (λ s. record {
    at = λ db h. elim (Option-cases (job_at k db)) [
      | inl missing ↦ rw (get_missing_job k db missing) h
      | inr (j, found) ↦ rw (get_job k db j found) (
        h,
        λ is_id.
            let key : k ≡ some id = sym (id-job_at k db found) ∙ ap some is_id in
            let e : some j ≡ some job = sym (subst (λ i. job_at i db ≡ some j) key found) ∙ h in
            some-injective j job e,
      )
    ];
  })

  parse_status_message-Leaves : (body : Body) → Leaves id job (parse_status_message body)
  unfolding parse_status_message
  parse_status_message-Leaves none = lift-Leaves (raise other)
  parse_status_message-Leaves (some fields) =
      Leaves-bind id job _ _ (lift-Leaves (message_field "job_id" fields))
        (λ _. record { at = λ s p. p })

  read_status_documents-Ensures :
      Ensures
        (λ s. Stands id job s.db)
        read_status_documents
        (λ (slurm, j) s. Stands id job s.db × (j.job_id ≡ id → j ≡ job))
        (λ s. Stands id job s.db)
  unfolding read_status_documents db_get_hpc_slurm_job
  read_status_documents-Ensures = record {
    at = λ s p.
        let k = s.worker.current_message_job_id in
        let get_slurm_job = on_db {W = Worker} (db_get_hpc_slurm_job k) in
        let reads =
          Ensures-bind (λ _ s. Stands id job s.db) get_slurm_job _
            (Leaves-on_db id job (db_get_hpc_slurm_job k) (λ db. ground arith))
            (λ slurm.
              Ensures-bind (λ j s. Stands id job s.db × (j.job_id ≡ id → j ≡ job)) _ _
                (read_job-Ensures k) (λ j. Ensures-pure (slurm, j) (λ t q. q))) in
        reads.at s p;
  }

  handle_msg_failure-Leaves : Leaves id job (handle_msg_failure false)
  unfolding handle_msg_failure
  handle_msg_failure-Leaves = record { at = λ s p. p }

  consumed_msg_callback-Leaves :
      (tag : ℕ) (body : Body) → Leaves id job (consumed_msg_callback env tag body)
  unfolding consumed_msg_callback
  consumed_msg_callback-Leaves tag body =
      let failure = handle_msg_failure-Leaves in
      Leaves-bind id job (begin_message tag) _ (record { at = λ s p. p })
        (λ _.
          Ensures-try_then (λ _ s. Stands id job s.db) every_exception _ _ _
            (parse_status_message-Leaves body) (λ t p. p) failure
            (λ _.
              Ensures-try_then (λ (slurm, j) s. Stands id job s.db × (j.job_id ≡ id → j ≡ job))
                every_exception _ _ _ read_status_documents-Ensures (λ t p. p) failure
                (λ (slurm, j). record {
                  at = λ s (p, same).
                      let handles =
                        Ensures-try_then (λ _ s. Stands id job s.db) is_value_error
                          (handle_hpc_and_workflow_states env slurm j (some j.workspace_id)) _
                          (λ _. end_message tag)
                          (handle_hpc_and_workflow_states-Leaves j (some j.workspace_id) same slurm)
                          (λ t q. q) failure (λ _. record { at = λ t q. q }) in
                      handles.at s p;
                })))

-- The document of a job in `SUCCESS`, `FAILED` or `TRANSFERRING_FROM_HPC` is the same after the
-- callback of the status worker, also where that raises, whatever the message, whichever job it
-- names, and whatever the HPC answers.
pub settled_job_stays :
    (env : Env) (tag : ℕ) (body : Body) (s : Site Worker) (id : String) (job : DbWorkflowJob)
    → job_at (some id) s.db ≡ some job
    → contains settled_states job.job_state ≡ true
    → job_at (some id) (state_of (consumed_msg_callback env tag body s)).db ≡ some job
settled_job_stays env tag body s id job found settled =
    state_of-Post (λ (t : Site Worker). Stands id job t.db) (consumed_msg_callback env tag body s)
      ((consumed_msg_callback-Leaves env id job settled tag body).at s found)
