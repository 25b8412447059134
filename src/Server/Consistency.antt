-- ===== src/Server/Consistency.antt =====
-- The submission of a job keeps the database consistent, whatever the request and however it ends.
use operandi.Common.{
  ◌≡◌, refl, ap, sym, subst, String, Option, some, List, [], string_eq, Exec, Outcome, ok, raised,
  state_of, Post, Post-state_of, Ensures, Ensures-pure, Ensures-bind, arith,
}
use operandi.Constants.{AccountType, account_type_eq, state_workspace_eq}
use operandi.Constants.Job.{StateJob}
use operandi.Database.Models.{Db}
use operandi.Database.UserAccount.{db_get_user_account_with_email}
use operandi.Database.ProcessingStats.{PageStatArgs, db_create_page_stat}
use operandi.Database.Consistency.Operations.{
  Knows, Knows-rest, Keeps, update_workspace-Keeps, create_job-Keeps,
}
use operandi.Server.State.{Server, Outside, on_db}
use operandi.Server.Users.{PyUserAction, HttpBasicCredentials, user_auth_with_handling}
use operandi.Server.Submission.{
  WorkflowArguments, SbatchArguments, push_job_to_rabbitmq, check_request, make_dir_workflow_job,
  create_page_stat_with_handling, queue_job, submit_to_rabbitmq_queue,
}
use operandi.Server.Submission.Laws.{check_request-keeps}

-- The same slurm jobs are known before and after, also where the request is refused.
abbrev pub Serves : List (Option String) → {A : Type 0} → Exec Server A → Type 0
Serves ks m = Ensures (λ s. Knows [] ks s.db) m (λ _ s. Knows [] ks s.db) (λ s. Knows [] ks s.db)

module _ {A : Type 0} (ks : List (Option String)) where
  Post-on_db :
      (m : Exec Db A) (s : Server) (r : Outcome Db A)
      → m s.db ≡ r
      → Post (λ _. Knows [] ks) (Knows [] ks) r
      → Post (λ _ t. Knows [] ks t.db) (λ t. Knows [] ks t.db) (on_db m s)
  Post-on_db m s (ok a db) e h =
      let same : on_db m s ≡ ok a (record s { db = db }) = rw (on_db, e) refl in
      subst (Post (λ _ t. Knows [] ks t.db) (λ t. Knows [] ks t.db)) (sym same) h
  Post-on_db m s (raised x db) e h =
      let same : on_db m s ≡ raised x (record s { db = db }) = rw (on_db, e) refl in
      subst (Post (λ _ t. Knows [] ks t.db) (λ t. Knows [] ks t.db)) (sym same) h

  Serves-on_db : (m : Exec Db A) → Keeps [] ks m → Serves ks (on_db m)
  Serves-on_db m h = record { at = λ s p. Post-on_db m s (m s.db) refl (h.at s.db p) }

  -- An action that changes no job and no slurm job.
  Serves-rest :
      (m : Exec Server A)
      → ((s : Server) → (state_of (m s)).db.workflow_jobs ≡ s.db.workflow_jobs)
      → ((s : Server) → (state_of (m s)).db.hpc_slurm_jobs ≡ s.db.hpc_slurm_jobs)
      → Serves ks m
  Serves-rest m same_jobs same_slurm_jobs = record {
    at = λ s p.
        Post-state_of (λ (t : Server). Knows [] ks t.db) (m s)
          (Knows-rest [] ks s.db (state_of (m s)).db p (same_jobs s) (same_slurm_jobs s));
  }

module _ (out : Outside) (ks : List (Option String)) where
  user_auth-Serves : (auth : HttpBasicCredentials) → Serves ks (user_auth_with_handling out auth)
  unfolding user_auth_with_handling db_get_user_account_with_email
  user_auth-Serves auth =
      Serves-rest ks (user_auth_with_handling out auth) (λ s. ground arith) (λ s. ground arith)

  make_dir_workflow_job-Serves : Serves ks (make_dir_workflow_job out)
  unfolding make_dir_workflow_job
  make_dir_workflow_job-Serves =
      Serves-rest ks (make_dir_workflow_job out) (λ s. ground arith) (λ s. ground arith)

  push_job_to_rabbitmq-Serves :
      (user_type : AccountType) (message : List (String × String))
      → Serves ks (push_job_to_rabbitmq out user_type message)
  unfolding push_job_to_rabbitmq
  push_job_to_rabbitmq-Serves user_type message =
      Serves-rest ks (push_job_to_rabbitmq out user_type message) (λ s. ground arith)
        (λ s. ground arith)

  create_page_stat-Serves :
      (args : PageStatArgs) → Serves ks (create_page_stat_with_handling out args)
  unfolding create_page_stat_with_handling db_create_page_stat
  create_page_stat-Serves args =
      Serves-rest ks (create_page_stat_with_handling out args) (λ s. ground arith)
        (λ s. ground arith)

  module _ (workflow_id : String) (args : WorkflowArguments) (sbatch : SbatchArguments)
      (details : String) where
    check_request-Serves : Serves ks (check_request out workflow_id args)
    check_request-Serves =
        let keeps = check_request-keeps out workflow_id args in
        Serves-rest ks (check_request out workflow_id args)
          (λ s. ap (λ (t : Server). t.db.workflow_jobs) (keeps s))
          (λ s. ap (λ (t : Server). t.db.hpc_slurm_jobs) (keeps s))

    -- The new job is `QUEUED`, and needs no slurm job.
    queue_job-Serves :
        (user : PyUserAction) (remove : Option String)
        → Serves ks (queue_job out user workflow_id details args sbatch remove)
    unfolding queue_job
    queue_job-Serves user remove =
        let K = λ (s : Server). Knows [] ks s.db in
        Ensures-bind (λ _. K) _ _ make_dir_workflow_job-Serves
          (λ job_dir.
            Ensures-bind (λ _. K) _ _
              (Serves-on_db ks _
                (update_workspace-Keeps out.assign_ocrd_mets (some args.workspace_id) _))
              (λ ws.
                Ensures-bind (λ _. K) _ _
                  (Serves-on_db ks _ (
                    create_job-Keeps out.now user.user_id out.new_id job_dir StateJob.queued
                      workflow_id args.workspace_id details refl))
                  (λ job.
                    Ensures-bind (λ _. K) _ _ (push_job_to_rabbitmq-Serves user.account_type _)
                      (λ _.
                        Ensures-bind (λ _. K) _ _ (create_page_stat-Serves _)
                          (λ _. Ensures-pure job (λ s p. p))))))

    pub submit_to_rabbitmq_queue-Serves :
        (auth : HttpBasicCredentials)
        → Serves ks (submit_to_rabbitmq_queue out workflow_id args sbatch details auth)
    unfolding submit_to_rabbitmq_queue
    submit_to_rabbitmq_queue-Serves auth =
        let K = λ (s : Server). Knows [] ks s.db in
        Ensures-bind (λ _. K) _ _ (user_auth-Serves auth)
          (λ user.
            Ensures-bind (λ _. K) _ _ check_request-Serves
              (λ (ws, wf, remove). queue_job-Serves user remove))
