-- ===== src/Server/Submission/Accepted.antt =====
-- src/server/operandi_server/routers/workflow.py: what it takes for a request to submit a job to
-- be answered with a job.
use operandi.Common.{
  ◌≡◌, ◌∙◌, String, Option, Option-cases, Bool-cases, ◌⊎◌, sym, Result-cases, inl, inr, none, some,
  [], ◌∷◌, ◌++◌, true, false, string_eq, option_eq, arith, Exc, Outcome, ok, raised, raise, done,
  state_of, http_exception, contains, join, ap,
}
use operandi.Constants.{StateWorkspace}
use operandi.Database.Models.{DbWorkflow, DbWorkflowJob, DbWorkspace}
use operandi.Database.ModelsStats.{StatType}
use operandi.Database.WorkflowJob.{db_create_workflow_job}
use operandi.Database.WorkflowJob.Laws.{job_at}
use operandi.Database.Workspace.Laws.{workspace_at, update_workspace_state}
use operandi.Server.State.{Server, Outside}
use operandi.Server.Users.{PyUserAction, HttpBasicCredentials, user_auth_with_handling}
use operandi.Server.Submission.{
  WorkflowArguments, SbatchArguments, job_message, push_job_to_rabbitmq, check_request,
  make_dir_workflow_job, queue_job, submit_to_rabbitmq_queue,
}
use operandi.Server.Submission.Laws.{
  job_of, queue_of, IsReady, check_request-keeps, check_request-IsReady, queue_job_lem,
  queue_job_refused, job_queued,
}
use operandi.Server.Submission.Requests.{
  Outcome-cases, user_auth_with_handling-keeps, submit_refused_keeps,
  submit_to_rabbitmq_queue-queue_job,
}

-- The request of `user` for the workspace `ws` and the workflow `wf` was accepted: the checks had
-- been passed, and the job is saved and announced.
pub record IsAccepted (out : Outside) (workflow_id details : String) (args : WorkflowArguments)
    (sbatch : SbatchArguments) (auth : HttpBasicCredentials) (s t : Server) (user : PyUserAction)
    (ws : DbWorkspace) (wf : DbWorkflow) (remove : Option String) (queue : String)
    (job : DbWorkflowJob) : Type 0 where
  pub let_in : user_auth_with_handling out auth s ≡ ok user s
  pub passed : check_request out workflow_id args s ≡ ok (ws, wf, remove) s
  pub documents : IsReady args workflow_id ws wf s.db
  pub free : contains s.dirs (join out.workflow_jobs_dir out.new_id) ≡ false
  pub has_queue : queue_of user.account_type ≡ some queue
  pub answer : job ≡ job_of out user workflow_id args.workspace_id details
  pub saved : job_at (some out.new_id) t.db ≡ some job
  pub workspace :
      workspace_at (some args.workspace_id) t.db
      ≡ some (record ws { state = StateWorkspace.queued })
  pub announced :
      t.published
      ≡ s.published ++ (queue, job_message out.new_id args.input_file_grp remove sbatch) ∷ []
  pub counted :
      t.db.page_stats
      ≡ s.db.page_stats
        ++ record {
          stat_type = StatType.submitted;
          institution_id = user.institution_id;
          user_id = user.user_id;
          datetime = out.now;
          workspace_id = args.workspace_id;
          quantity = ws.pages_amount;
          workflow_job_id = some out.new_id;
        }
          ∷ []

ok_not_raised :
    {S A : Type 0} (r : Outcome S A) (a : A) (t u : S) (e : Exc) → r ≡ ok a t → r ≡ raised e u → ⊥
ok_not_raised r a t u e returned raises = ground arith

module _ (out : Outside) (user : PyUserAction) (workflow_id details : String)
    (args : WorkflowArguments) (sbatch : SbatchArguments) (remove : Option String)
    (s : Server) where
  abbrev queued : Outcome Server DbWorkflowJob
  queued = queue_job out user workflow_id details args sbatch remove s

  queue_job_taken :
      contains s.dirs (join out.workflow_jobs_dir out.new_id) ≡ true
      → queued ≡ raised (http_exception 500) s
  unfolding queue_job make_dir_workflow_job
  queue_job_taken taken = ground arith

  queue_job_unpublished :
      (ws : DbWorkspace) (queue : String) (e : Exc)
      → contains s.dirs (join out.workflow_jobs_dir out.new_id) ≡ false
      → workspace_at (some args.workspace_id) s.db ≡ some ws
      → queue_of user.account_type ≡ some queue
      → out.publish_to_queue ≡ raise e
      → queued ≡ raised e (state_of queued)
  unfolding queue_job make_dir_workflow_job db_create_workflow_job push_job_to_rabbitmq
  queue_job_unpublished ws queue e free found has_queue fails = ground (
    arith,
    update_workspace_state out.assign_ocrd_mets (some args.workspace_id) StateWorkspace.queued s.db
        found,
  )

  -- A job that is answered with was queued: there was no directory for it, and its account has a
  -- queue that could be reached.
  queue_job_ok :
      (ws : DbWorkspace) (job : DbWorkflowJob) (t : Server)
      → workspace_at (some args.workspace_id) s.db ≡ some ws
      → job_at (some out.new_id) s.db ≡ none
      → queued ≡ ok job t
      → (queue : String) × (contains s.dirs (join out.workflow_jobs_dir out.new_id) ≡ false)
        × (queue_of user.account_type ≡ some queue)
        × (out.publish_to_queue ≡ done tt)
  queue_job_ok ws job t found fresh returned =
      elim (Bool-cases (contains s.dirs (join out.workflow_jobs_dir out.new_id))) [
        | inl taken ↦ absurd (ok_not_raised queued job t s _ returned (queue_job_taken taken))
        | inr free ↦ elim (Option-cases (queue_of user.account_type)) [
          | inl no_queue ↦ absurd (
              ok_not_raised queued job t _ _ returned (
                queue_job_refused out user workflow_id details args sbatch remove ws s free found
                  fresh no_queue))
          | inr (queue, has_queue) ↦ elim (Result-cases out.publish_to_queue) [
            | inl (e, fails) ↦ absurd (
                ok_not_raised queued job t _ e returned
                  (queue_job_unpublished ws queue e free found has_queue fails))
            | inr (tt, published) ↦ (queue, free, has_queue, published)
          ]
        ]
      ]

module _ (out : Outside) (workflow_id details : String) (args : WorkflowArguments)
    (sbatch : SbatchArguments) (auth : HttpBasicCredentials) (s t : Server)
    (job : DbWorkflowJob) where
  -- A request that is answered with a job, under an id that no job has yet, was one of a user who
  -- is let in, for a workspace that is there, `READY` and not deleted, and for a workflow that is
  -- there and not deleted; the job had no directory, and the type of the account has a queue. The
  -- job is saved as `QUEUED`, the workspace is `QUEUED`, the queue got one message with the job id,
  -- and the pages of the workspace are counted as submitted.
  pub submit_to_rabbitmq_queue-IsAccepted :
      job_at (some out.new_id) s.db ≡ none
      → submit_to_rabbitmq_queue out workflow_id args sbatch details auth s ≡ ok job t
      → (user : PyUserAction) × (ws : DbWorkspace) × (wf : DbWorkflow) × (remove : Option String)
        × (queue : String) × IsAccepted out workflow_id details args sbatch auth s t user ws wf
            remove queue job
  submit_to_rabbitmq_queue-IsAccepted fresh answered =
      elim (Outcome-cases (user_auth_with_handling out auth s)) [
        | inr (e, refused) ↦ absurd (refused_not_ok e (inl refused))
        | inl (user, let_in) ↦ elim (Outcome-cases (check_request out workflow_id args s)) [
          | inr (e, refused) ↦ absurd (refused_not_ok e (inr refused))
          | inl ((ws, wf, remove), passed) ↦
              let documents = check_request-IsReady out workflow_id args s _ ws wf remove passed in
              let same =
                submit_to_rabbitmq_queue-queue_job out workflow_id details args sbatch auth s user
                  ws wf remove let_in passed in
              let returned : queue_job out user workflow_id details args sbatch remove s
                  ≡ ok job t =
                sym same ∙ answered in
              let (queue, free, has_queue, published) =
                queue_job_ok out user workflow_id details args sbatch remove s ws job t
                  documents.workspace fresh returned in
              let made =
                queue_job_lem out user workflow_id details args sbatch remove ws s free
                  documents.workspace fresh queue has_queue published in
              let (_, saved, workspace, announced, counted) =
                job_queued out user workflow_id details args sbatch remove ws s free
                  documents.workspace fresh queue has_queue published in
              (
                user,
                ws,
                wf,
                remove,
                queue,
                record {
                  let_in = let_in ∙ ap (ok user) (user_auth_with_handling-keeps out auth s);
                  passed =
                      passed
                      ∙ ap (ok (ws, wf, remove)) (check_request-keeps out workflow_id args s);
                  documents = documents;
                  free = free;
                  has_queue = has_queue;
                  answer = ground (arith, made, returned);
                  saved = ground (arith, made, returned, saved);
                  workspace = ground (arith, returned, workspace);
                  announced = ground (arith, returned, announced);
                  counted = ground (arith, returned, counted);
                },
              )
        ]
      ]
    where
      refused_not_ok :
          (e : Exc)
          → (user_auth_with_handling out auth s
              ≡ raised e (state_of (user_auth_with_handling out auth s)))
            ⊎ (check_request out workflow_id args s
                ≡ raised e (state_of (check_request out workflow_id args s)))
          → ⊥
      refused_not_ok e refused =
          let (no_job, _) =
            submit_refused_keeps out workflow_id details args sbatch auth s e refused in
          ground (arith, answered, no_job)
