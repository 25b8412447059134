-- ===== src/Server/Submission/Requests.antt =====
-- The whole handler of a request to submit a job, and the question for the state of a job.
use operandi.Common.{
  Bool-cases, append-nil, ◌≡◌, ◌≢◌, refl, ◌⊎◌, inl, inr, String, Option, some, List, [], ◌∷◌, ◌++◌,
  false, string_eq, option_eq, if◌then◌else◌, arith, Outcome, ok, raised, done, state_of, is_ok,
  find_one, contains, Exc, http_exception,
}
use operandi.Constants.{StateWorkspace, state_workspace_eq}
use operandi.Constants.Job.{state_job_eq}
use operandi.Database.Models.{DbWorkflow, DbWorkflowJob, DbWorkspace}
use operandi.Database.UserAccount.{db_get_user_account_with_email}
use operandi.Database.Workspace.Laws.{workspace_at}
use operandi.Database.Workflow.{is_workflow, db_get_workflow}
use operandi.Database.WorkflowJob.{db_get_workflow_job}
use operandi.Database.Workspace.{db_get_workspace}
use operandi.Database.WorkflowJob.Laws.{job_at}
use operandi.Broker.Status.{settled_states}
use operandi.Server.State.{Server, Outside, Message}
use operandi.Server.Resources.{
  get_db_workflow_job_with_handling, get_db_workspace_with_handling, get_db_workflow_with_handling,
  push_status_request_to_rabbitmq,
}
use operandi.Server.Users.{PyUserAction, HttpBasicCredentials, user_auth_with_handling}
use operandi.Server.Submission.{
  WorkflowArguments, SbatchArguments, check_request, queue_job, submit_to_rabbitmq_queue,
  get_workflow_job_status,
}
use operandi.Server.Submission.Laws.{check_request-keeps, check_request-IsReady}

pub user_auth_with_handling-keeps :
    (out : Outside) (auth : HttpBasicCredentials) (s : Server)
    → state_of (user_auth_with_handling out auth s) ≡ s
unfolding user_auth_with_handling db_get_user_account_with_email
user_auth_with_handling-keeps out auth s = ground arith

pub Outcome-cases :
    {S A : Type 0} (r : Outcome S A)
    → ((a : A) × (r ≡ ok a (state_of r))) ⊎ ((e : Exc) × (r ≡ raised e (state_of r)))
Outcome-cases (ok a s) = inl (a, refl)
Outcome-cases (raised e s) = inr (e, refl)

module _ (out : Outside) (workflow_id details : String) (args : WorkflowArguments)
    (sbatch : SbatchArguments) (auth : HttpBasicCredentials) (s : Server) where
  abbrev submitted : Outcome Server DbWorkflowJob
  submitted = submit_to_rabbitmq_queue out workflow_id args sbatch details auth s

  pub submit_to_rabbitmq_queue-queue_job :
      (user : PyUserAction) (ws : DbWorkspace) (wf : DbWorkflow) (remove : Option String)
      → user_auth_with_handling out auth s ≡ ok user (state_of (user_auth_with_handling out auth s))
      → check_request out workflow_id args s
        ≡ ok (ws, wf, remove) (state_of (check_request out workflow_id args s))
      → submitted ≡ queue_job out user workflow_id details args sbatch remove s
  unfolding submit_to_rabbitmq_queue
  submit_to_rabbitmq_queue-queue_job user ws wf remove let_in passed = ground (
    arith,
    let_in,
    passed,
    user_auth_with_handling-keeps out auth s,
    check_request-keeps out workflow_id args s,
  )

  -- A request that is refused by the login or by the checks changes nothing.
  pub submit_refused_keeps :
      (e : Exc)
      → (user_auth_with_handling out auth s
          ≡ raised e (state_of (user_auth_with_handling out auth s)))
        ⊎ (check_request out workflow_id args s
            ≡ raised e (state_of (check_request out workflow_id args s)))
      → (is_ok submitted ≡ false) × (state_of submitted ≡ s)
  unfolding submit_to_rabbitmq_queue
  submit_refused_keeps e (inl refused) =
      ground (arith, refused, user_auth_with_handling-keeps out auth s)
  submit_refused_keeps e (inr refused) = ground (
    arith,
    refused,
    user_auth_with_handling-keeps out auth s,
    check_request-keeps out workflow_id args s,
  )

  -- A request for a workspace that is not `READY` is refused, whoever sends it, and changes
  -- nothing.
  pub unready_workspace_refused :
      (ws : DbWorkspace)
      → workspace_at (some args.workspace_id) s.db ≡ some ws
      → ws.state ≢ StateWorkspace.ready
      → (is_ok submitted ≡ false) × (state_of submitted ≡ s)
  unready_workspace_refused ws found unready =
      elim (Outcome-cases (check_request out workflow_id args s)) [
        | inr (e, refused) ↦ submit_refused_keeps e (inr refused)
        | inl ((ws', wf, remove), passed) ↦
            let checked = check_request-IsReady out workflow_id args s _ ws' wf remove passed in
            absurd (unready (ground (arith, found, checked.workspace, checked.ready)))
      ]

-- The messages that the question for the state of a job leads to: one for the status worker,
-- unless the job is in a state that the status worker leaves alone.
abbrev pub status_messages : DbWorkflowJob → String → List Message
status_messages job id =
    if contains settled_states job.job_state
    then []
    else ("operandi_queue_job_statuses", ("job_id", id) ∷ []) ∷ []

-- The question for the state of a job, of a user who is let in, where the job, its workspace and
-- its workflow are there and the queue can be reached: for a deleted workspace the answer is the
-- status 410 and nothing changes, so that the status worker hears nothing of the job. Otherwise it
-- is the three documents, and the status worker gets one message, unless the job is in a state that
-- the status worker leaves alone. Nothing else changes.
pub get_workflow_job_status_lem :
    (out : Outside) (id : String) (auth : HttpBasicCredentials) (s : Server) (user : PyUserAction)
    (job : DbWorkflowJob) (ws : DbWorkspace) (wf : DbWorkflow)
    → user_auth_with_handling out auth s ≡ ok user s
    → job_at (some id) s.db ≡ some job
    → workspace_at (some job.workspace_id) s.db ≡ some ws
    → find_one (is_workflow job.workflow_id) s.db.workflows ≡ some wf
    → out.publish_to_queue ≡ done tt
    → get_workflow_job_status out id auth s ≡ (
        if ws.deleted
        then raised (http_exception 410) s
        else ok (job, wf, ws) (record s { published = s.published ++ status_messages job id }))
unfolding get_workflow_job_status get_db_workflow_job_with_handling get_db_workspace_with_handling
    get_db_workflow_with_handling db_get_workspace db_get_workflow db_get_workflow_job
    push_status_request_to_rabbitmq
get_workflow_job_status_lem out id auth s user job ws wf let_in found_job found_ws found_wf
      published =
    elim (Bool-cases ws.deleted) [
      | inl deleted ↦ ground (arith, let_in)
      | inr there ↦ elim (Bool-cases (contains settled_states job.job_state)) [
        | inl settled ↦ ground (arith, let_in, append-nil s.published)
        | inr unsettled ↦ ground (arith, let_in)
      ]
    ]
