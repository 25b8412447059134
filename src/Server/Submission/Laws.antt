-- ===== src/Server/Submission/Laws.antt =====
-- What a request to submit a job leaves behind.
use operandi.Common.{
  ◌≡◌, refl, String, Option, none, some, List, [], ◌∷◌, ◌++◌, true, false, ==_iff, ==_refl,
  string_eq, option_eq, arith, Outcome, ok, raised, done, state_of, is_ok, http_exception, find_one,
  find_one-append, contains, join,
}
use operandi.Constants.{AccountType, StateWorkspace, state_workspace_eq}
use operandi.Constants.Job.{StateJob}
use operandi.Database.Models.{Db, DbWorkflow, DbWorkflowJob, DbWorkspace}
use operandi.Database.ModelsStats.{DbPageStat, StatType, page_stat_type_to_model}
use operandi.Database.ProcessingStats.{db_create_page_stat}
use operandi.Database.Workflow.{is_workflow, db_get_workflow}
use operandi.Database.WorkflowJob.{is_job, db_create_workflow_job}
use operandi.Database.WorkflowJob.Laws.{job_at}
use operandi.Database.Workspace.{db_get_workspace}
use operandi.Database.Workspace.Laws.{
  workspace_at, with_workspace, id-workspace_at, workspace_at-with_workspace,
  update_workspace_state,
}
use operandi.Server.State.{Server, Outside}
use operandi.Server.Users.{PyUserAction}
use operandi.Server.Resources.{
  get_db_workflow_with_handling, get_db_workspace_with_handling,
  check_if_file_group_exists_with_handling, find_file_groups_to_remove_with_handling,
}
use operandi.Server.Submission.{
  WorkflowArguments, SbatchArguments, job_message, push_job_to_rabbitmq, remove_groups_of,
  check_request, make_dir_workflow_job, queue_job, create_page_stat_with_handling,
}

-- The job that a request saves.
abbrev pub job_of : Outside → PyUserAction → String → String → String → DbWorkflowJob
job_of out user workflow_id workspace_id details = record {
  user_id = user.user_id;
  job_id = out.new_id;
  job_dir = join out.workflow_jobs_dir out.new_id;
  workflow_id = workflow_id;
  workspace_id = workspace_id;
  job_state = StateJob.queued;
  workflow_dir = none;
  workspace_dir = none;
  hpc_slurm_job_id = none;
  deleted = false;
  datetime = some out.now;
  details = some details;
}

-- The queue of an account type, if it has one.
abbrev pub queue_of : AccountType → Option String
queue_of AccountType.harvester = some "operandi_queue_harvester"
queue_of AccountType.admin = some "operandi_queue_users"
queue_of AccountType.user = some "operandi_queue_users"
queue_of _ = none

push_job_to_rabbitmq-queue :
    (out : Outside) (type : AccountType) (queue : String) (message : List (String × String))
    (s : Server)
    → queue_of type ≡ some queue
    → out.publish_to_queue ≡ done tt
    → push_job_to_rabbitmq out type message s
      ≡ ok tt (record s { published = s.published ++ (queue, message) ∷ [] })
unfolding push_job_to_rabbitmq
push_job_to_rabbitmq-queue out type queue message s has_queue published = ground arith

push_job_to_rabbitmq_refused :
    (out : Outside) (type : AccountType) (message : List (String × String)) (s : Server)
    → queue_of type ≡ none
    → push_job_to_rabbitmq out type message s ≡ raised (http_exception 403) s
unfolding push_job_to_rabbitmq
push_job_to_rabbitmq_refused out type message s no_queue = ground arith

module _ (out : Outside) (user : PyUserAction) (workflow_id details : String)
    (args : WorkflowArguments) (sbatch : SbatchArguments) (remove : Option String)
    (ws : DbWorkspace) (s : Server)
    (free : contains s.dirs (join out.workflow_jobs_dir out.new_id) ≡ false)
    (found : workspace_at (some args.workspace_id) s.db ≡ some ws)
    (fresh : job_at (some out.new_id) s.db ≡ none) where
  abbrev queued : Outcome Server DbWorkflowJob
  queued = queue_job out user workflow_id details args sbatch remove s

  abbrev job : DbWorkflowJob
  job = job_of out user workflow_id args.workspace_id details

  queued_job-found :
      (db : Db)
      → db.workflow_jobs ≡ s.db.workflow_jobs ++ job ∷ []
      → job_at (some out.new_id) db ≡ some job
  unfolding find_one
  queued_job-found db h = rw h ground (
    arith,
    fresh,
    ==_refl out.new_id,
    find_one-append (is_job (some out.new_id)) s.db.workflow_jobs (job ∷ []),
  )

  queued_workspace-found :
      workspace_at
        (some args.workspace_id)
        (with_workspace (some args.workspace_id) (record ws { state = StateWorkspace.queued }) s.db)
      ≡ some (record ws { state = StateWorkspace.queued })
  queued_workspace-found =
      let id = some args.workspace_id in
      ground (
        arith,
        workspace_at-with_workspace id id (record ws { state = StateWorkspace.queued }) s.db ws
            found (id-workspace_at id s.db found),
      )

  -- The site before the message is pushed.
  abbrev saved : Server
  saved = record s {
    db =
        record (with_workspace (some args.workspace_id)
          (record ws { state = StateWorkspace.queued }) s.db) {
            workflow_jobs = s.db.workflow_jobs ++ job ∷ [];
          };
    dirs = join out.workflow_jobs_dir out.new_id ∷ s.dirs;
  }

  abbrev stat : DbPageStat
  stat = record {
    stat_type = StatType.submitted;
    institution_id = user.institution_id;
    user_id = user.user_id;
    datetime = out.now;
    workspace_id = args.workspace_id;
    quantity = ws.pages_amount;
    workflow_job_id = some out.new_id;
  }

  pub queue_job_lem :
      (queue : String)
      → queue_of user.account_type ≡ some queue
      → out.publish_to_queue ≡ done tt
      → queued
        ≡ ok job (record saved {
          db = record saved.db { page_stats = s.db.page_stats ++ stat ∷ [] };
          published =
              s.published ++ (queue, job_message out.new_id args.input_file_grp remove sbatch) ∷ [];
        })
  unfolding queue_job make_dir_workflow_job create_page_stat_with_handling db_create_workflow_job
      db_create_page_stat page_stat_type_to_model string_eq
  queue_job_lem queue has_queue published = ground (
    arith,
    update_workspace_state out.assign_ocrd_mets (some args.workspace_id) StateWorkspace.queued s.db
        found,
    push_job_to_rabbitmq-queue out user.account_type queue
        (job_message out.new_id args.input_file_grp remove sbatch) saved has_queue published,
  )

  pub queue_job_refused :
      queue_of user.account_type ≡ none → queued ≡ raised (http_exception 403) saved
  unfolding queue_job make_dir_workflow_job db_create_workflow_job
  queue_job_refused no_queue = ground (
    arith,
    update_workspace_state out.assign_ocrd_mets (some args.workspace_id) StateWorkspace.queued s.db
        found,
    push_job_to_rabbitmq_refused out user.account_type
        (job_message out.new_id args.input_file_grp remove sbatch) saved no_queue,
  )

  -- A request that passed the checks, of an account with a queue, saves the job as `QUEUED`, sets
  -- the workspace to `QUEUED`, puts one message with the job id into the queue of the account's
  -- type, and counts the pages of the workspace as submitted.
  pub job_queued :
      (queue : String)
      → queue_of user.account_type ≡ some queue
      → out.publish_to_queue ≡ done tt
      → (is_ok queued ≡ true)
        × (job_at (some out.new_id) (state_of queued).db ≡ some job)
        × (workspace_at (some args.workspace_id) (state_of queued).db
            ≡ some (record ws { state = StateWorkspace.queued }))
        × ((state_of queued).published
            ≡ s.published ++ (queue, job_message out.new_id args.input_file_grp remove sbatch) ∷ [])
        × ((state_of queued).db.page_stats ≡ s.db.page_stats ++ stat ∷ [])
  job_queued queue has_queue published =
      rw (queue_job_lem queue has_queue published)
        (refl, queued_job-found saved.db refl, queued_workspace-found, refl, refl)

  pub job_queued_keeps :
      (queue : String)
      → queue_of user.account_type ≡ some queue
      → out.publish_to_queue ≡ done tt
      → ((state_of queued).db.user_accounts ≡ s.db.user_accounts)
        × ((state_of queued).db.workflows ≡ s.db.workflows)
  job_queued_keeps queue has_queue published =
      rw (queue_job_lem queue has_queue published) (refl, refl)

  -- An account without a queue is refused with the status 403, but only once the workspace and
  -- the job are `QUEUED`: they stay so, and no worker hears of them.
  pub refused_account_leaves_queued :
      queue_of user.account_type ≡ none
      → (queued ≡ raised (http_exception 403) (state_of queued))
        × (job_at (some out.new_id) (state_of queued).db ≡ some job)
        × (workspace_at (some args.workspace_id) (state_of queued).db
            ≡ some (record ws { state = StateWorkspace.queued }))
        × ((state_of queued).published ≡ s.published)
  refused_account_leaves_queued no_queue =
      rw (queue_job_refused no_queue)
        (refl, queued_job-found saved.db refl, queued_workspace-found, refl)

-- A request that passed the checks found the documents that it needs.
pub record IsReady (args : WorkflowArguments) (workflow_id : String) (ws : DbWorkspace)
    (wf : DbWorkflow) (db : Db) : Type 0 where
  pub workspace : workspace_at (some args.workspace_id) db ≡ some ws
  pub ready : ws.state ≡ StateWorkspace.ready
  pub not_deleted : ws.deleted ≡ false
  pub workflow : find_one (is_workflow workflow_id) db.workflows ≡ some wf
  pub workflow_not_deleted : wf.deleted ≡ false

-- The checks of a request change nothing, whether they pass or not.
pub check_request-keeps :
    (out : Outside) (workflow_id : String) (args : WorkflowArguments) (s : Server)
    → state_of (check_request out workflow_id args s) ≡ s
unfolding check_request get_db_workspace_with_handling get_db_workflow_with_handling
    db_get_workspace db_get_workflow remove_groups_of check_if_file_group_exists_with_handling
    find_file_groups_to_remove_with_handling
check_request-keeps out workflow_id args s = ground arith

-- Where the checks of a request pass, the workspace of the request is there, `READY` and not
-- deleted, and so is the workflow, but for the state that it does not have.
pub check_request-IsReady :
    (out : Outside) (workflow_id : String) (args : WorkflowArguments) (s t : Server)
    (ws : DbWorkspace) (wf : DbWorkflow) (remove : Option String)
    → check_request out workflow_id args s ≡ ok (ws, wf, remove) t
    → IsReady args workflow_id ws wf s.db
unfolding check_request get_db_workspace_with_handling get_db_workflow_with_handling
    db_get_workspace db_get_workflow remove_groups_of check_if_file_group_exists_with_handling
    find_file_groups_to_remove_with_handling
check_request-IsReady out workflow_id args s t ws wf remove h =
    ground (arith, ==_iff ws.state StateWorkspace.ready)
