-- ===== src/Server/Submission.antt =====
-- src/server/operandi_server/routers/workflow.py: the submission of a job, and the question for
-- its state.
pub mod Laws
pub mod Requests
pub mod Accepted
pub mod Messages
use operandi.Common.{
  ℕ, String, ◌<>◌, Option, none, some, List, [], ◌∷◌, ◌++◌, Bool, true, false, not, ◌&&◌, ◌||◌,
  ◌==◌, string_eq, if◌then◌else◌, Exec, Outcome, ok, raised, Result, raise, done, lift, pure, ◌>>=◌,
  ◌>>◌, other, http_exception, Text, text_eq, codes, text_of, split_at, contains, select, decimal,
  join,
}
use operandi.Constants.{AccountType, account_type_eq, StateWorkspace}
use operandi.Constants.Job.{StateJob, state_job_eq, success, failed, transferring_from_hpc}
use operandi.Database.Models.{DbWorkflow, DbWorkflowJob, DbWorkspace}
use operandi.Database.Updates.{WorkspaceUpdate}
use operandi.Database.WorkflowJob.{db_create_workflow_job}
use operandi.Database.Workspace.{db_update_workspace}
use operandi.Database.ProcessingStats.{PageStatArgs, db_create_page_stat}
use operandi.Hpc.Executor.{join_commas}
use operandi.Server.State.{Server, Outside, on_db, publish}
use operandi.Server.Users.{PyUserAction, HttpBasicCredentials, user_auth_with_handling}
use operandi.Server.Resources.{
  get_db_workflow_with_handling, get_db_workflow_job_with_handling, get_db_workspace_with_handling,
  check_if_file_group_exists_with_handling, find_file_groups_to_remove_with_handling,
  push_status_request_to_rabbitmq,
}

pub record WorkflowArguments : Type 0 where
  pub workspace_id : String
  pub input_file_grp : Option String
  pub remove_file_grps : Option String
  pub preserve_file_grps : Option String

pub record SbatchArguments : Type 0 where
  pub partition : String
  pub cpus : ℕ
  pub ram : ℕ

-- Whether the value counts as true in a test.
unfoldable pub is_set : Option String → Bool
is_set none = false
is_set (some v) = not (v == "")

-- `f"{v}"`
abbrev pub formatted : Option String → String
formatted none = "None"
formatted (some v) = v

-- `preserve_file_grps.split(',')`
abbrev pub preserved_groups : Option String → List Text
preserved_groups none = []
preserved_groups (some v) = split_at b',' (codes v)

-- The groups to remove, those of the workspace and those that the workflow produces.
unfoldable pub groups_to_remove : List String → List String → List Text → String
unfolding select
groups_to_remove of_workspace producible preserved =
    let found = join_commas of_workspace in
    let reproducible = select (λ g. not (contains preserved (codes g))) producible in
    elim reproducible [
      | [] ↦ found
      | ◌∷◌ g gs ↦ (if found == "" then found else found <> ",") <> join_commas (g ∷ gs)
    ]

-- The message for the submit worker.
abbrev pub job_message :
    String → Option String → Option String → SbatchArguments → List (String × String)
job_message job_id input_file_grp remove_file_grps sbatch =
    ("job_id", job_id)
    ∷ ("input_file_grp", formatted input_file_grp)
    ∷ ("remove_file_grps", formatted remove_file_grps)
    ∷ ("partition", sbatch.partition)
    ∷ ("cpus", text_of (decimal sbatch.cpus))
    ∷ ("ram", text_of (decimal sbatch.ram))
    ∷ []

module _ (out : Outside) where
  unfoldable pub push_job_to_rabbitmq :
      AccountType → List (String × String) → Exec Server (Unit {0})
  push_job_to_rabbitmq user_type message =
      if user_type == AccountType.harvester
      then publish out ("operandi_queue_harvester", message)
      else if user_type == AccountType.admin || user_type == AccountType.user
      then publish out ("operandi_queue_users", message)
      else lift (raise (http_exception 403))

  -- The groups to remove for a request that names groups to preserve.
  unfoldable pub remove_groups_of :
      DbWorkspace → DbWorkflow → WorkflowArguments → Exec Server (Option String)
  remove_groups_of ws wf args =
      if is_set args.preserve_file_grps
      then (do
        let preserved = preserved_groups args.preserve_file_grps
        of_workspace ← find_file_groups_to_remove_with_handling out ws preserved
        pure (some (groups_to_remove of_workspace wf.producible_file_groups preserved)))
      else pure args.remove_file_grps

  -- The checks of a request: nothing is changed yet.
  unfoldable pub check_request :
      String → WorkflowArguments → Exec Server (DbWorkspace × DbWorkflow × Option String)
  check_request workflow_id args =
      if is_set args.remove_file_grps && is_set args.preserve_file_grps
      then lift (raise (http_exception 422))
      else do
        ws ← get_db_workspace_with_handling args.workspace_id true true
        group_exists ← check_if_file_group_exists_with_handling out ws args.input_file_grp
        if not group_exists then lift (raise (http_exception 422)) else do
          wf ← get_db_workflow_with_handling workflow_id true
          remove ← remove_groups_of ws wf args
          pure (ws, wf, remove)

  -- `make_dir_workflow_job(exists_ok=False)`, where a `FileExistsError` becomes the status 500.
  unfoldable pub make_dir_workflow_job : Exec Server String
  make_dir_workflow_job s =
      let dir = join out.workflow_jobs_dir out.new_id in
      if contains s.dirs dir
      then raised (http_exception 500) s
      else ok dir (record s { dirs = dir ∷ s.dirs })

  unfoldable pub create_page_stat_with_handling : PageStatArgs → Exec Server (Unit {0})
  create_page_stat_with_handling args s = elim (on_db (db_create_page_stat out.now args) s) [
    | ok stat t ↦ ok tt t
    | raised e t ↦ raised (http_exception 500) t
  ]

  -- What follows the checks.
  unfoldable pub queue_job :
      PyUserAction
      → String
      → String
      → WorkflowArguments
      → SbatchArguments
      → Option String
      → Exec Server DbWorkflowJob
  queue_job user workflow_id details args sbatch remove = do
    job_dir ← make_dir_workflow_job
    ws ← on_db (
        db_update_workspace out.assign_ocrd_mets (some args.workspace_id)
          (WorkspaceUpdate.state StateWorkspace.queued ∷ []))
    job ← on_db (
        db_create_workflow_job out.now user.user_id out.new_id job_dir StateJob.queued workflow_id
          args.workspace_id details)
    push_job_to_rabbitmq user.account_type
        (job_message out.new_id args.input_file_grp remove sbatch)
    create_page_stat_with_handling (record {
      stat_type = "submitted";
      quantity = ws.pages_amount;
      institution_id = user.institution_id;
      user_id = user.user_id;
      workspace_id = args.workspace_id;
      workflow_job_id = some out.new_id;
    })
    pure job

  unfoldable pub submit_to_rabbitmq_queue :
      String
      → WorkflowArguments
      → SbatchArguments
      → String
      → HttpBasicCredentials
      → Exec Server DbWorkflowJob
  submit_to_rabbitmq_queue workflow_id args sbatch details auth = do
    user ← user_auth_with_handling out auth
    (ws, wf, remove) ← check_request workflow_id args
    queue_job user workflow_id details args sbatch remove

  -- `get_workflow_job_status`, up to the response, which is made of the three documents.
  unfoldable pub get_workflow_job_status :
      String → HttpBasicCredentials → Exec Server (DbWorkflowJob × DbWorkflow × DbWorkspace)
  get_workflow_job_status job_id auth = do
    user_auth_with_handling out auth
    job ← get_db_workflow_job_with_handling job_id
    ws ← get_db_workspace_with_handling job.workspace_id false true
    wf ← get_db_workflow_with_handling job.workflow_id false
    if contains (success ∷ failed ∷ transferring_from_hpc ∷ []) job.job_state
        then pure tt
        else push_status_request_to_rabbitmq out job_id
    pure (job, wf, ws)
