-- ===== src/Tests/Server.antt =====
-- Requests to the server.
use operandi.Common.{
  String, Option, none, ◌++◌, if◌then◌else◌, codes, text_of, ◌≡◌, ◌≢◌, refl, true, false, some, [],
  ◌∷◌, arith, done, ok, raised, Outcome, http_exception, find_one, string_eq, option_eq, nat_eq,
  state_of, is_ok,
}
use operandi.Constants.{AccountType, StateWorkspace, account_type_eq, state_workspace_eq}
use operandi.Constants.Job.{state_job_eq}
use operandi.Database.Models.{DbWorkflow, DbWorkflowJob, DbWorkspace}
use operandi.Database.WorkflowJob.{db_create_workflow_job}
use operandi.Database.ProcessingStats.{db_create_page_stat}
use operandi.Database.ModelsStats.{page_stat_type_to_model, StatType}
use operandi.Database.UserAccount.{db_get_user_account_with_email}
use operandi.Database.Workflow.{db_get_workflow}
use operandi.Database.Workspace.{db_update_workspace, db_get_workspace}
use operandi.Database.WorkflowJob.Laws.{job_at}
use operandi.Database.Workspace.Laws.{workspace_at}
use operandi.Server.State.{Server}
use operandi.Server.Users.{
  PyUserAction, validate_password, split_dollar, from_db_user_account, user_auth_with_handling,
}
use operandi.Server.Resources.{
  check_if_file_group_exists_with_handling, get_db_workspace_with_handling,
  get_db_workflow_with_handling,
}
use operandi.Server.Submission.{
  make_dir_workflow_job, push_job_to_rabbitmq, create_page_stat_with_handling, job_message, is_set,
  check_request, remove_groups_of, queue_job, submit_to_rabbitmq_queue, get_workflow_job_status,
}
use operandi.Server.Submission.Laws.{job_queued, refused_account_leaves_queued, job_of}
use operandi.Server.Submission.Accepted.{IsAccepted, submit_to_rabbitmq_queue-IsAccepted}
use operandi.Server.Submission.Requests.{
  status_messages, unready_workspace_refused, get_workflow_job_status_lem,
}
use operandi.Constants.Images.{image_of}
use operandi.Hpc.Executor.{magnitude_of, trigger_slurm_job, force_command}
use operandi.Hpc.Transfer.{
  pack_and_put_slurm_workspace, create_slurm_workspace_zip, put_slurm_workspace,
}
use operandi.Broker.Worker.{Site}
use operandi.Broker.Submit as Submit
use operandi.Broker.Submit.{SubmitWorker, parse_submit_message, slurm_job_args}
use operandi.Broker.Submit.Callback.{IsSubmitted}
use operandi.Broker.Submit.Success.{slurm_job_of}
use operandi.Server.Submission.Messages.{message_of, queue_job-IsSubmitted}
use operandi.Tests.Fixtures.{env, fresh_submit_worker, user, workflow, job, workspace, db}
use operandi.Tests.Installation.{
  out, ready_workspace, server, credentials, action, arguments, sbatch,
}

abbrev queued : AccountType → Outcome Server DbWorkflowJob
queued type = queue_job out (action type) "wf1" "d" arguments sbatch (some "") server

job_queued_example :
    (is_ok (queued AccountType.user) ≡ true)
    × (job_at (some "j2") (state_of (queued AccountType.user)).db
        ≡ some (job_of out (action AccountType.user) "wf1" "ws1" "d"))
    × (workspace_at (some "ws1") (state_of (queued AccountType.user)).db
        ≡ some (record ready_workspace { state = StateWorkspace.queued }))
    × ((state_of (queued AccountType.user)).published
        ≡ ("operandi_queue_users", job_message "j2" (some "IN") (some "") sbatch) ∷ [])
    × ((state_of (queued AccountType.user)).db.page_stats
        ≡ record {
          stat_type = StatType.submitted;
          institution_id = "goe";
          user_id = "u1";
          datetime = 9;
          workspace_id = "ws1";
          quantity = 3;
          workflow_job_id = some "j2";
        }
          ∷ [])
unfolding find_one string_eq option_eq
job_queued_example =
    job_queued out (action AccountType.user) "wf1" "d" arguments sbatch (some "") ready_workspace
      server refl refl refl "operandi_queue_users" refl refl

refused_account_leaves_queued_example :
    (queued AccountType.machine
      ≡ raised (http_exception 403) (state_of (queued AccountType.machine)))
    × (job_at (some "j2") (state_of (queued AccountType.machine)).db
        ≡ some (job_of out (action AccountType.machine) "wf1" "ws1" "d"))
    × (workspace_at (some "ws1") (state_of (queued AccountType.machine)).db
        ≡ some (record ready_workspace { state = StateWorkspace.queued }))
    × ((state_of (queued AccountType.machine)).published ≡ [])
unfolding find_one string_eq option_eq
refused_account_leaves_queued_example =
    refused_account_leaves_queued out (action AccountType.machine) "wf1" "d" arguments sbatch
      (some "") ready_workspace server refl refl refl refl

let_in : user_auth_with_handling out credentials server ≡ ok (action AccountType.user) server
unfolding user_auth_with_handling db_get_user_account_with_email find_one string_eq
    validate_password from_db_user_account split_dollar
let_in = refl

abbrev queued_job : DbWorkflowJob
queued_job = job_of out (action AccountType.user) "wf1" "ws1" "d"

answered :
    submit_to_rabbitmq_queue out "wf1" arguments sbatch "d" credentials server
    ≡ ok queued_job (state_of (queued AccountType.user))
unfolding submit_to_rabbitmq_queue user_auth_with_handling db_get_user_account_with_email find_one
    string_eq option_eq validate_password from_db_user_account split_dollar check_request
    get_db_workspace_with_handling get_db_workflow_with_handling db_get_workspace db_get_workflow
    remove_groups_of check_if_file_group_exists_with_handling is_set state_workspace_eq queue_job
    make_dir_workflow_job db_update_workspace db_create_workflow_job push_job_to_rabbitmq
    account_type_eq create_page_stat_with_handling db_create_page_stat page_stat_type_to_model
answered = refl

no_job : job_at (some "j2") server.db ≡ none
unfolding find_one string_eq option_eq
no_job = refl

submit_to_rabbitmq_queue-IsAccepted_example :
    (user : PyUserAction) × (ws : DbWorkspace) × (wf : DbWorkflow) × (remove : Option String)
    × (queue : String) × IsAccepted out "wf1" "d" arguments sbatch credentials server
        (state_of (queued AccountType.user))
        user
        ws
        wf
        remove
        queue
        queued_job
submit_to_rabbitmq_queue-IsAccepted_example =
    submit_to_rabbitmq_queue-IsAccepted out "wf1" "d" arguments sbatch credentials server
      (state_of (queued AccountType.user)) queued_job no_job answered

-- The workspace is with a job.
abbrev busy_server : Server
busy_server = record server { db = record db { workspaces = workspace ∷ [] } }

pending_is_unready : StateWorkspace.pending ≢ StateWorkspace.ready
pending_is_unready h = ground arith

unready_workspace_refused_example :
    (is_ok (submit_to_rabbitmq_queue out "wf1" arguments sbatch "d" credentials busy_server)
      ≡ false)
    × (state_of (submit_to_rabbitmq_queue out "wf1" arguments sbatch "d" credentials busy_server)
        ≡ busy_server)
unfolding find_one string_eq option_eq
unready_workspace_refused_example =
    unready_workspace_refused out "wf1" "d" arguments sbatch credentials busy_server workspace refl
      pending_is_unready

get_workflow_job_status_lem_example : get_workflow_job_status out "j1" credentials server ≡ (
    if ready_workspace.deleted
    then raised (http_exception 410) server
    else ok
        (job, workflow, ready_workspace)
        (record server { published = server.published ++ status_messages job "j1" }))
unfolding find_one string_eq option_eq
get_workflow_job_status_lem_example =
    get_workflow_job_status_lem out "j1" credentials server (action AccountType.user) job
      ready_workspace workflow let_in refl refl refl refl

abbrev worker_site : Site SubmitWorker
worker_site = record {
  db = (state_of (queued AccountType.user)).db;
  worker = fresh_submit_worker;
  local = [];
  acked = [];
  published = [];
}

abbrev queued_workspace : DbWorkspace
queued_workspace = record ready_workspace { state = StateWorkspace.queued }

job_triggered :
    trigger_slurm_job env.execute_submit (
      slurm_job_args true "j2" workflow queued_workspace "ws1"
        (message_of (some "IN") (some "") sbatch))
    ≡ done (codes "77")
unfolding trigger_slurm_job force_command slurm_job_args image_of string_eq magnitude_of
job_triggered = refl

queue_job-IsSubmitted_example :
    IsSubmitted worker_site 7
      (job_of out (action AccountType.user) "wf1" "ws1" "d")
      queued_workspace
      (slurm_job_of env "u1" "j2" (text_of (codes "77")))
      (Submit.consumed_msg_callback env 7
        (some (job_message "j2" (some "IN") (some "") sbatch))
        worker_site)
unfolding find_one string_eq option_eq pack_and_put_slurm_workspace create_slurm_workspace_zip
    put_slurm_workspace
queue_job-IsSubmitted_example =
    queue_job-IsSubmitted out (action AccountType.user) "wf1" "d" arguments sbatch (some "")
      ready_workspace server env 7 fresh_submit_worker [] _ workflow
      (record user { encrypted_pass = "ab$habpw"; details = some "d" }) _ (codes "77")
      "operandi_queue_users" refl refl refl refl refl refl refl refl job_triggered
