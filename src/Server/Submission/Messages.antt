-- ===== src/Server/Submission/Messages.antt =====
-- The message of the server, as the submit worker reads it.
use operandi.Common.{
  ℕ, ◌≡◌, refl, ◌∙◌, ap, String, Option, none, some, List, [], false, string_eq, ok, Result, raise,
  done, value_error, state_of, find_one, contains, join, int_of-decimal, text_of, Text,
}
use operandi.Constants.{StateWorkspace}
use operandi.Database.Models.{DbUserAccount, DbWorkflow, DbWorkspace}
use operandi.Database.UserAccount.{is_user}
use operandi.Database.Workflow.{is_workflow}
use operandi.Database.WorkflowJob.Laws.{job_at}
use operandi.Database.Workspace.Laws.{workspace_at}
use operandi.Hpc.Executor.{trigger_slurm_job}
use operandi.Hpc.Transfer.{Local, pack_and_put_slurm_workspace}
use operandi.Broker.Worker.{Env, Site, message_field}
use operandi.Broker.Submit.{
  SubmitWorker, SubmitMessage, int_field, parse_submit_message, slurm_job_args,
  consumed_msg_callback,
}
use operandi.Broker.Submit.Callback.{IsSubmitted, consumed_msg_callback-IsSubmitted}
use operandi.Broker.Submit.Failure.{begun}
use operandi.Broker.Submit.Success.{slurm_job_of}
use operandi.Server.State.{Server, Outside}
use operandi.Server.Users.{PyUserAction}
use operandi.Server.Submission.{
  WorkflowArguments, SbatchArguments, formatted, job_message, queue_job,
}
use operandi.Server.Submission.Laws.{job_of, queue_of, job_queued, job_queued_keeps}

-- What the submit worker keeps of a request.
abbrev pub message_of : Option String → Option String → SbatchArguments → SubmitMessage
message_of input_file_grp remove sbatch = record {
  input_file_grp = formatted input_file_grp;
  remove_file_grps = formatted remove;
  partition = sbatch.partition;
  cpus = sbatch.cpus;
  ram = sbatch.ram;
}

module _ (id : String) (input_file_grp remove : Option String) (sbatch : SbatchArguments) where
  abbrev fields : List (String × String)
  fields = job_message id input_file_grp remove sbatch

  abbrev number : Option ℕ → Result ℕ
  number none = raise value_error
  number (some n) = done n

  cpus_field : int_field "cpus" fields ≡ done sbatch.cpus
  unfolding string_eq
  cpus_field = ap number (int_of-decimal sbatch.cpus)

  ram_field : int_field "ram" fields ≡ done sbatch.ram
  unfolding string_eq
  ram_field = ap number (int_of-decimal sbatch.ram)

  text_fields :
      (message_field "job_id" fields ≡ done id)
      × (message_field "input_file_grp" fields ≡ done (formatted input_file_grp))
      × (message_field "remove_file_grps" fields ≡ done (formatted remove))
      × (message_field "partition" fields ≡ done sbatch.partition)
  unfolding string_eq
  text_fields = (refl, refl, refl, refl)

  -- The submit worker reads the message of the server back: the job id, the groups, and the
  -- numbers that the server printed.
  parse_submit_message-job_message :
      (t : Site SubmitWorker)
      → parse_submit_message (some (job_message id input_file_grp remove sbatch)) t
        ≡ ok
            (message_of input_file_grp remove sbatch)
            (record t { worker = record t.worker { current_message_job_id = some id } })
  unfolding parse_submit_message
  parse_submit_message-job_message t =
      let (a, b, c, d) = text_fields in
      rw a (rw b (rw c (rw d (rw cpus_field (rw ram_field refl)))))

module _ (out : Outside) (user : PyUserAction) (workflow_id details : String)
    (args : WorkflowArguments) (sbatch : SbatchArguments) (remove : Option String)
    (ws : DbWorkspace) (s : Server) (env : Env) (tag : ℕ) (worker : SubmitWorker)
    (files local : Local) (wf : DbWorkflow) (owner : DbUserAccount) (zip : String × String)
    (slurm_job_id : Text) where
  -- The submit worker next to the database that the server left.
  abbrev site_after : Site SubmitWorker
  site_after = record {
    db = (state_of (queue_job out user workflow_id details args sbatch remove s)).db;
    worker = worker;
    local = files;
    acked = [];
    published = [];
  }

  -- From the request to the HPC: the message that the server publishes for a request makes the
  -- submit worker submit the job that the server saved, where the documents are there, the
  -- workspace reaches the HPC and the HPC takes the job. The job and its workspace, which the
  -- server left `QUEUED`, become `PENDING`.
  pub queue_job-IsSubmitted :
      (queue : String)
      → contains s.dirs (join out.workflow_jobs_dir out.new_id) ≡ false
      → workspace_at (some args.workspace_id) s.db ≡ some ws
      → job_at (some out.new_id) s.db ≡ none
      → queue_of user.account_type ≡ some queue
      → out.publish_to_queue ≡ done tt
      → find_one (is_workflow workflow_id) s.db.workflows ≡ some wf
      → find_one (is_user ws.user_id) s.db.user_accounts ≡ some owner
      → pack_and_put_slurm_workspace env.sftp ws.workspace_dir out.new_id wf.workflow_script_path
          files
        ≡ ok zip local
      → trigger_slurm_job env.execute_submit (
          slurm_job_args worker.test_sbatch out.new_id wf
            (record ws { state = StateWorkspace.queued })
            args.workspace_id
            (message_of args.input_file_grp remove sbatch))
        ≡ done slurm_job_id
      → IsSubmitted site_after tag
          (job_of out user workflow_id args.workspace_id details)
          (record ws { state = StateWorkspace.queued })
          (slurm_job_of env user.user_id out.new_id (text_of slurm_job_id))
          (consumed_msg_callback env tag
            (some (job_message out.new_id args.input_file_grp remove sbatch))
            site_after)
  queue_job-IsSubmitted queue free found fresh has_queue publishes found_wf found_owner packed
        triggered =
      let (returns, saved, waiting, pushed, counted) =
        job_queued out user workflow_id details args sbatch remove ws s free found fresh queue
          has_queue publishes in
      let (accounts, workflows) =
        job_queued_keeps out user workflow_id details args sbatch remove ws s free found fresh queue
          has_queue publishes in
      consumed_msg_callback-IsSubmitted env site_after tag
        (job_message out.new_id args.input_file_grp remove sbatch)
        (message_of args.input_file_grp remove sbatch)
        (job_of out user workflow_id args.workspace_id details) wf
        (record ws { state = StateWorkspace.queued }) owner zip local slurm_job_id saved waiting
        (ap (find_one (is_user ws.user_id)) accounts ∙ found_owner) packed triggered
        (ap (find_one (is_workflow workflow_id)) workflows ∙ found_wf)
        (parse_submit_message-job_message out.new_id args.input_file_grp remove sbatch
          (begun tag site_after))
