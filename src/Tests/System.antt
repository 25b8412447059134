-- ===== src/Tests/System.antt =====
-- A job from its request to the answer that its slurm job has completed.
use operandi.Common.{
  ◌≡◌, refl, some, List, [], ◌∷◌, All, select, state_of, find_one, string_eq, option_eq,
}
use operandi.Constants.Job.{StateJob, state_job_eq}
use operandi.Database.Updates.{JobUpdate}
use operandi.Database.WorkflowJob.Refinement.{JobOp, run, spec, jobs_of, seen, apply, run_refines}
use operandi.Database.Models.{DbHpcSlurmJob, DbWorkflowJob}
use operandi.Database.WorkflowJob.Laws.{job_at}
use operandi.Database.HpcSlurmJob.Laws.{slurm_job_at}
use operandi.Database.Consistency.{is_submitted}
use operandi.Broker.Worker.{Body, Site, Worker, new_worker}
use operandi.Broker.Status.Settled.{settled_job_stays}
use operandi.Broker.Status as Status
use operandi.Broker.Submit as Submit
use operandi.Broker.Submit.{SubmitWorker}
use operandi.Server.Submission.{job_message, submit_to_rabbitmq_queue}
use operandi.System.{
  System, request, submit, status, Reach, start, later, with_server, server_of, with_submit_site,
  submit_site, with_status_site, status_site,
}
use operandi.System.Reachable.{IsFresh, reachable_documents}
use operandi.Tests.Fixtures.{env, site, db, job, fresh_submit_worker}
use operandi.Tests.Installation.{out, server, credentials, arguments, sbatch}

abbrev fresh : System
fresh = record {
  db = record server.db { workflow_jobs = []; hpc_slurm_jobs = [] };
  requests = [];
  dirs = [];
  downloads = [];
  local = [];
  submit_worker = fresh_submit_worker;
  status_worker = new_worker;
  download_worker = new_worker;
  submit_acked = [];
  status_acked = [];
  download_acked = [];
}

fresh-IsFresh : IsFresh fresh
fresh-IsFresh = record { jobs = refl; slurm_jobs = refl; downloads = refl }

abbrev requested : System
requested = with_server fresh (
    state_of
      (submit_to_rabbitmq_queue out "wf1" arguments sbatch "d" credentials (server_of fresh)))

abbrev submit_body : Body
submit_body = some (job_message "j2" (some "IN") (some "") sbatch)

abbrev submitted : System
submitted =
    with_submit_site requested
      (state_of (Submit.consumed_msg_callback env 7 submit_body (submit_site requested)))

abbrev status_body : Body
status_body = some (("job_id", "j2") ∷ [])

abbrev answered : System
answered =
    with_status_site submitted
      (state_of (Status.consumed_msg_callback env 8 status_body (status_site submitted)))

answered-Reach : Reach fresh answered
answered-Reach =
    later
      (later (later start (request fresh out "wf1" arguments sbatch "d" credentials))
        (submit requested env 7 submit_body))
      (status submitted env 8 status_body)

reachable_documents_example :
    All
      (λ job. (slurm : DbHpcSlurmJob) × (slurm_job_at (some job.job_id) answered.db ≡ some slurm))
      (select (λ job. is_submitted job.job_state) answered.db.workflow_jobs)
    × All
        (λ slurm.
          (job : DbWorkflowJob) × (job_at (some slurm.workflow_job_id) answered.db ≡ some job))
        answered.db.hpc_slurm_jobs
    × All
        (λ m. (slurm : DbHpcSlurmJob) × (slurm_job_at (some m.job_id) answered.db ≡ some slurm))
        answered.downloads
reachable_documents_example = reachable_documents fresh-IsFresh answered-Reach

abbrev success_site : Site Worker
success_site = record site {
  db = record db { workflow_jobs = record job { job_state = StateJob.success } ∷ [] };
}

settled_job_stays_example :
    job_at
      (some "j1")
      (state_of (Status.consumed_msg_callback env 8 (some (("job_id", "j1") ∷ [])) success_site)).db
    ≡ some (record job { job_state = StateJob.success })
unfolding find_one string_eq option_eq state_job_eq
settled_job_stays_example =
    settled_job_stays env 8 (some (("job_id", "j1") ∷ [])) success_site "j1"
      (record job { job_state = StateJob.success }) refl refl

-- A job is created twice, moved, and searched for under two ids.
abbrev operations : List JobOp
operations =
    JobOp.create 1 "u1" "j9" "/jobs/j9" StateJob.queued "wf1" "ws1" "d"
    ∷ JobOp.create 2 "u2" "j9" "/jobs/j9" StateJob.queued "wf1" "ws1" "d"
    ∷ JobOp.update (some "j9") (JobUpdate.job_state StateJob.pending ∷ [])
    ∷ JobOp.get (some "j9")
    ∷ JobOp.get (some "j8")
    ∷ []

run_refines_example : run spec operations (jobs_of db) ≡ seen (run apply operations db)
run_refines_example = run_refines operations db (tt, (tt, ((tt, tt), (tt, (tt, tt)))))
