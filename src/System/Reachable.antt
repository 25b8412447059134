-- ===== src/System/Reachable.antt =====
-- What holds of the documents in every state that the system reaches.
use operandi.Common.{
  ◌≡◌, arith, Option-cases, inl, inr, String, true, Option, some, List, [], ◌∷◌, All, All-select,
  All-map, select, state_of-Post,
}
use operandi.Database.Models.{Db, DbHpcSlurmJob, DbWorkflowJob}
use operandi.Database.WorkflowJob.Laws.{job_at}
use operandi.Database.HpcSlurmJob.Laws.{slurm_job_at}
use operandi.Database.Consistency.{has_job, has_slurm_job, is_submitted, Submitted, SlurmNamed}
use operandi.Database.Consistency.Operations.{Knows, HasSlurmJob}
use operandi.Broker.Worker.{DownloadMessage}
use operandi.Broker.Worker.Sound.{Sound, asked}
use operandi.Broker.Status.Consistency as Status
use operandi.Broker.Download.Consistency as Download
use operandi.Broker.Submit.Consistency as Submit
use operandi.Server.Consistency.{submit_to_rabbitmq_queue-Serves}
use operandi.System.{
  System, Step, request, submit, status, download, Reach, start, later, server_of, submit_site,
  status_site, download_site,
}

abbrev IsSound : System → Type 0
IsSound s = Knows [] (asked s.downloads) s.db

Step-IsSound : {s t : System} → Step s t → IsSound s → IsSound t
Step-IsSound (request s out workflow_id args sbatch details auth) h =
    state_of-Post (λ t. Knows [] (asked s.downloads) t.db) _
      ((submit_to_rabbitmq_queue-Serves out (asked s.downloads) workflow_id args sbatch details
          auth).at
        (server_of s) h)
Step-IsSound (submit s env tag body) h =
    state_of-Post (Sound [] []) _
      ((Submit.consumed_msg_callback-Sounds env tag body).at (submit_site s) h)
Step-IsSound (status s env tag body) h =
    state_of-Post (Sound [] []) _
      ((Status.consumed_msg_callback-Sounds env tag body).at (status_site s) h)
Step-IsSound (download s env tag body) h =
    state_of-Post (Sound [] []) _
      ((Download.consumed_msg_callback-Sounds env tag body).at (download_site s) h)

Reach-IsSound : {s t : System} → IsSound s → Reach s t → IsSound t
Reach-IsSound h start = h
Reach-IsSound h (later r st) = Step-IsSound st (Reach-IsSound h r)

-- Neither a job nor a slurm job is there, and no download is asked for.
pub record IsFresh (s : System) : Type 0 where
  pub jobs : s.db.workflow_jobs ≡ []
  pub slurm_jobs : s.db.hpc_slurm_jobs ≡ []
  pub downloads : s.downloads ≡ []

IsFresh-IsSound : (s : System) → IsFresh s → IsSound s
IsFresh-IsSound s fresh = record {
  consistent = record { slurm_jobs = rw fresh.slurm_jobs tt; jobs = rw fresh.jobs tt };
  jobs = tt;
  slurm_jobs = rw fresh.downloads tt;
}

has_slurm_job-some :
    (id : Option String) (db : Db)
    → has_slurm_job id db ≡ true
    → (slurm : DbHpcSlurmJob) × (slurm_job_at id db ≡ some slurm)
has_slurm_job-some id db h = elim (Option-cases (slurm_job_at id db)) [
  | inl missing ↦ absurd (ground arith)
  | inr found ↦ found
]

has_job-some :
    (id : Option String) (db : Db)
    → has_job id db ≡ true
    → (job : DbWorkflowJob) × (job_at id db ≡ some job)
has_job-some id db h = elim (Option-cases (job_at id db)) [
  | inl missing ↦ absurd (ground arith)
  | inr found ↦ found
]

-- In every state that the server and the workers reach from a fresh one, by requests and messages
-- of any content, in any order and with any answers of the outside: every job that is in a state
-- after its submission has a slurm job, every slurm job belongs to a job, and the job of every
-- message for the download worker has a slurm job.
pub reachable_documents :
    {s t : System}
    → IsFresh s
    → Reach s t
    → All
        (λ job. (slurm : DbHpcSlurmJob) × (slurm_job_at (some job.job_id) t.db ≡ some slurm))
        (select (λ job. is_submitted job.job_state) t.db.workflow_jobs)
      × All
          (λ slurm. (job : DbWorkflowJob) × (job_at (some slurm.workflow_job_id) t.db ≡ some job))
          t.db.hpc_slurm_jobs
      × All
          (λ m. (slurm : DbHpcSlurmJob) × (slurm_job_at (some m.job_id) t.db ≡ some slurm))
          t.downloads
reachable_documents {s} {t} fresh reach =
    let sound = Reach-IsSound (IsFresh-IsSound s fresh) reach in
    let Found =
      λ (id : String). (slurm : DbHpcSlurmJob) × (slurm_job_at (some id) t.db ≡ some slurm) in
    (
      All-select (λ job. Found job.job_id) (λ job. is_submitted job.job_state) t.db.workflow_jobs
          (All-map (Submitted t.db) (λ job. is_submitted job.job_state ≡ true → Found job.job_id)
            t.db.workflow_jobs (λ job h k. has_slurm_job-some (some job.job_id) t.db (h k))
            sound.consistent.jobs),
      All-map (SlurmNamed t.db) _ t.db.hpc_slurm_jobs
          (λ slurm h. has_job-some (some slurm.workflow_job_id) t.db h) sound.consistent.slurm_jobs,
      of_messages t.db t.downloads sound.slurm_jobs,
    )
  where
    of_messages :
        (db : Db) (ms : List DownloadMessage)
        → All (HasSlurmJob db) (asked ms)
        → All (λ m. (slurm : DbHpcSlurmJob) × (slurm_job_at (some m.job_id) db ≡ some slurm)) ms
    of_messages db [] h = tt
    of_messages db (m ∷ ms) h = (has_slurm_job-some (some m.job_id) db h.0, of_messages db ms h.1)
