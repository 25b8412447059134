-- ===== src/Database/Consistency.antt =====
-- What the documents of a job say of one another, and which operations keep it.
pub mod Operations
use operandi.Common.{
  ◌≡◌, refl, ap, sym, ◌∙◌, String, Bool, true, false, Option, none, some, List, [], ◌∷◌, ◌++◌, ◌==◌,
  string_eq, option_eq, ==_iff, Option-cases, Bool-cases, inl, inr, find_one, save_found,
  find_one-append, All, All-map, All-append, All-save_found, All-find_one, arith, if◌then◌else◌,
  Exec, Ensures, Post, ok, raised,
}
use operandi.Constants.Slurm.{StateJobSlurm}
use operandi.Constants.Job.{
  StateJob, pending, running, success, hpc_success, hpc_failed, transferring_from_hpc,
}
use operandi.Database.Models.{Db, DbHpcSlurmJob, DbWorkflowJob}
use operandi.Database.WorkflowJob.{is_job}
use operandi.Database.WorkflowJob.Laws.{job_at, with_job, job_at-with_job, id-job_at}
use operandi.Database.HpcSlurmJob.{is_slurm_job_of}
use operandi.Database.HpcSlurmJob.Laws.{
  slurm_job_at, with_slurm_job, slurm_job_at-with_slurm_job, id-slurm_job_at,
}

abbrev is_some {ℓ} : {A : Type ℓ} → Option A → Bool
is_some none = false
is_some (some a) = true

abbrev pub has_job : Option String → Db → Bool
has_job id db = is_some (job_at id db)

abbrev pub has_slurm_job : Option String → Db → Bool
has_slurm_job id db = is_some (slurm_job_at id db)

-- The states of a job that was submitted to the HPC. A failed one need not have been.
abbrev pub is_submitted : StateJob → Bool
is_submitted pending = true
is_submitted running = true
is_submitted success = true
is_submitted hpc_success = true
is_submitted hpc_failed = true
is_submitted transferring_from_hpc = true
is_submitted _ = false

abbrev pub SlurmNamed : Db → DbHpcSlurmJob → Type 0
SlurmNamed db d = has_job (some d.workflow_job_id) db ≡ true

abbrev pub Submitted : Db → DbWorkflowJob → Type 0
Submitted db j = is_submitted j.job_state ≡ true → has_slurm_job (some j.job_id) db ≡ true

-- Every slurm job belongs to a job, and every job that was submitted has a slurm job.
pub record IsConsistent (db : Db) : Type 0 where
  pub slurm_jobs : All (SlurmNamed db) db.hpc_slurm_jobs
  pub jobs : All (Submitted db) db.workflow_jobs

module _ (id : Option String) (job : DbWorkflowJob) (db : Db) (found : job_at id db ≡ some job)
    (v : StateJob) where
  abbrev moved : DbWorkflowJob
  moved = record job { job_state = v }

  pub has_job-with_job : (k : Option String) → has_job k (with_job id moved db) ≡ has_job k db
  has_job-with_job k =
      ground (arith, job_at-with_job id k moved db job found (id-job_at id db found), ==_iff k id)

  -- A job may get any state that asks for no slurm job, and any at all if it has one.
  pub with_job-IsConsistent :
      (is_submitted v ≡ true → has_slurm_job id db ≡ true)
      → IsConsistent db
      → IsConsistent (with_job id moved db)
  with_job-IsConsistent submitted c = record {
    slurm_jobs =
        All-map (SlurmNamed db) (SlurmNamed (with_job id moved db)) db.hpc_slurm_jobs
          (λ d h. has_job-with_job (some d.workflow_job_id) ∙ h) c.slurm_jobs;
    jobs =
        All-save_found (Submitted db) (is_job id) moved db.workflow_jobs
          (λ s. ap (λ k. has_slurm_job k db) (id-job_at id db found) ∙ submitted s) c.jobs;
  }

module _ (id : Option String) (slurm : DbHpcSlurmJob) (db : Db)
    (found : slurm_job_at id db ≡ some slurm) (v : StateJobSlurm) where
  abbrev slurm_moved : DbHpcSlurmJob
  slurm_moved = record slurm { hpc_slurm_job_state = v }

  pub has_slurm_job-with_slurm_job :
      (k : Option String) → has_slurm_job k (with_slurm_job id slurm_moved db) ≡ has_slurm_job k db
  has_slurm_job-with_slurm_job k = ground (
    arith,
    slurm_job_at-with_slurm_job id k slurm_moved db slurm found (id-slurm_job_at id db found),
    ==_iff k id,
  )

  pub with_slurm_job-IsConsistent :
      IsConsistent db → IsConsistent (with_slurm_job id slurm_moved db)
  with_slurm_job-IsConsistent c = record {
    slurm_jobs =
        All-save_found (SlurmNamed db) (is_slurm_job_of id) slurm_moved db.hpc_slurm_jobs
          (All-find_one (SlurmNamed db) (is_slurm_job_of id) db.hpc_slurm_jobs slurm found
            c.slurm_jobs)
          c.slurm_jobs;
    jobs =
        All-map (Submitted db) (Submitted (with_slurm_job id slurm_moved db)) db.workflow_jobs
          (λ j h s. has_slurm_job-with_slurm_job (some j.job_id) ∙ h s) c.jobs;
  }

module _ (db : Db) (slurm : DbHpcSlurmJob) where
  abbrev pub with_new_slurm_job : Db
  with_new_slurm_job = record db { hpc_slurm_jobs = db.hpc_slurm_jobs ++ slurm ∷ [] }

  pub has_slurm_job-with_new_slurm_job :
      (k : Option String) → has_slurm_job k db ≡ true → has_slurm_job k with_new_slurm_job ≡ true
  has_slurm_job-with_new_slurm_job k h =
      ground (arith, find_one-append (is_slurm_job_of k) db.hpc_slurm_jobs (slurm ∷ []))

  pub has_slurm_job-new : has_slurm_job (some slurm.workflow_job_id) with_new_slurm_job ≡ true
  unfolding find_one
  has_slurm_job-new = ground (
    arith,
    find_one-append (is_slurm_job_of (some slurm.workflow_job_id)) db.hpc_slurm_jobs (slurm ∷ []),
    ==_iff (some slurm.workflow_job_id) (some slurm.workflow_job_id),
  )

  pub with_new_slurm_job-IsConsistent :
      has_job (some slurm.workflow_job_id) db ≡ true
      → IsConsistent db
      → IsConsistent with_new_slurm_job
  with_new_slurm_job-IsConsistent h c = record {
    slurm_jobs = All-append (SlurmNamed db) db.hpc_slurm_jobs (slurm ∷ []) c.slurm_jobs (h, tt);
    jobs =
        All-map (Submitted db) (Submitted with_new_slurm_job) db.workflow_jobs
          (λ j k s. has_slurm_job-with_new_slurm_job (some j.job_id) (k s)) c.jobs;
  }

module _ (db : Db) (job : DbWorkflowJob) where
  abbrev pub with_new_job : Db
  with_new_job = record db { workflow_jobs = db.workflow_jobs ++ job ∷ [] }

  pub has_job-with_new_job :
      (k : Option String) → has_job k db ≡ true → has_job k with_new_job ≡ true
  has_job-with_new_job k h = ground (arith, find_one-append (is_job k) db.workflow_jobs (job ∷ []))

  pub with_new_job-IsConsistent :
      is_submitted job.job_state ≡ false → IsConsistent db → IsConsistent with_new_job
  with_new_job-IsConsistent new c = record {
    slurm_jobs =
        All-map (SlurmNamed db) (SlurmNamed with_new_job) db.hpc_slurm_jobs
          (λ d h. has_job-with_new_job (some d.workflow_job_id) h) c.slurm_jobs;
    jobs = All-append (Submitted db) db.workflow_jobs (job ∷ []) c.jobs ((λ s. cc), tt);
  }
