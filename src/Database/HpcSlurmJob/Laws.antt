-- ===== src/Database/HpcSlurmJob/Laws.antt =====
-- What the operations on slurm jobs leave in the database.
use operandi.Common.{
  ◌≡◌, String, Option, none, some, List, [], ◌∷◌, arith, ◌==◌, option_eq, string_eq, if◌then◌else◌,
  find_one, save_found, find_one-save_found_key, key-find_one, ok, raised, runtime_error, Exc,
}
use operandi.Constants.Slurm.{StateJobSlurm}
use operandi.Database.Updates.{SlurmJobUpdate}
use operandi.Database.Models.{Db, DbHpcSlurmJob}
use operandi.Database.HpcSlurmJob.{is_slurm_job_of, db_get_hpc_slurm_job, db_update_hpc_slurm_job}

-- The slurm job that the database has for a workflow job.
abbrev pub slurm_job_at : Option String → Db → Option DbHpcSlurmJob
slurm_job_at id db = find_one (is_slurm_job_of id) db.hpc_slurm_jobs

abbrev pub with_slurm_job : Option String → DbHpcSlurmJob → Db → Db
with_slurm_job id job db = record db {
  hpc_slurm_jobs = save_found (is_slurm_job_of id) job db.hpc_slurm_jobs;
}

pub slurm_job_at-with_slurm_job :
    (id k : Option String) (job' : DbHpcSlurmJob) (db : Db) (job : DbHpcSlurmJob)
    → slurm_job_at id db ≡ some job
    → some job'.workflow_job_id ≡ id
    → slurm_job_at k (with_slurm_job id job' db)
      ≡ (if k == id then some job' else slurm_job_at k db)
slurm_job_at-with_slurm_job id k job' db job h e =
    find_one-save_found_key (λ d. some d.workflow_job_id) id k job' db.hpc_slurm_jobs job h e

pub id-slurm_job_at :
    (id : Option String) (db : Db) {job : DbHpcSlurmJob}
    → slurm_job_at id db ≡ some job
    → some job.workflow_job_id ≡ id
id-slurm_job_at id db {job} h =
    key-find_one (λ d. some d.workflow_job_id) id db.hpc_slurm_jobs job h

pub get_slurm_job :
    (id : Option String) (db : Db) (job : DbHpcSlurmJob)
    → slurm_job_at id db ≡ some job
    → db_get_hpc_slurm_job id db ≡ ok job db
unfolding db_get_hpc_slurm_job
get_slurm_job id db job h = ground arith

pub get_missing_slurm_job :
    (id : Option String) (db : Db)
    → slurm_job_at id db ≡ none
    → db_get_hpc_slurm_job id db ≡ raised runtime_error db
unfolding db_get_hpc_slurm_job
get_missing_slurm_job id db h = ground arith

pub update_slurm_job_state :
    (id : Option String) (s : StateJobSlurm) (db : Db) (job : DbHpcSlurmJob)
    → slurm_job_at id db ≡ some job
    → db_update_hpc_slurm_job id (SlurmJobUpdate.hpc_slurm_job_state s ∷ []) db
      ≡ ok
          (record job { hpc_slurm_job_state = s })
          (with_slurm_job id (record job { hpc_slurm_job_state = s }) db)
unfolding db_update_hpc_slurm_job
update_slurm_job_state id s db job h = ground arith

pub update_missing_slurm_job :
    (id : Option String) (us : List SlurmJobUpdate) (db : Db)
    → slurm_job_at id db ≡ none
    → db_update_hpc_slurm_job id us db ≡ raised runtime_error db
unfolding db_update_hpc_slurm_job
update_missing_slurm_job id us db h = ground arith

-- An update that raises has saved nothing.
pub update_slurm_job_atomic :
    (id : Option String) (us : List SlurmJobUpdate) (db db' : Db) (e : Exc)
    → db_update_hpc_slurm_job id us db ≡ raised e db'
    → db' ≡ db
unfolding db_update_hpc_slurm_job
update_slurm_job_atomic id us db db' e h = ground arith
