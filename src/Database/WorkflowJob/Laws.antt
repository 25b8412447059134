-- ===== src/Database/WorkflowJob/Laws.antt =====
-- What the operations on workflow jobs leave in the database.
use operandi.Common.{
  ◌≡◌, String, Option, none, some, List, [], ◌∷◌, arith, ◌==◌, option_eq, string_eq, if◌then◌else◌,
  find_one, save_found, find_one-save_found_key, key-find_one, ok, raised, runtime_error, Exc,
  length, Option-cases, inl, inr, length-save_found,
}
use operandi.Constants.Job.{StateJob}
use operandi.Database.Updates.{JobUpdate}
use operandi.Database.Models.{Db, DbWorkflowJob}
use operandi.Database.WorkflowJob.{is_job, db_get_workflow_job, db_update_workflow_job}

-- The job that the database has under an id.
abbrev pub job_at : Option String → Db → Option DbWorkflowJob
job_at id db = find_one (is_job id) db.workflow_jobs

abbrev pub with_job : Option String → DbWorkflowJob → Db → Db
with_job id job db = record db { workflow_jobs = save_found (is_job id) job db.workflow_jobs }

pub id-job_at :
    (id : Option String) (db : Db) {job : DbWorkflowJob}
    → job_at id db ≡ some job
    → some job.job_id ≡ id
id-job_at id db {job} h = key-find_one (λ d. some d.job_id) id db.workflow_jobs job h

pub job_at-with_job :
    (id k : Option String) (job' : DbWorkflowJob) (db : Db) (job : DbWorkflowJob)
    → job_at id db ≡ some job
    → some job'.job_id ≡ id
    → job_at k (with_job id job' db) ≡ (if k == id then some job' else job_at k db)
job_at-with_job id k job' db job h e =
    find_one-save_found_key (λ d. some d.job_id) id k job' db.workflow_jobs job h e

pub update_job_state :
    (id : Option String) (s : StateJob) (db : Db) {job : DbWorkflowJob}
    → job_at id db ≡ some job
    → db_update_workflow_job id (JobUpdate.job_state s ∷ []) db
      ≡ ok (record job { job_state = s }) (with_job id (record job { job_state = s }) db)
unfolding db_update_workflow_job
update_job_state id s db h = ground arith

pub update_missing_job :
    (id : Option String) (us : List JobUpdate) (db : Db)
    → job_at id db ≡ none
    → db_update_workflow_job id us db ≡ raised runtime_error db
unfolding db_update_workflow_job
update_missing_job id us db h = ground arith

-- An update that raises has saved nothing, whichever of its keyword arguments were already set on
-- the document in memory.
pub update_job_atomic :
    (id : Option String) (us : List JobUpdate) (db db' : Db) (e : Exc)
    → db_update_workflow_job id us db ≡ raised e db'
    → db' ≡ db
unfolding db_update_workflow_job
update_job_atomic id us db db' e h = ground arith

-- An update that returns has saved the document that it returns: under an id that it kept, a search
-- for that id finds it, a search for another id finds what it found before, and no document is
-- added or lost.
pub update_job_saved :
    (id k : Option String) (us : List JobUpdate) (db db' : Db) (job' : DbWorkflowJob)
    → db_update_workflow_job id us db ≡ ok job' db'
    → some job'.job_id ≡ id
    → (job_at k db' ≡ (if k == id then some job' else job_at k db))
      × (length db'.workflow_jobs ≡ length db.workflow_jobs)
unfolding db_update_workflow_job
update_job_saved id k us db db' job' h e = elim (Option-cases (job_at id db)) [
  | inl missing ↦ ground arith
  | inr (job, found) ↦ ground (
    arith,
    job_at-with_job id k job' db job found e,
    length-save_found (is_job id) job' db.workflow_jobs,
  )
]

pub get_job :
    (id : Option String) (db : Db) (job : DbWorkflowJob)
    → job_at id db ≡ some job
    → db_get_workflow_job id db ≡ ok job db
unfolding db_get_workflow_job
get_job id db job h = ground arith

pub get_missing_job :
    (id : Option String) (db : Db)
    → job_at id db ≡ none
    → db_get_workflow_job id db ≡ raised runtime_error db
unfolding db_get_workflow_job
get_missing_job id db h = ground arith
