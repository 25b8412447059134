-- ===== src/Database/WorkflowJob.antt =====
-- src/utils/operandi_utils/database/db_workflow_job.py
pub mod Laws
pub mod Refinement
use operandi.Common.{
  ℕ, String, Bool, true, false, Option, none, some, List, [], ◌∷◌, ◌++◌, Eq, ◌==◌, string_eq,
  option_eq, find_one, save_found, select, Exec, ok, raised, Result, done, raise, lift, pure,
  modify, ◌>>=◌, ◌>>◌, runtime_error, value_error,
}
use operandi.Constants.Job.{StateJob}
use operandi.Database.Updates.{JobUpdate}
use operandi.Database.Models.{Db, DbWorkflowJob}
use operandi.Database.Query.{meets_query}

abbrev pub is_job : Option String → DbWorkflowJob → Bool
is_job id d = some d.job_id == id

unfoldable pub db_create_workflow_job :
    ℕ → String → String → String → StateJob → String → String → String → Exec Db DbWorkflowJob
db_create_workflow_job now user_id job_id job_dir job_state workflow_id workspace_id details db =
    let job : DbWorkflowJob = record {
      user_id = user_id;
      job_id = job_id;
      job_dir = job_dir;
      workflow_id = workflow_id;
      workspace_id = workspace_id;
      job_state = job_state;
      workflow_dir = none;
      workspace_dir = none;
      hpc_slurm_job_id = none;
      deleted = false;
      datetime = some now;
      details = some details;
    } in
    ok job (record db { workflow_jobs = db.workflow_jobs ++ job ∷ [] })

unfoldable pub db_get_workflow_job : Option String → Exec Db DbWorkflowJob
db_get_workflow_job job_id db = elim (find_one (is_job job_id) db.workflow_jobs) [
  | none ↦ raised runtime_error db
  | some job ↦ ok job db
]

unfoldable pub db_get_all_workflow_jobs_by_user :
    String → Option ℕ → Option ℕ → Bool → Exec Db (List DbWorkflowJob)
unfolding select meets_query
db_get_all_workflow_jobs_by_user user_id start_date end_date hide_deleted db =
    ok
      (select
        (λ d. meets_query user_id start_date end_date hide_deleted d.user_id d.datetime d.deleted)
        db.workflow_jobs)
      db

abbrev set_field : JobUpdate → DbWorkflowJob → Result DbWorkflowJob
set_field (JobUpdate.job_id v) d = done (record d { job_id = v })
set_field (JobUpdate.job_dir v) d = done (record d { job_dir = v })
set_field (JobUpdate.job_state v) d = done (record d { job_state = v })
set_field (JobUpdate.workflow_id v) d = done (record d { workflow_id = v })
set_field (JobUpdate.workspace_id v) d = done (record d { workspace_id = v })
set_field (JobUpdate.workflow_dir v) d = done (record d { workflow_dir = v })
set_field (JobUpdate.workspace_dir v) d = done (record d { workspace_dir = v })
set_field (JobUpdate.hpc_slurm_job_id v) d = done (record d { hpc_slurm_job_id = v })
set_field (JobUpdate.deleted v) d = done (record d { deleted = v })
set_field (JobUpdate.details v) d = done (record d { details = v })
set_field (JobUpdate.not_available key) d = raise value_error
set_field (JobUpdate.not_updatable key) d = raise value_error

-- The loop over the keyword arguments.
unfoldable pub set_fields : List JobUpdate → DbWorkflowJob → Result DbWorkflowJob
set_fields [] d = done d
set_fields (u ∷ us) d = elim (set_field u d) [ done d' ↦ set_fields us d' | raise e ↦ raise e ]

unfoldable pub db_update_workflow_job : Option String → List JobUpdate → Exec Db DbWorkflowJob
unfolding db_get_workflow_job set_fields
db_update_workflow_job find_job_id kwargs = do
  job ← db_get_workflow_job find_job_id
  job' ← lift (set_fields kwargs job)
  modify (λ db. record db { workflow_jobs = save_found (is_job find_job_id) job' db.workflow_jobs })
  pure job'

-- `call_sync` runs the coroutine to its end.
abbrev pub sync_db_create_workflow_job :
    ℕ → String → String → String → StateJob → String → String → String → Exec Db DbWorkflowJob
sync_db_create_workflow_job = db_create_workflow_job

abbrev pub sync_db_get_workflow_job : Option String → Exec Db DbWorkflowJob
sync_db_get_workflow_job = db_get_workflow_job

abbrev pub sync_db_update_workflow_job : Option String → List JobUpdate → Exec Db DbWorkflowJob
sync_db_update_workflow_job = db_update_workflow_job

abbrev pub sync_db_get_all_workflow_jobs_by_user :
    String → Option ℕ → Option ℕ → Bool → Exec Db (List DbWorkflowJob)
sync_db_get_all_workflow_jobs_by_user = db_get_all_workflow_jobs_by_user
