-- ===== src/Database/HpcSlurmJob.antt =====
-- src/utils/operandi_utils/database/db_hpc_slurm_job.py
pub mod Laws
use operandi.Common.{
  ℕ, String, Bool, true, false, Option, none, some, List, [], ◌∷◌, ◌++◌, Eq, ◌==◌, string_eq,
  option_eq, find_one, save_found, select, Exec, ok, raised, Result, done, raise, lift, pure,
  modify, ◌>>=◌, ◌>>◌, runtime_error, value_error,
}
use operandi.Constants.Slurm.{StateJobSlurm}
use operandi.Database.Updates.{SlurmJobUpdate}
use operandi.Database.Models.{Db, DbHpcSlurmJob}

abbrev pub is_slurm_job_of : Option String → DbHpcSlurmJob → Bool
is_slurm_job_of id d = some d.workflow_job_id == id

-- The default arguments of the source stand at the calls.
unfoldable pub db_create_hpc_slurm_job :
    ℕ → String → String → String → String → String → StateJobSlurm → String → Exec Db DbHpcSlurmJob
db_create_hpc_slurm_job now user workflow_job slurm_job batch_script_path workspace_path state
      details db =
    let job : DbHpcSlurmJob = record {
      user_id = user;
      workflow_job_id = workflow_job;
      hpc_slurm_job_id = slurm_job;
      hpc_slurm_job_state = state;
      hpc_batch_script_path = some batch_script_path;
      hpc_slurm_workspace_path = some workspace_path;
      deleted = false;
      datetime = some now;
      details = some details;
    } in
    ok job (record db { hpc_slurm_jobs = db.hpc_slurm_jobs ++ job ∷ [] })

unfoldable pub db_get_hpc_slurm_job : Option String → Exec Db DbHpcSlurmJob
db_get_hpc_slurm_job workflow_job_id db =
    elim (find_one (is_slurm_job_of workflow_job_id) db.hpc_slurm_jobs) [
      | none ↦ raised runtime_error db
      | some job ↦ ok job db
    ]

abbrev set_field : SlurmJobUpdate → DbHpcSlurmJob → Result DbHpcSlurmJob
set_field (SlurmJobUpdate.workflow_job_id v) d = done (record d { workflow_job_id = v })
set_field (SlurmJobUpdate.hpc_slurm_job_id v) d = done (record d { hpc_slurm_job_id = v })
set_field (SlurmJobUpdate.hpc_slurm_job_state v) d = done (record d { hpc_slurm_job_state = v })
set_field (SlurmJobUpdate.hpc_batch_script_path v) d = done (record d { hpc_batch_script_path = v })
set_field (SlurmJobUpdate.hpc_slurm_workspace_path v) d =
    done (record d { hpc_slurm_workspace_path = v })
set_field (SlurmJobUpdate.deleted v) d = done (record d { deleted = v })
set_field (SlurmJobUpdate.details v) d = done (record d { details = v })
set_field (SlurmJobUpdate.not_available key) d = raise value_error
set_field (SlurmJobUpdate.not_updatable key) d = raise value_error

unfoldable pub set_slurm_job_fields : List SlurmJobUpdate → DbHpcSlurmJob → Result DbHpcSlurmJob
set_slurm_job_fields [] d = done d
set_slurm_job_fields (u ∷ us) d = elim (set_field u d) [
  | done d' ↦ set_slurm_job_fields us d'
  | raise e ↦ raise e
]

unfoldable pub db_update_hpc_slurm_job : Option String → List SlurmJobUpdate → Exec Db DbHpcSlurmJob
unfolding db_get_hpc_slurm_job set_slurm_job_fields
db_update_hpc_slurm_job find_workflow_job_id kwargs = do
  job ← db_get_hpc_slurm_job find_workflow_job_id
  job' ← lift (set_slurm_job_fields kwargs job)
  modify (λ db. record db {
    hpc_slurm_jobs = save_found (is_slurm_job_of find_workflow_job_id) job' db.hpc_slurm_jobs;
  })
  pure job'

abbrev pub sync_db_create_hpc_slurm_job :
    ℕ → String → String → String → String → String → StateJobSlurm → String → Exec Db DbHpcSlurmJob
sync_db_create_hpc_slurm_job = db_create_hpc_slurm_job

abbrev pub sync_db_get_hpc_slurm_job : Option String → Exec Db DbHpcSlurmJob
sync_db_get_hpc_slurm_job = db_get_hpc_slurm_job

abbrev pub sync_db_update_hpc_slurm_job :
    Option String → List SlurmJobUpdate → Exec Db DbHpcSlurmJob
sync_db_update_hpc_slurm_job = db_update_hpc_slurm_job
