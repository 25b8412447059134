-- ===== src/Constants/Job/Conversion.antt =====
-- The classes of slurm states exclude one another, and the job states that they stand for.
use operandi.Common.{
  ◌≡◌, ◌↔◌, true, false, ◌&&◌, ◌||◌, done, raise, value_error, arith, contains, [], ◌∷◌,
}
use operandi.Constants.Slurm.{
  StateJobSlurm, state_job_slurm_eq, unset, completed, running, is_state_hpc_success,
  is_state_waiting, is_state_running, is_state_hpc_fail,
}
use operandi.Constants.Job.{
  StateJob, pending, state_job_eq, hpc_success, hpc_failed, convert_from_slurm_job,
}

-- No slurm state is in two of the four classes, and the states in none of them are exactly `unset`.
pub slurm_classes_partition :
    (s : StateJobSlurm)
    → ((is_state_hpc_success s && is_state_waiting s) ≡ false)
      × ((is_state_hpc_success s && is_state_running s) ≡ false)
      × ((is_state_hpc_success s && is_state_hpc_fail s) ≡ false)
      × ((is_state_waiting s && is_state_running s) ≡ false)
      × ((is_state_waiting s && is_state_hpc_fail s) ≡ false)
      × ((is_state_running s && is_state_hpc_fail s) ≡ false)
      × ((is_state_hpc_success s || is_state_waiting s || is_state_running s || is_state_hpc_fail s)
            ≡ false
          ↔ s ≡ unset)
unfolding is_state_hpc_success is_state_waiting is_state_running is_state_hpc_fail
slurm_classes_partition s = ground arith

-- A slurm state is converted to `HPC_SUCCESS` exactly when it is `COMPLETED`, to `RUNNING`
-- exactly when it is `RUNNING`, to `PENDING` exactly when it is `PENDING`, `COMPLETING`,
-- `REQUEUED` or `RESIZING`, and to `HPC_FAILED` exactly when it is `BOOT_FAIL`, `CANCELLED`,
-- `DEADLINE`, `FAILED`, `NODE_FAIL`, `OUT_OF_MEMORY`, `PREEMPTED`, `REVOKED`, `TIMEOUT` or
-- `SUSPENDED`. So a suspended slurm job counts as failed, although the enumeration has
-- `SUSPENDED` under a comment "Waiting indicating states". The conversion raises exactly on
-- `UNSET`, and no other job state is a result.
pub convert_from_slurm_job_exact :
    (s : StateJobSlurm)
    → (convert_from_slurm_job s ≡ done hpc_success ↔ s ≡ completed)
      × (convert_from_slurm_job s ≡ done StateJob.running ↔ s ≡ running)
      × (convert_from_slurm_job s ≡ done pending
          ↔ contains
              (StateJobSlurm.pending ∷ StateJobSlurm.completing ∷ StateJobSlurm.requeued
                ∷ StateJobSlurm.resizing ∷ [])
              s
            ≡ true)
      × (convert_from_slurm_job s ≡ done hpc_failed
          ↔ contains
              (StateJobSlurm.boot_fail ∷ StateJobSlurm.cancelled ∷ StateJobSlurm.deadline
                ∷ StateJobSlurm.failed ∷ StateJobSlurm.node_fail ∷ StateJobSlurm.out_of_memory
                ∷ StateJobSlurm.preempted ∷ StateJobSlurm.revoked ∷ StateJobSlurm.timeout
                ∷ StateJobSlurm.suspended ∷ [])
              s
            ≡ true)
      × (convert_from_slurm_job s ≡ raise value_error ↔ s ≡ unset)
      × ((t : StateJob)
          → convert_from_slurm_job s ≡ done t
          → contains (hpc_success ∷ StateJob.running ∷ pending ∷ hpc_failed ∷ []) t ≡ true)
unfolding convert_from_slurm_job is_state_hpc_success is_state_waiting is_state_running
    is_state_hpc_fail
convert_from_slurm_job_exact s =
    (ground arith, ground arith, ground arith, ground arith, ground arith, λ t h. ground arith)
