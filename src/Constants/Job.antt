-- ===== src/Constants/Job.antt =====
-- src/utils/operandi_utils/constants.py: `StateJob`.
pub mod Conversion
use operandi.Common.{Eq, Result, done, raise, value_error, if◌then◌else◌}
use operandi.Constants.Slurm.{
  StateJobSlurm, is_state_hpc_success, is_state_waiting, is_state_running, is_state_hpc_fail,
}

pub data StateJob : Type 0 where
  failed queued pending running success hpc_success hpc_failed : StateJob
  transferring_to_hpc transferring_from_hpc unset : StateJob

state_job_dec : Discrete StateJob
state_job_dec = hlevel

instance unfoldable pub state_job_eq : Eq StateJob
unfolding state_job_dec
state_job_eq = record { dec = state_job_dec }

unfoldable pub convert_from_slurm_job : StateJobSlurm → Result StateJob
convert_from_slurm_job s =
    if is_state_hpc_success s
    then done hpc_success
    else if is_state_waiting s
    then done pending
    else if is_state_running s
    then done running
    else if is_state_hpc_fail s
    then done hpc_failed
    else raise value_error
