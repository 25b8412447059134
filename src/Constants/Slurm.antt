-- ===== src/Constants/Slurm.antt =====
-- src/utils/operandi_utils/constants.py: `StateJobSlurm` and its classes of states.
use operandi.Common.{
  String, Bool, true, false, List, [], ◌∷◌, Eq, contains, string_eq, if◌then◌else◌,
}

pub data StateJobSlurm : Type 0 where
  boot_fail cancelled deadline failed node_fail out_of_memory preempted revoked timeout :
      StateJobSlurm
  completed completing pending requeued resizing running suspended unset : StateJobSlurm

state_job_slurm_dec : Discrete StateJobSlurm
state_job_slurm_dec = hlevel

instance unfoldable pub state_job_slurm_eq : Eq StateJobSlurm
unfolding state_job_slurm_dec
state_job_slurm_eq = record { dec = state_job_slurm_dec }

-- The value of the member, as `sacct` prints it.
abbrev pub value : StateJobSlurm → String
value boot_fail = "BOOT_FAIL"
value cancelled = "CANCELLED"
value deadline = "DEADLINE"
value failed = "FAILED"
value node_fail = "NODE_FAIL"
value out_of_memory = "OUT_OF_MEMORY"
value preempted = "PREEMPTED"
value revoked = "REVOKED"
value timeout = "TIMEOUT"
value completed = "COMPLETED"
value completing = "COMPLETING"
value pending = "PENDING"
value requeued = "REQUEUED"
value resizing = "RESIZING"
value running = "RUNNING"
value suspended = "SUSPENDED"
value unset = "UNSET"

-- The members in the order of the class.
abbrev pub members : List StateJobSlurm
members =
    boot_fail ∷ cancelled ∷ deadline ∷ failed ∷ node_fail ∷ out_of_memory ∷ preempted ∷ revoked
    ∷ timeout ∷ completed ∷ completing ∷ pending ∷ requeued ∷ resizing ∷ running ∷ suspended ∷ unset
    ∷ []

abbrev pub failing_states : List StateJobSlurm
failing_states =
    boot_fail ∷ cancelled ∷ deadline ∷ failed ∷ node_fail ∷ out_of_memory ∷ preempted ∷ revoked
    ∷ timeout ∷ suspended ∷ []

abbrev pub success_states : List StateJobSlurm
success_states = completed ∷ []

abbrev pub waiting_states : List StateJobSlurm
waiting_states = pending ∷ completing ∷ requeued ∷ resizing ∷ []

abbrev pub running_states : List StateJobSlurm
running_states = running ∷ []

unfoldable pub is_state_hpc_fail : StateJobSlurm → Bool
is_state_hpc_fail s = if contains failing_states s then true else false

unfoldable pub is_state_waiting : StateJobSlurm → Bool
is_state_waiting s = if contains waiting_states s then true else false

unfoldable pub is_state_running : StateJobSlurm → Bool
is_state_running s = if contains running_states s then true else false

unfoldable pub is_state_hpc_success : StateJobSlurm → Bool
is_state_hpc_success s = if contains success_states s then true else false
