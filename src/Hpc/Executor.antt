-- ===== src/Hpc/Executor.antt =====
-- src/utils/operandi_utils/hpc/nhr_executor.py. What the SSH command returns at each attempt, its
-- lines and its return code, or that it raises, is a parameter: the `probe`.
pub mod Polling
pub mod Submission
use operandi.Common.{
  ℕ, zero, suc, ◌+◌, String, ◌<>◌, Bool, true, false, Option, none, some, List, [], ◌∷◌, Eq, ◌==◌,
  ltb, if◌then◌else◌, nat_eq, Result, done, raise, index_error, key_error, value_error,
  assertion_error, zero_division_error, Text, split_at, strip_by, last_of, is_digit, is_space, ◌&&◌,
  ◌||◌, ◌*◌, ◌-◌,
}
use operandi.Constants.Slurm.{
  StateJobSlurm, unset, state_job_slurm_eq, is_state_hpc_success, is_state_waiting,
  is_state_running, is_state_hpc_fail,
}
use operandi.Constants.Images.{image_of}
use operandi.Hpc.ExecutorUtils.{ParseMessage, parse_slurm_job_state_from_output}

abbrev pub check_slurm_job_try_times : ℕ
check_slurm_job_try_times = 10

abbrev pub poll_slurm_job_timeout : ℕ
poll_slurm_job_timeout = 300

abbrev pub poll_slurm_job_check_interval : ℕ
poll_slurm_job_check_interval = 10

-- The lines of the standard output, and the return code, which is only logged.
abbrev pub CommandOutput : Type 0
CommandOutput = List Text × ℕ

-- `remove_workflow_job_dir`: what the command answers is only logged.
unfoldable pub remove_workflow_job_dir :
    (String → Result CommandOutput) → String → String → Result (Unit {0})
remove_workflow_job_dir execute slurm_workspaces_dir id =
    elim (execute ("bash -lc 'rm -rf " <> slurm_workspaces_dir <> "/" <> id <> "'")) [
      | done _ ↦ done tt
      | raise e ↦ raise e
    ]

abbrev state_part : Result (StateJobSlurm × ParseMessage) → Result StateJobSlurm
state_part (done (s, message)) = done s
state_part (raise e) = raise e

unfoldable pub check_slurm_job_state_once : Result CommandOutput → Result StateJobSlurm
check_slurm_job_state_once (done (output, return_code)) =
    state_part (parse_slurm_job_state_from_output output)
check_slurm_job_state_once (raise e) = raise e

-- The loop of `check_slurm_job_state`, from the given attempt on with the tries that are left.
unfoldable pub check_loop :
    (ℕ → Result CommandOutput) → ℕ → StateJobSlurm → ℕ → Result StateJobSlurm
check_loop probe attempt state zero = done state
check_loop probe attempt state (suc tries) = elim (check_slurm_job_state_once (probe attempt)) [
  | raise e ↦ raise e
  | done s ↦ elim (s == unset) [ true ↦ check_loop probe (attempt + 1) s tries | false ↦ done s ]
]

unfoldable pub check_slurm_job_state : (ℕ → Result CommandOutput) → ℕ → Result StateJobSlurm
unfolding check_loop
check_slurm_job_state probe tries = check_loop probe 0 unset tries

-- What one round of polling does with the state: it goes on, or it returns.
unfoldable pub poll_verdict : StateJobSlurm → Option Bool
poll_verdict s =
    if s == unset
    then none
    else if is_state_hpc_success s
    then some true
    else if is_state_waiting s
    then none
    else if is_state_running s
    then none
    else if is_state_hpc_fail s
    then some false
    else none

-- The loop of `poll_till_end_slurm_job_state`, on fuel: `none` means that the fuel ran out. Of
-- `tries_left`, which starts at `timeout / interval` and falls by 1 a round, the code only asks
-- whether it is 0; that is whether the rounds so far have taken `timeout` seconds. `states` gives
-- what `check_slurm_job_state` returns in each round.
unfoldable pub poll_loop : (ℕ → Result StateJobSlurm) → ℕ → ℕ → ℕ → ℕ → ℕ → Option (Result Bool)
poll_loop states interval timeout zero round spent = none
poll_loop states interval timeout (suc fuel) round spent = elim (spent == timeout) [
  | true ↦ some (done false)
  | false ↦ elim (states round) [
    | raise e ↦ some (raise e)
    | done s ↦ elim (poll_verdict s) [
      | some result ↦ some (done result)
      | none ↦ poll_loop states interval timeout fuel (round + 1) (spent + interval)
    ]
  ]
]

unfoldable pub poll_till_end_slurm_job_state :
    (ℕ → Result StateJobSlurm) → ℕ → ℕ → ℕ → Option (Result Bool)
unfolding poll_loop poll_verdict
poll_till_end_slurm_job_state states zero timeout fuel = some (raise zero_division_error)
poll_till_end_slurm_job_state states (suc i) timeout fuel =
    poll_loop states (suc i) timeout fuel 0 0

-- What `trigger_slurm_job` is called with.
pub record SlurmJobArgs : Type 0 where
  pub workflow_job_id : String
  pub nextflow_script_name : String
  pub input_file_grp : String
  pub workspace_id : String
  pub mets_basename : String
  pub nf_process_forks : ℕ
  pub ws_pages_amount : ℕ
  pub use_mets_server : Bool
  pub nf_executable_steps : List String
  pub file_groups_to_remove : String
  pub cpus : ℕ
  pub ram : ℕ
  pub job_deadline_time : String
  pub partition : String
  pub qos : String

-- The two JSON arguments of the force command, by the values that depend on the call.
pub record ForceCommand : Type 0 where
  pub args : SlurmJobArgs
  pub forks : ℕ
  pub ocrd_processor_images : String

-- `[OCRD_PROCESSOR_EXECUTABLE_TO_IMAGE[exe] for exe in steps]`
unfoldable pub images_of : List String → Result (List String)
images_of [] = done []
images_of (exe ∷ steps) = elim (image_of exe) [
  | none ↦ raise key_error
  | some image ↦ elim (images_of steps) [ raise e ↦ raise e | done images ↦ done (image ∷ images) ]
]

-- `",".join(xs)`
abbrev pub join_commas : List String → String
join_commas [] = ""
join_commas (x ∷ []) = x
join_commas (x ∷ y ∷ ys) = x <> "," <> join_commas (y ∷ ys)

abbrev is_newline : ℕ → Bool
is_newline c = c == 10

abbrev pub last_word : List Text → Text
last_word [] = []
last_word (w ∷ ws) = last_of w ws

-- A decimal literal of `int`, whose digits may be grouped by single underscores.
abbrev literal_from : ℕ → Text → Option ℕ
literal_from n [] = some n
literal_from n (c ∷ []) = elim (is_digit c) [ true ↦ some (n * 10 + (c - b'0')) | false ↦ none ]
literal_from n (c ∷ d ∷ cs) = elim (is_digit c) [
  | true ↦ literal_from (n * 10 + (c - b'0')) (d ∷ cs)
  | false ↦ elim (c == b'_' && is_digit d) [
    | true ↦ literal_from (n * 10 + (d - b'0')) cs
    | false ↦ none
  ]
]

abbrev read_literal : Text → Option ℕ
read_literal [] = none
read_literal (c ∷ cs) = elim (is_digit c) [ true ↦ literal_from 0 (c ∷ cs) | false ↦ none ]

abbrev read_signed : Text → Option ℕ
read_signed [] = none
read_signed (c ∷ cs) = elim (c == b'+' || c == b'-') [
  | true ↦ read_literal cs
  | false ↦ read_literal (c ∷ cs)
]

-- The magnitude of `int(s)`, of ASCII digits; `none` for a `ValueError`.
unfoldable pub magnitude_of : Text → Option ℕ
unfolding is_digit is_space strip_by nat_eq
magnitude_of s = read_signed (strip_by is_space s)

-- `assert int(slurm_job_id)`: the number is not 0, whatever its sign.
unfoldable pub assert_id : Text → Result Text
unfolding magnitude_of
assert_id id = elim (magnitude_of id) [
  | none ↦ raise value_error
  | some zero ↦ raise assertion_error
  | some (suc n) ↦ done id
]

-- The id of the slurm job, from the output of `sbatch`.
unfoldable pub submitted_job_id : List Text → Result Text
unfolding strip_by split_at assert_id
submitted_job_id [] = raise index_error
submitted_job_id (line ∷ lines) = assert_id (last_word (split_at b' ' (strip_by is_newline line)))

unfoldable pub force_command : SlurmJobArgs → Result ForceCommand
unfolding images_of
force_command a = elim (images_of a.nf_executable_steps) [
  | raise e ↦ raise e
  | done images ↦ done (record {
    args = a;
    forks =
        if ltb a.ws_pages_amount a.nf_process_forks then a.ws_pages_amount else a.nf_process_forks;
    ocrd_processor_images = "ocrd_core.sif" <> "," <> join_commas images;
  })
]

-- `execute` is `execute_blocking` on the force command.
unfoldable pub trigger_slurm_job :
    (ForceCommand → Result CommandOutput) → SlurmJobArgs → Result Text
unfolding force_command submitted_job_id
trigger_slurm_job execute a = elim (force_command a) [
  | raise e ↦ raise e
  | done command ↦ elim (execute command) [
    | raise e ↦ raise e
    | done (output, return_code) ↦ submitted_job_id output
  ]
]
