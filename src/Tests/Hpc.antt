-- ===== src/Tests/Hpc.antt =====
-- Answers of the HPC.
use operandi.Common.{
  ◌↔◌, value_error, ℕ, zero, suc, ◌+◌, ◌*◌, ◌<◌, ◌≡◌, ◌≢◌, refl, String, true, false, none, some,
  List, [], ◌∷◌, arith, done, raise, raised, other, string_eq, codes, Text, select, join, path_name,
  path_parent, ◌++◌, ◌==◌, if◌then◌else◌, Result, key_error, contains, Exc,
}
use operandi.Constants.Slurm.{
  StateJobSlurm, state_job_slurm_eq, is_state_hpc_success, is_state_waiting, is_state_running,
}
use operandi.Constants.Job.{StateJob, state_job_eq, convert_from_slurm_job}
use operandi.Constants.Job.Conversion.{convert_from_slurm_job_exact}
use operandi.Constants.Images.{image_of}
use operandi.Hpc.ExecutorUtils.{parse_slurm_job_state_from_output}
use operandi.Hpc.Executor.{
  check_slurm_job_state, CommandOutput, SlurmJobArgs, check_slurm_job_state_once, poll_verdict,
  poll_till_end_slurm_job_state, trigger_slurm_job,
}
use operandi.Hpc.Executor.Polling.{
  check_first_answer, poll_terminates, poll_first_final_state, poll_without_end, ongoing_states,
  final_states,
}
use operandi.Hpc.Executor.Submission.{unknown_step_not_submitted}
use operandi.Hpc.Transfer.{
  Sftp, remove_path, with_retries, get_and_unpack_slurm_workspace, download_workflow_job_zip,
  unzip_dir, download_workspace_zip, download_file_with_retries,
}
use operandi.Hpc.Transfer.Retries.{with_retries-done}
use operandi.Hpc.Transfer.Results.{failed_download_loses_workspace}
use operandi.Tests.Fixtures.{sftp, env}

abbrev listing : Text → List Text
listing line = codes "JobID State" ∷ (codes "76 FAILED" ∷ []) ++ line ∷ codes "" ∷ []

-- Nothing at the first attempt, and `COMPLETED` from then on.
abbrev probe : ℕ → Result CommandOutput
probe zero = done ([], 0)
probe (suc i) = done (listing (codes "77 COMPLETED 0:0"), 0)

no_state-first :
    (i : ℕ) → i < 1 → check_slurm_job_state_once (probe (0 + i)) ≡ done StateJobSlurm.unset
unfolding check_slurm_job_state_once parse_slurm_job_state_from_output
no_state-first zero h = refl
no_state-first (suc i) h = absurd (omega arith)

completed_at_second : check_slurm_job_state_once (probe 1) ≡ done StateJobSlurm.completed
unfolding check_slurm_job_state_once parse_slurm_job_state_from_output
completed_at_second = refl

completed_is_set : done StateJobSlurm.completed ≢ done StateJobSlurm.unset
completed_is_set h = ground arith

check_first_answer_example : check_slurm_job_state probe 10 ≡ done StateJobSlurm.completed
check_first_answer_example =
    check_first_answer probe 1 10 (done StateJobSlurm.completed) no_state-first (omega arith)
      completed_at_second completed_is_set

abbrev running_on : ℕ → Result StateJobSlurm
running_on i = done StateJobSlurm.running

poll_terminates_example : poll_till_end_slurm_job_state running_on 10 300 31 ≢ none
poll_terminates_example = poll_terminates running_on 10 300 30 refl 31 (omega arith)

running_goes_on : poll_verdict StateJobSlurm.running ≡ none
unfolding poll_verdict state_job_slurm_eq is_state_hpc_success is_state_waiting is_state_running
running_goes_on = refl

running_GoesOn :
    (k i : ℕ)
    → i < k
    → (s : StateJobSlurm) × (running_on (0 + i) ≡ done s) × (poll_verdict s ≡ none)
running_GoesOn k i h = (StateJobSlurm.running, refl, running_goes_on)

abbrev fails_later : ℕ → Result StateJobSlurm
fails_later zero = done StateJobSlurm.pending
fails_later (suc i) = done StateJobSlurm.suspended

pending_before :
    (i : ℕ)
    → i < 1
    → (o : StateJobSlurm) × (fails_later i ≡ done o) × (contains ongoing_states o ≡ true)
pending_before zero h = (StateJobSlurm.pending, refl, ground arith)
pending_before (suc i) h = absurd (omega arith)

suspended_is_final : contains final_states StateJobSlurm.suspended ≡ true
suspended_is_final = ground arith

poll_first_final_state_example :
    poll_till_end_slurm_job_state fails_later 10 300 31
    ≡ some (done (StateJobSlurm.suspended == StateJobSlurm.completed))
poll_first_final_state_example =
    poll_first_final_state fails_later 10 300 30 refl 1 31 StateJobSlurm.suspended (omega arith)
      (omega arith) (omega arith) pending_before refl suspended_is_final

no_multiple : (n : ℕ) → 300 ≢ n * 7
no_multiple n h = absurd (omega arith)

poll_without_end_example : poll_till_end_slurm_job_state running_on 7 300 1000 ≡ none
poll_without_end_example =
    poll_without_end running_on 7 300 1000 (omega arith) no_multiple (running_GoesOn 1000)

abbrev args : List String → SlurmJobArgs
args steps = record {
  workflow_job_id = "j1";
  nextflow_script_name = "a.nf";
  input_file_grp = "IN";
  workspace_id = "ws1";
  mets_basename = "mets.xml";
  nf_process_forks = 8;
  ws_pages_amount = 3;
  use_mets_server = false;
  nf_executable_steps = steps;
  file_groups_to_remove = "";
  cpus = 8;
  ram = 32;
  job_deadline_time = "48:00:00";
  partition = "p";
  qos = "48h";
}

unknown_step_not_submitted_example :
    trigger_slurm_job env.execute_submit (args ("ocrd-dummy" ∷ "rm" ∷ [])) ≡ raise key_error
unfolding string_eq image_of
unknown_step_not_submitted_example =
    unknown_step_not_submitted env.execute_submit (args ("ocrd-dummy" ∷ "rm" ∷ [])) "rm" refl refl

-- The third try works.
abbrev attempt : ℕ → Result (Unit {0})
attempt zero = raise other
attempt (suc zero) = raise other
attempt (suc (suc i)) = done tt

with_retries-done_example : with_retries attempt 100 ≡ done tt
with_retries-done_example = with_retries-done attempt 100 2 (omega arith) refl

abbrev failing : ℕ → Result (Unit {0})
failing i = raise other

each_fails : (k : ℕ) → k < 100 → (e : Exc) × (failing k ≡ raise e)
each_fails k h = (other, refl)

-- The archive of the job comes down, that of the workspace does not.
abbrev half_sftp : Sftp
half_sftp = record sftp { get = λ src dst i. if dst == "/ws/ws1.zip" then raise other else done tt }

failed_download_loses_workspace_example :
    (get_and_unpack_slurm_workspace half_sftp "/ws/ws1" "/jobs/j1" ("/ws/ws1" ∷ [])
      ≡ raised other ("/jobs/j1" ∷ []))
    × (contains {A = String} ("/jobs/j1" ∷ []) "/ws/ws1" ≡ false)
unfolding download_workflow_job_zip unzip_dir download_workspace_zip download_file_with_retries
    with_retries path_name path_parent join remove_path select string_eq
failed_download_loses_workspace_example =
    failed_download_loses_workspace half_sftp "/ws/ws1" "/jobs/j1" ("/ws/ws1" ∷ [])
      ("/jobs/j1.zip" ∷ "/ws/ws1" ∷ []) ("/jobs/j1" ∷ "/ws/ws1" ∷ []) "/jobs/j1.zip" refl refl refl
      ("/jobs/j1" ∷ []) other refl

convert_from_slurm_job_exact_example :
    (convert_from_slurm_job StateJobSlurm.suspended ≡ done StateJob.hpc_success
      ↔ StateJobSlurm.suspended ≡ StateJobSlurm.completed)
    × (convert_from_slurm_job StateJobSlurm.suspended ≡ done StateJob.running
        ↔ StateJobSlurm.suspended ≡ StateJobSlurm.running)
    × (convert_from_slurm_job StateJobSlurm.suspended ≡ done StateJob.pending
        ↔ contains
            (StateJobSlurm.pending ∷ StateJobSlurm.completing ∷ StateJobSlurm.requeued
              ∷ StateJobSlurm.resizing ∷ [])
            StateJobSlurm.suspended
          ≡ true)
    × (convert_from_slurm_job StateJobSlurm.suspended ≡ done StateJob.hpc_failed
        ↔ contains
            (StateJobSlurm.boot_fail ∷ StateJobSlurm.cancelled ∷ StateJobSlurm.deadline
              ∷ StateJobSlurm.failed ∷ StateJobSlurm.node_fail ∷ StateJobSlurm.out_of_memory
              ∷ StateJobSlurm.preempted ∷ StateJobSlurm.revoked ∷ StateJobSlurm.timeout
              ∷ StateJobSlurm.suspended ∷ [])
            StateJobSlurm.suspended
          ≡ true)
    × (convert_from_slurm_job StateJobSlurm.suspended ≡ raise value_error
        ↔ StateJobSlurm.suspended ≡ StateJobSlurm.unset)
    × ((t : StateJob)
        → convert_from_slurm_job StateJobSlurm.suspended ≡ done t
        → contains
            (StateJob.hpc_success ∷ StateJob.running ∷ StateJob.pending ∷ StateJob.hpc_failed ∷ [])
            t
          ≡ true)
convert_from_slurm_job_exact_example = convert_from_slurm_job_exact StateJobSlurm.suspended
