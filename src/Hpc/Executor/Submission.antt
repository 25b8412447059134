-- ===== src/Hpc/Executor/Submission.antt =====
-- What is submitted to the HPC, and what is made of its answer.
use operandi.Common.{
  ◌≤◌, ◌≡◌, true, none, List, [], ◌∷◌, arith, Result, done, raise, contains, string_eq, ==_iff,
  String, key_error,
}
use operandi.Constants.Images.{image_of}
use operandi.Hpc.Executor.{
  CommandOutput, SlurmJobArgs, ForceCommand, images_of, force_command, trigger_slurm_job,
}

-- A step without an image stops the list of images.
images_of-unknown :
    (steps : List String) (exe : String)
    → contains steps exe ≡ true
    → image_of exe ≡ none
    → images_of steps ≡ raise key_error
unfolding images_of
images_of-unknown [] exe listed unknown = ground arith
images_of-unknown (step ∷ steps) exe listed unknown =
    ground (arith, ==_iff step exe, ==_iff exe step, images_of-unknown steps exe)

-- A job with a step that has no image is not submitted: the HPC is not called, whatever it would
-- answer.
pub unknown_step_not_submitted :
    (execute : ForceCommand → Result CommandOutput) (a : SlurmJobArgs) (exe : String)
    → contains a.nf_executable_steps exe ≡ true
    → image_of exe ≡ none
    → trigger_slurm_job execute a ≡ raise key_error
unfolding trigger_slurm_job
unknown_step_not_submitted execute a exe listed unknown =
    ground (arith, images_of-unknown a.nf_executable_steps exe listed unknown)

-- The forks of Nextflow are as many as asked for, but no more than there are pages.
pub force_command-forks :
    (a : SlurmJobArgs) (c : ForceCommand)
    → force_command a ≡ done c
    → (c.forks ≤ a.nf_process_forks) × (c.forks ≤ a.ws_pages_amount)
unfolding force_command
force_command-forks a c made = ground arith
