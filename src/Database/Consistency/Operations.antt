-- ===== src/Database/Consistency/Operations.antt =====
-- Which jobs and slurm jobs are known to be there before and after each operation.
use operandi.Common.{
  Exc, ℕ, ◌≡◌, refl, sym, ◌∙◌, subst, String, true, false, Option, none, some, List, [], ◌∷◌,
  string_eq, option_eq, Option-cases, inl, inr, All, All-map, arith, Exec, state_of, Ensures, Post,
  Post-state_of,
}
use operandi.Constants.Slurm.{StateJobSlurm}
use operandi.Constants.Job.{StateJob}
use operandi.Database.Updates.{JobUpdate, SlurmJobUpdate, WorkspaceUpdate}
use operandi.Database.Models.{Db, DbHpcSlurmJob, DbWorkflowJob}
use operandi.Database.WorkflowJob.{
  db_create_workflow_job, db_get_workflow_job, db_update_workflow_job,
}
use operandi.Database.WorkflowJob.Laws.{
  job_at, with_job, update_job_state, update_missing_job, id-job_at, get_job, get_missing_job,
}
use operandi.Database.HpcSlurmJob.{
  db_get_hpc_slurm_job, db_update_hpc_slurm_job, db_create_hpc_slurm_job,
}
use operandi.Database.HpcSlurmJob.Laws.{
  slurm_job_at, with_slurm_job, update_slurm_job_state, update_missing_slurm_job, get_slurm_job,
  get_missing_slurm_job,
}
use operandi.Database.Workspace.{db_update_workspace, db_get_workspace}
use operandi.Database.Workflow.{db_get_workflow}
use operandi.Database.UserAccount.{db_get_user_account}
use operandi.Database.ProcessingStats.{PageStatArgs, db_create_page_stat}
use operandi.Database.Consistency.{
  has_job, has_slurm_job, is_submitted, IsConsistent, has_job-with_job, with_job-IsConsistent,
  has_slurm_job-with_slurm_job, with_slurm_job-IsConsistent, with_new_slurm_job,
  has_slurm_job-with_new_slurm_job, has_slurm_job-new, with_new_slurm_job-IsConsistent,
  with_new_job, has_job-with_new_job, with_new_job-IsConsistent,
}

abbrev HasJob : Db → Option String → Type 0
HasJob db k = has_job k db ≡ true

abbrev pub HasSlurmJob : Db → Option String → Type 0
HasSlurmJob db k = has_slurm_job k db ≡ true

-- A consistent database with the jobs of the ids `js` and the slurm jobs of the ids `ks`.
pub record Knows (js ks : List (Option String)) (db : Db) : Type 0 where
  pub consistent : IsConsistent db
  pub jobs : All (HasJob db) js
  pub slurm_jobs : All (HasSlurmJob db) ks

-- No job and no slurm job is lost.
record Grows (db db' : Db) : Type 0 where
  jobs : (k : Option String) → has_job k db ≡ true → has_job k db' ≡ true
  slurm_jobs : (k : Option String) → has_slurm_job k db ≡ true → has_slurm_job k db' ≡ true

Grows-Knows :
    {js ks : List (Option String)} (db db' : Db)
    → Grows db db'
    → IsConsistent db'
    → Knows js ks db
    → Knows js ks db'
Grows-Knows {js} {ks} db db' grows consistent known = record {
  consistent = consistent;
  jobs = All-map (HasJob db) (HasJob db') js grows.jobs known.jobs;
  slurm_jobs = All-map (HasSlurmJob db) (HasSlurmJob db') ks grows.slurm_jobs known.slurm_jobs;
}

pub Knows-slurm_job :
    {js ks : List (Option String)} (k : Option String) (db : Db)
    → has_slurm_job k db ≡ true
    → Knows js ks db
    → Knows js (k ∷ ks) db
Knows-slurm_job k db h known = record {
  consistent = known.consistent;
  jobs = known.jobs;
  slurm_jobs = (h, known.slurm_jobs);
}

pub Knows-job :
    {js ks : List (Option String)} (k : Option String) (db : Db)
    → has_job k db ≡ true
    → Knows js ks db
    → Knows (k ∷ js) ks db
Knows-job k db h known = record {
  consistent = known.consistent;
  jobs = (h, known.jobs);
  slurm_jobs = known.slurm_jobs;
}

-- The rest of the database does not count.
pub Knows-rest :
    (js ks : List (Option String)) (db db' : Db)
    → Knows js ks db
    → db'.workflow_jobs ≡ db.workflow_jobs
    → db'.hpc_slurm_jobs ≡ db.hpc_slurm_jobs
    → Knows js ks db'
Knows-rest js ks db db' known same_jobs same_slurm_jobs =
    subst (λ ds. Knows js ks (record db' { hpc_slurm_jobs = ds })) (sym same_slurm_jobs)
      (subst
        (λ ds. Knows js ks (record db' { workflow_jobs = ds; hpc_slurm_jobs = db.hpc_slurm_jobs }))
        (sym same_jobs)
        (record {
          consistent = record {
            slurm_jobs = known.consistent.slurm_jobs;
            jobs = known.consistent.jobs;
          };
          jobs = known.jobs;
          slurm_jobs = known.slurm_jobs;
        }))

-- Before and after an action on the database, the same is known.
abbrev pub Keeps : List (Option String) → List (Option String) → {A : Type 0} → Exec Db A → Type 0
Keeps js ks m = Ensures (Knows js ks) m (λ _. Knows js ks) (Knows js ks)

pub Keeps-rest :
    {A : Type 0} (js ks : List (Option String)) (m : Exec Db A)
    → ((db : Db) → (state_of (m db)).workflow_jobs ≡ db.workflow_jobs)
    → ((db : Db) → (state_of (m db)).hpc_slurm_jobs ≡ db.hpc_slurm_jobs)
    → Keeps js ks m
Keeps-rest js ks m same_jobs same_slurm_jobs = record {
  at = λ db known.
      Post-state_of (Knows js ks) (m db)
        (Knows-rest js ks db (state_of (m db)) known (same_jobs db) (same_slurm_jobs db));
}

-- Less is known.
pub Knows-tail :
    {js ks : List (Option String)} (j k : Option String) (db : Db)
    → Knows (j ∷ js) (k ∷ ks) db
    → Knows js ks db
Knows-tail j k db known = record {
  consistent = known.consistent;
  jobs = known.jobs.1;
  slurm_jobs = known.slurm_jobs.1;
}

pub Knows-tail_job :
    {js ks : List (Option String)} (j : Option String) (db : Db)
    → Knows (j ∷ js) ks db
    → Knows js ks db
Knows-tail_job j db known = record {
  consistent = known.consistent;
  jobs = known.jobs.1;
  slurm_jobs = known.slurm_jobs;
}

pub Knows-tail_slurm_job :
    {js ks : List (Option String)} (k : Option String) (db : Db)
    → Knows js (k ∷ ks) db
    → Knows js ks db
Knows-tail_slurm_job k db known = record {
  consistent = known.consistent;
  jobs = known.jobs;
  slurm_jobs = known.slurm_jobs.1;
}

module _ {js ks : List (Option String)} where
  -- A job that has a slurm job may get any state.
  update_job_state-Post :
      (id : Option String) (v : StateJob) (db : Db)
      → (is_submitted v ≡ true → has_slurm_job id db ≡ true)
      → Knows js ks db
      → Post
          (λ _. Knows js ks)
          (Knows js ks)
          (db_update_workflow_job id (JobUpdate.job_state v ∷ []) db)
  update_job_state-Post id v db h known = elim (Option-cases (job_at id db)) [
    | inl missing ↦ rw (update_missing_job id (JobUpdate.job_state v ∷ []) db missing) known
    | inr (job, found) ↦ rw (update_job_state id v db found) (
        Grows-Knows db (with_job id (record job { job_state = v }) db)
          (record { jobs = λ k p. has_job-with_job id job db found v k ∙ p; slurm_jobs = λ k p. p })
          (with_job-IsConsistent id job db found v h known.consistent) known)
  ]

  pub update_slurm_job_state-Keeps :
      (id : Option String) (v : StateJobSlurm)
      → Keeps js ks (db_update_hpc_slurm_job id (SlurmJobUpdate.hpc_slurm_job_state v ∷ []))
  update_slurm_job_state-Keeps id v = record {
    at = λ db known. elim (Option-cases (slurm_job_at id db)) [
      | inl missing ↦
          rw (update_missing_slurm_job id (SlurmJobUpdate.hpc_slurm_job_state v ∷ []) db missing)
            known
      | inr (slurm, found) ↦ rw (update_slurm_job_state id v db slurm found) (
          Grows-Knows db (with_slurm_job id (record slurm { hpc_slurm_job_state = v }) db)
            (record {
              jobs = λ k p. p;
              slurm_jobs = λ k p. has_slurm_job-with_slurm_job id slurm db found v k ∙ p;
            })
            (with_slurm_job-IsConsistent id slurm db found v known.consistent) known)
    ];
  }

  pub update_job_state-Keeps :
      (id : Option String) (v : StateJob)
      → ((db : Db) → Knows js ks db → is_submitted v ≡ true → has_slurm_job id db ≡ true)
      → Keeps js ks (db_update_workflow_job id (JobUpdate.job_state v ∷ []))
  update_job_state-Keeps id v h = record {
    at = λ db known. update_job_state-Post id v db (h db known) known;
  }

  pub update_workspace-Keeps :
      (assign : Exc) (id : Option String) (us : List WorkspaceUpdate)
      → Keeps js ks (db_update_workspace assign id us)
  unfolding db_update_workspace
  update_workspace-Keeps assign id us =
      Keeps-rest js ks (db_update_workspace assign id us) (λ db. ground arith) (λ db. ground arith)

  pub create_page_stat-Keeps :
      (now : ℕ) (args : PageStatArgs) → Keeps js ks (db_create_page_stat now args)
  unfolding db_create_page_stat
  create_page_stat-Keeps now args =
      Keeps-rest js ks (db_create_page_stat now args) (λ db. ground arith) (λ db. ground arith)

  pub get_workspace-Keeps : (id : Option String) → Keeps js ks (db_get_workspace id)
  unfolding db_get_workspace
  get_workspace-Keeps id =
      Keeps-rest js ks (db_get_workspace id) (λ db. ground arith) (λ db. ground arith)

  pub get_workflow-Keeps : (id : String) → Keeps js ks (db_get_workflow id)
  unfolding db_get_workflow
  get_workflow-Keeps id =
      Keeps-rest js ks (db_get_workflow id) (λ db. ground arith) (λ db. ground arith)

  pub get_user_account-Keeps : (id : String) → Keeps js ks (db_get_user_account id)
  unfolding db_get_user_account
  get_user_account-Keeps id =
      Keeps-rest js ks (db_get_user_account id) (λ db. ground arith) (λ db. ground arith)

  -- A job that is read is there.
  pub get_job-Ensures :
      (id : Option String)
      → Ensures
          (Knows js ks)
          (db_get_workflow_job id)
          (λ job db. Knows (some job.job_id ∷ js) ks db × (some job.job_id ≡ id))
          (Knows js ks)
  get_job-Ensures id = record {
    at = λ db known. elim (Option-cases (job_at id db)) [
      | inl missing ↦ rw (get_missing_job id db missing) known
      | inr (job, found) ↦
          let is_id = id-job_at id db found in
          rw (get_job id db job found)
            (Knows-job (some job.job_id) db (rw (is_id, found) refl) known, is_id)
    ];
  }

  pub get_slurm_job-Ensures :
      (id : Option String)
      → Ensures (Knows js ks) (db_get_hpc_slurm_job id) (λ slurm. Knows js (id ∷ ks)) (Knows js ks)
  get_slurm_job-Ensures id = record {
    at = λ db known. elim (Option-cases (slurm_job_at id db)) [
      | inl missing ↦ rw (get_missing_slurm_job id db missing) known
      | inr (slurm, found) ↦
          rw (get_slurm_job id db slurm found) (Knows-slurm_job id db (rw found refl) known)
    ];
  }

  -- The new slurm job is there, and it belongs to a job that was known.
  pub create_slurm_job-Ensures :
      (now : ℕ) (user id slurm_id script path : String) (v : StateJobSlurm) (details : String)
      → Ensures
          (Knows (some id ∷ js) ks)
          (db_create_hpc_slurm_job now user id slurm_id script path v details)
          (λ _. Knows (some id ∷ js) (some id ∷ ks))
          (Knows (some id ∷ js) ks)
  unfolding db_create_hpc_slurm_job
  create_slurm_job-Ensures now user id slurm_id script path v details = record {
    at = λ db known.
        let slurm : DbHpcSlurmJob = record {
          user_id = user;
          workflow_job_id = id;
          hpc_slurm_job_id = slurm_id;
          hpc_slurm_job_state = v;
          hpc_batch_script_path = some script;
          hpc_slurm_workspace_path = some path;
          deleted = false;
          datetime = some now;
          details = some details;
        } in
        Knows-slurm_job (some id) (with_new_slurm_job db slurm) (has_slurm_job-new db slurm) (
          Grows-Knows db (with_new_slurm_job db slurm)
            (record {
              jobs = λ k p. p;
              slurm_jobs = λ k p. has_slurm_job-with_new_slurm_job db slurm k p;
            })
            (with_new_slurm_job-IsConsistent db slurm known.jobs.0 known.consistent) known);
  }

  -- A new job that was not submitted.
  pub create_job-Keeps :
      (now : ℕ) (user id dir : String) (v : StateJob) (workflow workspace details : String)
      → is_submitted v ≡ false
      → Keeps js ks (db_create_workflow_job now user id dir v workflow workspace details)
  unfolding db_create_workflow_job
  create_job-Keeps now user id dir v workflow workspace details new = record {
    at = λ db known.
        let job : DbWorkflowJob = record {
          user_id = user;
          job_id = id;
          job_dir = dir;
          workflow_id = workflow;
          workspace_id = workspace;
          job_state = v;
          workflow_dir = none;
          workspace_dir = none;
          hpc_slurm_job_id = none;
          deleted = false;
          datetime = some now;
          details = some details;
        } in
        Grows-Knows db (with_new_job db job)
          (record { jobs = has_job-with_new_job db job; slurm_jobs = λ k p. p })
          (with_new_job-IsConsistent db job new known.consistent) known;
  }
