-- ===== src/Database/WorkflowJob/Refinement.antt =====
-- The collection of jobs as a map from ids: what it forgets is the order of the documents and those
-- behind another one with the same id.
use mathlib.Core.Path.{fun_ext}
use operandi.Common.{
  ℕ, ◌≡◌, refl, sym, ap, ◌∙◌, arith, String, false, Option, none, some, List, [], ◌∷◌, ◌++◌, ◌==◌,
  string_eq, option_eq, if◌then◌else◌, find_one, find_one-append, All, Exec, Outcome, ok, raised,
  Result, done, raise, runtime_error, Exc, Option-cases, Result-cases, inl, inr,
}
use operandi.Constants.Job.{StateJob}
use operandi.Database.Updates.{JobUpdate}
use operandi.Database.Models.{Db, DbWorkflowJob}
use operandi.Database.WorkflowJob.{
  is_job, set_field, set_fields, db_create_workflow_job, db_get_workflow_job,
  db_update_workflow_job,
}
use operandi.Database.WorkflowJob.Laws.{
  job_at, with_job, job_at-with_job, id-job_at, get_job, get_missing_job, update_missing_job,
}

pub data JobOp : Type 0 where
  create : ℕ → String → String → String → StateJob → String → String → String → JobOp
  get : Option String → JobOp
  update : Option String → List JobUpdate → JobOp

abbrev pub apply : JobOp → Exec Db DbWorkflowJob
apply (create now user id dir v workflow workspace details) =
    db_create_workflow_job now user id dir v workflow workspace details
apply (get id) = db_get_workflow_job id
apply (update id us) = db_update_workflow_job id us

-- The specification: a map from ids to documents.
abbrev pub Jobs : Type 0
Jobs = Option String → Option DbWorkflowJob

abbrev pub new_job :
    ℕ → String → String → String → StateJob → String → String → String → DbWorkflowJob
new_job now user id dir v workflow workspace details = record {
  user_id = user;
  job_id = id;
  job_dir = dir;
  workflow_id = workflow;
  workspace_id = workspace;
  job_state = v;
  workflow_dir = none;
  workspace_dir = none;
  hpc_slurm_job_id = none;
  deleted = false;
  datetime = some now;
  details = some details;
}

-- A new document does not replace one that has the id.
abbrev pub add_job : DbWorkflowJob → Jobs → Jobs
add_job job jobs k = elim (jobs k) [
  | some old ↦ some old
  | none ↦ if some job.job_id == k then some job else none
]

abbrev pub put_job : Option String → DbWorkflowJob → Jobs → Jobs
put_job id job jobs k = if k == id then some job else jobs k

abbrev pub spec : JobOp → Exec Jobs DbWorkflowJob
spec (create now user id dir v workflow workspace details) jobs =
    let job = new_job now user id dir v workflow workspace details in ok job (add_job job jobs)
spec (get id) jobs = elim (jobs id) [ none ↦ raised runtime_error jobs | some job ↦ ok job jobs ]
spec (update id us) jobs = elim (jobs id) [
  | none ↦ raised runtime_error jobs
  | some job ↦ elim (set_fields us job) [
    | raise e ↦ raised e jobs
    | done job' ↦ ok job' (put_job id job' jobs)
  ]
]

abbrev pub jobs_of : Db → Jobs
jobs_of db k = job_at k db

-- An outcome, seen through the abstraction.
abbrev pub abstract : {A : Type 0} → Outcome Db A → Outcome Jobs A
abstract (ok a db) = ok a (jobs_of db)
abstract (raised e db) = raised e (jobs_of db)

-- The update does not rename the document.
abbrev pub KeepsId : JobUpdate → Type 0
KeepsId (JobUpdate.job_id v) = ⊥
KeepsId _ = Unit

abbrev pub OpKeepsId : JobOp → Type 0
OpKeepsId (update id us) = All KeepsId us
OpKeepsId _ = Unit

job_id-set_field :
    (u : JobUpdate) (d d' : DbWorkflowJob)
    → KeepsId u
    → set_field u d ≡ done d'
    → d'.job_id ≡ d.job_id
job_id-set_field (JobUpdate.job_id v) d d' keeps h = absurd keeps
job_id-set_field u d d' keeps h = ground arith

job_id-set_fields :
    (us : List JobUpdate) (d d' : DbWorkflowJob)
    → All KeepsId us
    → set_fields us d ≡ done d'
    → d'.job_id ≡ d.job_id
unfolding set_fields
job_id-set_fields [] d d' keeps h = ground arith
job_id-set_fields (u ∷ us) d d' keeps h = elim (Result-cases (set_field u d)) [
  | inl (e, refused) ↦ absurd (ground arith)
  | inr (d₁, first) ↦
      job_id-set_fields us d₁ d' keeps.1 (ground arith) ∙ job_id-set_field u d d₁ keeps.0 first
]

update_job_done :
    (id : Option String) (us : List JobUpdate) (db : Db) (job job' : DbWorkflowJob)
    → job_at id db ≡ some job
    → set_fields us job ≡ done job'
    → db_update_workflow_job id us db ≡ ok job' (with_job id job' db)
unfolding db_update_workflow_job
update_job_done id us db job job' found h = ground arith

update_job_refused :
    (id : Option String) (us : List JobUpdate) (db : Db) (job : DbWorkflowJob) (e : Exc)
    → job_at id db ≡ some job
    → set_fields us job ≡ raise e
    → db_update_workflow_job id us db ≡ raised e db
unfolding db_update_workflow_job
update_job_refused id us db job e found h = ground arith

job_at-new :
    (job : DbWorkflowJob) (db : Db) (k : Option String)
    → find_one (is_job k) (db.workflow_jobs ++ job ∷ []) ≡ add_job job (jobs_of db) k
unfolding find_one
job_at-new job db k =
    find_one-append (is_job k) db.workflow_jobs (job ∷ []) ∙ by_cases (job_at k db)
  where
    by_cases :
        (o : Option DbWorkflowJob)
        → elim o [ none ↦ if some job.job_id == k then some job else none | some d ↦ some d ]
          ≡ elim o [ some old ↦ some old | none ↦ if some job.job_id == k then some job else none ]
    by_cases none = refl
    by_cases (some d) = refl

-- What an operation does to the collection is what the specification does to the map.
apply-spec : (op : JobOp) (db : Db) → OpKeepsId op → abstract (apply op db) ≡ spec op (jobs_of db)
unfolding db_create_workflow_job find_one
apply-spec (create now user id dir v workflow workspace details) db keeps =
    let job = new_job now user id dir v workflow workspace details in
    ap (ok job) (fun_ext λ k. job_at-new job db k)
apply-spec (get id) db keeps = elim (Option-cases (job_at id db)) [
  | inl missing ↦ rw (get_missing_job id db missing) (rw (spec, missing) refl)
  | inr (job, found) ↦ rw (get_job id db job found) (rw (spec, found) refl)
]
apply-spec (update id us) db keeps = elim (Option-cases (job_at id db)) [
  | inl missing ↦ rw (update_missing_job id us db missing) (rw (spec, missing) refl)
  | inr (job, found) ↦ elim (Result-cases (set_fields us job)) [
    | inl (e, refused) ↦
        rw (update_job_refused id us db job e found refused) (rw (spec, found) (rw refused refl))
    | inr (job', written) ↦ rw (update_job_done id us db job job' found written) (
        rw (spec, found)
          (rw written (
            ap (ok job') (
              fun_ext λ k.
                job_at-with_job id k job' db job found (
                  ap some (job_id-set_fields us job job' keeps written) ∙ id-job_at id db found)))))
  ]
]

module _ {ℓ} {S : Type ℓ} where
  -- The answer of an operation, before those of the rest.
  abbrev pub resume :
      (S → List (Result DbWorkflowJob) × S)
      → Outcome S DbWorkflowJob
      → List (Result DbWorkflowJob) × S
  resume rest (ok job t) = (done job ∷ (rest t).0, (rest t).1)
  resume rest (raised e t) = (raise e ∷ (rest t).0, (rest t).1)

  -- The answers of a sequence of operations, with what is left at its end.
  unfoldable pub run :
      (JobOp → Exec S DbWorkflowJob) → List JobOp → S → List (Result DbWorkflowJob) × S
  run step [] s = ([], s)
  run step (op ∷ ops) s = resume (run step ops) (step op s)

-- A run on the database, seen through the abstraction.
abbrev pub seen : List (Result DbWorkflowJob) × Db → List (Result DbWorkflowJob) × Jobs
seen (answers, db) = (answers, jobs_of db)

resume-abstract :
    (rest : Db → List (Result DbWorkflowJob) × Db)
    (rest' : Jobs → List (Result DbWorkflowJob) × Jobs)
    → ((db : Db) → rest' (jobs_of db) ≡ seen (rest db))
    → (r : Outcome Db DbWorkflowJob) → resume rest' (abstract r) ≡ seen (resume rest r)
resume-abstract rest rest' same (ok job db) =
    ap (λ (p : List (Result DbWorkflowJob) × Jobs). (done job ∷ p.0, p.1)) (same db)
resume-abstract rest rest' same (raised e db) =
    ap (λ (p : List (Result DbWorkflowJob) × Jobs). (raise e ∷ p.0, p.1)) (same db)

-- The collection of jobs implements a map from ids to documents, of which it is enough to know that
-- the first document under an id counts: a sequence of creations, searches and updates that
-- rename no document gives the same answers, errors included, on the database and on the map that
-- it stands for, and leaves a database that stands for the map that is left.
pub run_refines :
    (ops : List JobOp) (db : Db)
    → All OpKeepsId ops
    → run spec ops (jobs_of db) ≡ seen (run apply ops db)
unfolding run
run_refines [] db keeps = refl
run_refines (op ∷ ops) db keeps =
    ap (resume (run spec ops)) (sym (apply-spec op db keeps.0))
    ∙ resume-abstract (run apply ops) (run spec ops) (λ t. run_refines ops t keeps.1) (apply op db)
