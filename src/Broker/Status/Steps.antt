-- ===== src/Broker/Status/Steps.antt =====
-- The job state after a status message, by a function of the states alone.
use operandi.Common.{
  not, ◌&&◌, append-nil, is_ok, ◌≡◌, refl, String, Bool, true, ◌||◌, Option, some, [], ◌∷◌, ◌++◌,
  ◌==◌, string_eq, option_eq, contains, if◌then◌else◌, arith, Outcome, ok, state_of,
}
use operandi.Constants.{StateWorkspace}
use operandi.Constants.Slurm.{state_job_slurm_eq}
use operandi.Constants.Job.{StateJob, state_job_eq, hpc_success, hpc_failed, transferring_from_hpc}
use operandi.Database.Models.{DbWorkflowJob, DbWorkspace}
use operandi.Database.WorkflowJob.Laws.{job_at, with_job, job_at-with_job, update_job_state}
use operandi.Database.Workspace.Laws.{
  workspace_at, with_workspace, workspace_at-with_workspace, id-workspace_at,
  update_workspace_state,
}
use operandi.Broker.Worker.{Worker, Site, Env}
use operandi.Broker.Status.{settled_states, request_download, change_job_state}

-- What becomes of a job state when the slurm job is found in a state that stands for `new`.
abbrev pub next_job_state : StateJob → StateJob → StateJob
next_job_state old new =
    if old == new || contains settled_states old
    then old
    else if new == hpc_success || new == hpc_failed
    then transferring_from_hpc
    else new

module _ (env : Env) (job : DbWorkflowJob) (ws : DbWorkspace) (ws_id : Option String) where
  -- The two documents, and the message, that a request for a download leaves.
  request_download_lem :
      (s : Site Worker) (new : StateJob)
      → job_at (some job.job_id) s.db ≡ some job
      → workspace_at ws_id s.db ≡ some ws
      → request_download env job.job_id ws_id new s
        ≡ ok tt (record s {
          db =
              with_job
                (some job.job_id)
                (record job { job_state = transferring_from_hpc })
                (with_workspace ws_id
                  (record ws { state = StateWorkspace.transferring_from_hpc })
                  s.db);
          published = s.published ++ record { job_id = job.job_id; previous_job_state = new } ∷ [];
        })
  unfolding request_download
  request_download_lem s new found_job found_ws = ground (
    arith,
    update_workspace_state env.assign_ocrd_mets ws_id StateWorkspace.transferring_from_hpc s.db
        found_ws,
    update_job_state (some job.job_id) transferring_from_hpc
        (with_workspace ws_id (record ws { state = StateWorkspace.transferring_from_hpc }) s.db)
        found_job,
  )

-- Whether a download is asked for.
abbrev pub asks_download : StateJob → StateJob → Bool
asks_download old new =
    not (old == new)
    && not (contains settled_states old)
    && (new == hpc_success || new == hpc_failed)

-- What a status message does to a job in a state `old` whose slurm job stands for `new`.
pub record Follows (s : Site Worker) (job : DbWorkflowJob) (ws : DbWorkspace)
    (ws_id : Option String) (new : StateJob) (r : Outcome (Site Worker) (Unit {0})) : Type 0 where
  pub returns : is_ok r ≡ true
  pub job_state :
      job_at (some job.job_id) (state_of r).db
      ≡ some (record job { job_state = next_job_state job.job_state new })
  pub workspace :
      workspace_at ws_id (state_of r).db
      ≡ some (record ws {
        state =
            if asks_download job.job_state new
            then StateWorkspace.transferring_from_hpc
            else ws.state;
      })
  pub published :
      (state_of r).published
      ≡ s.published
        ++ (if asks_download job.job_state new
            then record { job_id = job.job_id; previous_job_state = new } ∷ []
            else [])
  pub slurm_jobs : (state_of r).db.hpc_slurm_jobs ≡ s.db.hpc_slurm_jobs
  pub user_accounts : (state_of r).db.user_accounts ≡ s.db.user_accounts
  pub acked : (state_of r).acked ≡ s.acked
  pub worker : (state_of r).worker ≡ s.worker

module _ (env : Env) (job : DbWorkflowJob) (ws : DbWorkspace) (ws_id : Option String) where
  pub change_job_state-Follows :
      (s : Site Worker) (new : StateJob)
      → job_at (some job.job_id) s.db ≡ some job
      → workspace_at ws_id s.db ≡ some ws
      → Follows s job ws ws_id new (change_job_state env job ws_id new s)
  unfolding change_job_state
  change_job_state-Follows s new found_job found_ws =
      let id = some job.job_id in
      let job₁ : DbWorkflowJob = record job { job_state = new } in
      let db₁ = with_job id job₁ s.db in
      let s₁ : Site Worker = record s { db = db₁ } in
      ground (
        arith,
        append-nil s.published,
        update_job_state id new s.db found_job,
        job_at-with_job id id job₁ s.db job found_job refl,
        request_download_lem env job₁ ws ws_id s₁ new,
        job_at-with_job id id (record job { job_state = transferring_from_hpc }) db₁ job₁,
        workspace_at-with_workspace ws_id ws_id
            (record ws { state = StateWorkspace.transferring_from_hpc }) db₁ ws found_ws
            (id-workspace_at ws_id s.db found_ws),
      )
