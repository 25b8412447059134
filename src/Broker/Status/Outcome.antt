-- ===== src/Broker/Status/Outcome.antt =====
-- What the callback of the status worker does with a message that it can handle.
use operandi.Common.{
  ◌≡◌, refl, ap, ◌∙◌, find_one, String, Bool, true, false, Option, some, List, [], ◌∷◌, ◌++◌,
  append-nil, ◌==◌, option_eq, string_eq, if◌then◌else◌, arith, Outcome, ok, raised, raise, done,
  state_of, value_error, is_value_error, ==_iff, Exc, Bool-cases, Result-cases, inl, inr,
}
use operandi.Constants.{StateWorkspace}
use operandi.Constants.Slurm.{StateJobSlurm, state_job_slurm_eq}
use operandi.Constants.Job.{StateJob, convert_from_slurm_job}
use operandi.Database.Models.{DbHpcSlurmJob, DbWorkflowJob, DbWorkspace}
use operandi.Database.HpcSlurmJob.Laws.{
  slurm_job_at, with_slurm_job, slurm_job_at-with_slurm_job, id-slurm_job_at,
  update_slurm_job_state,
}
use operandi.Database.HpcSlurmJob.{is_slurm_job_of}
use operandi.Database.WorkflowJob.Laws.{job_at}
use operandi.Database.Workspace.Laws.{workspace_at}
use operandi.Broker.Worker.{Worker, Site, Env, DownloadMessage}
use operandi.Broker.Status.{change_job_state, change_slurm_state}
use operandi.Broker.Status.Steps.{next_job_state, asks_download, Follows, change_job_state-Follows}

-- The job state after the slurm job went from `old_slurm` to `new_slurm`.
abbrev pub state_after : StateJobSlurm → StateJobSlurm → StateJob → StateJob
state_after old_slurm new_slurm old =
    if old_slurm == new_slurm then old else elim (convert_from_slurm_job new_slurm) [
      | raise e ↦ old
      | done new ↦ next_job_state old new
    ]

-- The messages for the download worker that the change of the slurm state leads to.
abbrev pub requests_after : StateJobSlurm → StateJobSlurm → DbWorkflowJob → List DownloadMessage
requests_after old_slurm new_slurm job =
    if old_slurm == new_slurm then [] else elim (convert_from_slurm_job new_slurm) [
      | raise e ↦ []
      | done new ↦
          if asks_download job.job_state new
          then record { job_id = job.job_id; previous_job_state = new } ∷ []
          else []
    ]

-- Whether the change of the slurm state leads to a download.
abbrev pub downloads_after : StateJobSlurm → StateJobSlurm → StateJob → Bool
downloads_after old_slurm new_slurm old =
    if old_slurm == new_slurm then false else elim (convert_from_slurm_job new_slurm) [
      | raise e ↦ false
      | done new ↦ asks_download old new
    ]

abbrev pub workspace_after : StateJobSlurm → StateJobSlurm → StateJob → DbWorkspace → DbWorkspace
workspace_after old_slurm new_slurm old ws = record ws {
  state =
      if downloads_after old_slurm new_slurm old
      then StateWorkspace.transferring_from_hpc
      else ws.state;
}

unset_only :
    (new : StateJobSlurm) (e : Exc) → convert_from_slurm_job new ≡ raise e → e ≡ value_error
unfolding convert_from_slurm_job
unset_only new e h = ground arith

-- What the handling of a slurm job's new state does. It returns, or a `ValueError` leaves it.
pub record Advances (s : Site Worker) (slurm : DbHpcSlurmJob) (job : DbWorkflowJob)
    (ws : DbWorkspace) (ws_id : Option String) (new : StateJobSlurm)
    (r : Outcome (Site Worker) (Unit {0})) : Type 0 where
  pub refused : (e : Exc) (t : Site Worker) → r ≡ raised e t → is_value_error e ≡ true
  pub slurm_state :
      slurm_job_at (some job.job_id) (state_of r).db
      ≡ some (record slurm { hpc_slurm_job_state = new })
  pub job_state :
      job_at (some job.job_id) (state_of r).db
      ≡ some (record job { job_state = state_after slurm.hpc_slurm_job_state new job.job_state })
  pub published :
      (state_of r).published ≡ s.published ++ requests_after slurm.hpc_slurm_job_state new job
  pub workspace :
      workspace_at ws_id (state_of r).db
      ≡ some (workspace_after slurm.hpc_slurm_job_state new job.job_state ws)
  pub user_accounts : (state_of r).db.user_accounts ≡ s.db.user_accounts
  pub acked : (state_of r).acked ≡ s.acked
  pub worker : (state_of r).worker ≡ s.worker

module _ (env : Env) (slurm : DbHpcSlurmJob) (job : DbWorkflowJob) (ws : DbWorkspace)
    (ws_id : Option String) where
  -- The database once the new state of the slurm job is saved.
  abbrev slurm_saved : Site Worker → StateJobSlurm → Site Worker
  slurm_saved s new = record s {
    db = with_slurm_job (some job.job_id) (record slurm { hpc_slurm_job_state = new }) s.db;
  }

  module _ (s : Site Worker) (new : StateJobSlurm)
      (found_slurm : slurm_job_at (some job.job_id) s.db ≡ some slurm) where
    change_slurm_state_same :
        (slurm.hpc_slurm_job_state == new) ≡ true
        → change_slurm_state env slurm job ws_id new s ≡ ok tt s
    unfolding change_slurm_state
    change_slurm_state_same same = ground arith

    change_slurm_state_refused :
        (slurm.hpc_slurm_job_state == new) ≡ false
        → convert_from_slurm_job new ≡ raise value_error
        → change_slurm_state env slurm job ws_id new s ≡ raised value_error (slurm_saved s new)
    unfolding change_slurm_state
    change_slurm_state_refused changed refused =
        ground (arith, update_slurm_job_state (some job.job_id) new s.db slurm found_slurm)

    change_slurm_state_done :
        (j : StateJob)
        → (slurm.hpc_slurm_job_state == new) ≡ false
        → convert_from_slurm_job new ≡ done j
        → change_slurm_state env slurm job ws_id new s
          ≡ change_job_state env job ws_id j (slurm_saved s new)
    unfolding change_slurm_state
    change_slurm_state_done j changed stands =
        ground (arith, update_slurm_job_state (some job.job_id) new s.db slurm found_slurm)

    slurm_job_at-slurm_saved :
        slurm_job_at (some job.job_id) (slurm_saved s new).db
        ≡ some (record slurm { hpc_slurm_job_state = new })
    slurm_job_at-slurm_saved =
        let id = some job.job_id in
        let slurm₁ : DbHpcSlurmJob = record slurm { hpc_slurm_job_state = new } in
        ground (
          arith,
          slurm_job_at-with_slurm_job id id slurm₁ s.db slurm found_slurm
              (id-slurm_job_at id s.db found_slurm),
        )

    Follows-Advances :
        (j : StateJob) (r : Outcome (Site Worker) (Unit {0}))
        → (slurm.hpc_slurm_job_state == new) ≡ false
        → convert_from_slurm_job new ≡ done j
        → Follows (slurm_saved s new) job ws ws_id j r
        → Advances s slurm job ws ws_id new r
    Follows-Advances j r changed stands follows = record {
      refused = λ e t h. ground (arith, follows.returns);
      slurm_state =
          ap (find_one (is_slurm_job_of (some job.job_id))) follows.slurm_jobs
          ∙ slurm_job_at-slurm_saved;
      job_state = ground (arith, follows.job_state);
      published = ground (arith, follows.published);
      workspace = ground (arith, follows.workspace);
      user_accounts = follows.user_accounts;
      acked = follows.acked;
      worker = follows.worker;
    }

    pub change_slurm_state-Advances :
        job_at (some job.job_id) s.db ≡ some job
        → workspace_at ws_id s.db ≡ some ws
        → Advances s slurm job ws ws_id new (change_slurm_state env slurm job ws_id new s)
    change_slurm_state-Advances found_job found_ws =
        elim (Bool-cases (slurm.hpc_slurm_job_state == new)) [
          | inl same ↦ rw (change_slurm_state_same same) record {
            refused = λ e t h. ground arith;
            slurm_state = ground (arith, ==_iff slurm.hpc_slurm_job_state new);
            job_state = ground arith;
            published = ground (arith, append-nil s.published);
            workspace = ground (arith, found_ws);
            user_accounts = refl;
            acked = refl;
            worker = refl;
          }
          | inr changed ↦ elim (Result-cases (convert_from_slurm_job new)) [
            | inl (e, refused) ↦
                rw
                  (change_slurm_state_refused changed
                    (refused ∙ ap raise (unset_only new e refused)))
                  record {
                    refused = λ e t h. ground arith;
                    slurm_state = slurm_job_at-slurm_saved;
                    job_state = ground arith;
                    published = ground (arith, append-nil s.published);
                    workspace = ground (arith, found_ws);
                    user_accounts = refl;
                    acked = refl;
                    worker = refl;
                  }
            | inr (j, stands) ↦ rw (change_slurm_state_done j changed stands) (
                Follows-Advances j (change_job_state env job ws_id j (slurm_saved s new)) changed
                  stands
                  (change_job_state-Follows env job ws ws_id (slurm_saved s new) j found_job
                    found_ws))
          ]
        ]
