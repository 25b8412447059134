-- ===== src/Broker/Download/Consistency.antt =====
-- The callback of the download worker keeps the database consistent, whatever message it gets.
use operandi.Common.{
  ℕ, ◌≡◌, refl, sym, subst, modify, ==_iff, Bool-cases, inl, inr, String, false, Option, none, some,
  List, [], ◌∷◌, ◌==◌, string_eq, pure, every_exception, path_name, Ensures, Ensures-pure,
  Ensures-lift, Ensures-if, Ensures-map, Ensures-bind,
}
use operandi.Constants.{StateWorkspace}
use operandi.Constants.Job.{StateJob}
use operandi.Database.Updates.{WorkspaceUpdate}
use operandi.Database.Models.{Db}
use operandi.Database.Consistency.Operations.{
  Knows, Keeps, update_job_state-Keeps, update_workspace-Keeps, create_page_stat-Keeps,
  get_workspace-Keeps, get_user_account-Keeps, get_job-Ensures, get_slurm_job-Ensures,
  Knows-tail_job, Knows-tail_slurm_job,
}
use operandi.Hpc.Executor.{remove_workflow_job_dir}
use operandi.Hpc.Transfer.{download_slurm_job_log_file}
use operandi.Broker.Worker.{
  Body, Worker, Site, Env, message_field, begin_message, end_message, handle_msg_failure,
}
use operandi.Broker.Worker.Rules.{Post-on_db, Ensures-try_then}
use operandi.Broker.Worker.Sound.{
  Sound, Sounds, Sounds-bind, Sounds-on_db, Sounds-on_local, asked, handle_msg_failure-Sounds,
}
use operandi.Broker.Download.{
  Documents, parse_download_message, read_documents, read_download_documents,
  download_results_from_hpc, settle_documents, extract_updated_file_groups, handle_hpc_success,
  handle_hpc_failed, handle_previous_state, consumed_msg_callback,
}

-- The slurm job of the current message is there.
abbrev SoundCurrent : Site Worker → Type 0
SoundCurrent s = Sound [] (s.worker.current_message_job_id ∷ []) s

read_documents-Ensures :
    (js ks : List (Option String)) (id : Option String)
    → Ensures (Knows js ks) (read_documents id) (λ d. Knows js (id ∷ ks)) (Knows js ks)
unfolding read_documents
read_documents-Ensures js ks id =
    let ks' = id ∷ ks in
    let found = λ (db : Db) (q : Knows js ks' db). Knows-tail_slurm_job id db q in
    let read_job : Ensures (Knows js ks') _ (λ job. Knows js ks') (Knows js ks) =
      Ensures-map _ (get_job-Ensures id) (λ db q. q)
        (λ job db q. Knows-tail_job (some job.job_id) db q.0) found in
    Ensures-bind (λ slurm. Knows js ks') _ _ (get_slurm_job-Ensures id)
      (λ slurm.
        Ensures-bind (λ job. Knows js ks') _ _ read_job
          (λ job.
            Ensures-map _
              (Ensures-bind (λ ws. Knows js ks') _ _ (get_workspace-Keeps (some job.workspace_id))
                (λ ws.
                  Ensures-bind (λ user. Knows js ks') _ _ (get_user_account-Keeps ws.user_id)
                    (λ user. Ensures-pure _ (λ db q. q))))
              (λ db q. q) (λ d db q. q) found))

read_download_documents-Ensures :
    Ensures (Sound [] []) read_download_documents (λ d. SoundCurrent) (Sound [] [])
unfolding read_download_documents
read_download_documents-Ensures = record {
  at = λ s p.
      let id = s.worker.current_message_job_id in
      Post-on_db (λ d. SoundCurrent) (Sound [] []) (read_documents id) s (read_documents id s.db)
        refl ((read_documents-Ensures [] (asked s.published) id).at s.db p);
}

module _ (env : Env) where
  module _ (js ks : List (Option String)) (id : Option String) where
    -- The job of the message may get any state.
    settle_documents-Keeps :
        (d : Documents) (us : List WorkspaceUpdate) (stat_type : String) (v : StateJob)
        → Keeps js (id ∷ ks) (settle_documents env d us stat_type v id)
    unfolding settle_documents
    settle_documents-Keeps d us stat_type v =
        let K = λ (db : Db). Knows js (id ∷ ks) db in
        Ensures-bind (λ _. K) _ _ (update_workspace-Keeps env.assign_ocrd_mets _ us)
          (λ _.
            Ensures-bind (λ _. K) _ _ (create_page_stat-Keeps env.now _)
              (λ _.
                Ensures-bind (λ _. K) _ _
                  (update_job_state-Keeps id v (λ db known _. known.slurm_jobs.0))
                  (λ _. Ensures-pure tt (λ db q. q))))

    download_results_from_hpc-Sounds :
        (job_dir workspace_dir : String)
        → Sounds js (id ∷ ks) (download_results_from_hpc env job_dir workspace_dir)
    unfolding download_results_from_hpc
    download_results_from_hpc-Sounds job_dir workspace_dir =
        Sounds-bind js (id ∷ ks) _ _ (Sounds-on_local js (id ∷ ks) _) (λ _.
          Ensures-lift
            (remove_workflow_job_dir env.execute_blocking env.sftp.slurm_workspaces_dir
              (path_name job_dir))
            (λ _ _ s p. p) (λ s p. p))

  handle_hpc_success-Ensures :
      (d : Documents)
      → Ensures SoundCurrent (handle_hpc_success env d) (λ _. Sound [] []) (Sound [] [])
  unfolding handle_hpc_success
  handle_hpc_success-Ensures d = record {
    at = λ s p.
        let id = s.worker.current_message_job_id in
        let ks = id ∷ [] in
        let us =
          (WorkspaceUpdate.state StateWorkspace.ready
            ∷ WorkspaceUpdate.file_groups (extract_updated_file_groups env d.workspace)
            ∷ []) in
        let get_log =
          download_slurm_job_log_file env.sftp d.slurm_job.hpc_slurm_job_id
            d.workflow_job.job_dir in
        let settles : Ensures (Sound [] ks) _ (λ _. Sound [] []) (Sound [] []) =
          Ensures-map _
            (Sounds-bind [] ks _ _ (Sounds-on_local [] ks get_log) (λ _.
              Sounds-bind [] ks _ _
                (download_results_from_hpc-Sounds [] [] id d.workflow_job.job_dir
                  d.workspace.workspace_dir)
                (λ _.
                  Sounds-on_db [] ks (settle_documents env d us "succeeded" StateJob.success id)
                    (λ more. settle_documents-Keeps [] more id d us "succeeded" StateJob.success))))
            (λ t q. q) (λ _ t q. Knows-tail_slurm_job id t.db q)
            (λ t q. Knows-tail_slurm_job id t.db q) in
        settles.at s p;
  }

  handle_hpc_failed-Ensures :
      (d : Documents)
      → Ensures SoundCurrent (handle_hpc_failed env d) (λ _. Sound [] []) (Sound [] [])
  unfolding handle_hpc_failed
  handle_hpc_failed-Ensures d = record {
    at = λ s p.
        let id = s.worker.current_message_job_id in
        let ks = id ∷ [] in
        let us = (WorkspaceUpdate.state StateWorkspace.ready ∷ []) in
        let get_log =
          download_slurm_job_log_file env.sftp d.slurm_job.hpc_slurm_job_id
            d.workflow_job.job_dir in
        let settles : Ensures (Sound [] ks) _ (λ _. Sound [] []) (Sound [] []) =
          Ensures-map _
            (Sounds-bind [] ks _ _ (Sounds-on_local [] ks get_log) (λ _.
              Sounds-on_db [] ks (settle_documents env d us "failed" StateJob.failed id)
                (λ more. settle_documents-Keeps [] more id d us "failed" StateJob.failed)))
            (λ t q. q) (λ _ t q. Knows-tail_slurm_job id t.db q)
            (λ t q. Knows-tail_slurm_job id t.db q) in
        settles.at s p;
  }

  other_state-Ensures :
      (previous_job_state : String) (d : Documents)
      → (previous_job_state == "HPC_SUCCESS") ≡ false
      → Ensures SoundCurrent
          (handle_previous_state env previous_job_state d)
          (λ _. Sound [] [])
          (Sound [] [])
  unfolding handle_previous_state
  other_state-Ensures previous_job_state d other = rw other (
      Ensures-bind (λ _. SoundCurrent) (pure tt) _ (Ensures-pure tt (λ s p. p))
        (λ _.
          Ensures-if (previous_job_state == "HPC_FAILED") _ _ (λ _. handle_hpc_failed-Ensures d)
            (λ _.
              Ensures-pure tt
                (λ s p. Knows-tail_slurm_job s.worker.current_message_job_id s.db p))))

  success_state-Ensures :
      (d : Documents)
      → Ensures SoundCurrent
          (handle_previous_state env "HPC_SUCCESS" d)
          (λ _. Sound [] [])
          (Sound [] [])
  unfolding handle_previous_state string_eq
  success_state-Ensures d =
      Ensures-bind (λ _. Sound [] []) (handle_hpc_success env d) (λ _. pure tt)
        (handle_hpc_success-Ensures d) (λ _. Ensures-pure tt (λ s p. p))

  handle_previous_state-Ensures :
      (previous_job_state : String) (d : Documents)
      → Ensures SoundCurrent
          (handle_previous_state env previous_job_state d)
          (λ _. Sound [] [])
          (Sound [] [])
  handle_previous_state-Ensures previous_job_state d =
      elim (Bool-cases (previous_job_state == "HPC_SUCCESS")) [
        | inl is_success ↦
            subst
              (λ state.
                Ensures SoundCurrent (handle_previous_state env state d) (λ _. Sound [] [])
                  (Sound [] []))
              (sym ((==_iff previous_job_state "HPC_SUCCESS").0 is_success))
              (success_state-Ensures d)
        | inr other ↦ other_state-Ensures previous_job_state d other
      ]

  parse_download_message-Sounds : (body : Body) → Sounds [] [] (parse_download_message body)
  unfolding parse_download_message
  parse_download_message-Sounds none = record { at = λ s p. p }
  parse_download_message-Sounds (some fields) =
      Sounds-bind [] [] _ _ (Ensures-lift (message_field "job_id" fields) (λ _ _ s p. p) (λ s p. p))
        (λ job_id.
          Sounds-bind {A = Unit {0}} {B = String} [] []
            (modify
              (λ s. record s { worker = record s.worker { current_message_job_id = some job_id } }))
            _ (record { at = λ s p. p })
            (λ _.
              Ensures-lift (message_field "previous_job_state" fields) (λ _ _ s p. p) (λ s p. p)))

  -- Whatever the message and whatever the HPC answers: after the callback, also where it raises,
  -- every slurm job belongs to a job, every job that was submitted has a slurm job, and so has
  -- every job that a message for the download worker names, if that was so before.
  pub consumed_msg_callback-Sounds :
      (tag : ℕ) (body : Body) → Sounds [] [] (consumed_msg_callback env tag body)
  unfolding consumed_msg_callback
  consumed_msg_callback-Sounds tag body =
      let failure : Sounds [] [] (handle_msg_failure false) = handle_msg_failure-Sounds [] [] in
      Sounds-bind [] [] (begin_message tag) _ (record { at = λ s p. p })
        (λ _.
          Ensures-try_then (λ _. Sound [] []) every_exception _ _ _
            (parse_download_message-Sounds body) (λ t p. p) failure
            (λ previous_job_state.
              Ensures-try_then (λ d. SoundCurrent) every_exception _ _ _
                read_download_documents-Ensures (λ t p. p) failure
                (λ d.
                  Ensures-try_then (λ _. Sound [] []) every_exception _ _ (λ _. end_message tag)
                    (handle_previous_state-Ensures previous_job_state d) (λ t p. p) failure
                    (λ _. record { at = λ s p. p }))))
