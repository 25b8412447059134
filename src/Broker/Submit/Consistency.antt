-- ===== src/Broker/Submit/Consistency.antt =====
-- The callback of the submit worker keeps the database consistent, whatever message it gets.
use operandi.Common.{
  ℕ, arith, ◌∙◌, Ensures-and, ◌≡◌, refl, sym, subst, modify, String, true, false, Option, none,
  some, List, [], ◌∷◌, Result, raise, other, Outcome, ok, raised, Exec, pure, lift, every_exception,
  Ensures, Post, Ensures-pure, Ensures-lift, Ensures-map, Ensures-bind,
}
use operandi.Constants.{StateWorkspace}
use operandi.Constants.Job.{StateJob}
use operandi.Database.Updates.{WorkspaceUpdate, JobUpdate}
use operandi.Database.Models.{Db, DbUserAccount, DbWorkflow, DbWorkflowJob, DbWorkspace}
use operandi.Database.Consistency.{has_slurm_job}
use operandi.Database.Consistency.Operations.{
  Knows, Keeps, Keeps-rest, update_job_state-Keeps, update_workspace-Keeps, get_workspace-Keeps,
  get_workflow-Keeps, get_user_account-Keeps, get_job-Ensures, create_slurm_job-Ensures, Knows-tail,
  Knows-tail_job,
}
use operandi.Database.ProcessingStats.{db_create_page_stat}
use operandi.Database.Workspace.{sync_db_update_workspace}
use operandi.Database.WorkflowJob.{sync_db_get_workflow_job, sync_db_update_workflow_job}
use operandi.Hpc.Executor.{SlurmJobArgs}
use operandi.Broker.Worker.{Body, Site, Env, message_field, on_db, ack}
use operandi.Broker.Worker.Rules.{Ensures-on_db, Ensures-try_then}
use operandi.Broker.Worker.Sound.{Sound, Sounds, Sounds-bind, Sounds-on_db, Sounds-on_local, asked}
use operandi.Broker.Submit.{
  SubmitWorker, SubmitMessage, int_field, parse_submit_message, read_submit_documents, reraise,
  finish_message, prepare_slurm_workspace, trigger_or_count, save_slurm_job,
  prepare_and_trigger_slurm_job, submit_job, slurm_job_args, set_ids, fail_documents,
  handle_submit_failure, consumed_msg_callback,
}

module _ {S A : Type 0} (Q : A → S → Type 0) (E : S → Type 0) (m : Exec S A) where
  Post-reraise : (s : S) (r : Outcome S A) → m s ≡ r → Post Q E r → Post Q E (reraise m s)
  Post-reraise s (ok a t) e q =
      let same : reraise m s ≡ ok a t = rw (reraise, e) refl in subst (Post Q E) (sym same) q
  Post-reraise s (raised x t) e q =
      let same : reraise m s ≡ raised other t = rw (reraise, e) refl in
      subst (Post Q E) (sym same) q

Ensures-reraise :
    {S A : Type 0} {P : S → Type 0} {Q : A → S → Type 0} {E : S → Type 0} (m : Exec S A)
    → Ensures P m Q E
    → Ensures P (reraise m) Q E
Ensures-reraise {Q} {E} m h = record { at = λ s p. Post-reraise Q E m s (m s) refl (h.at s p) }

module _ (env : Env) where
  module _ (js ks : List (Option String)) where
    -- No failure asks for a slurm job: a failed job need not have been submitted.
    fail_documents-Sounds : Sounds js ks (fail_documents env)
    unfolding fail_documents
    fail_documents-Sounds = record {
      at = λ s p.
          let ws_id = s.worker.current_message_ws_id in
          let us = WorkspaceUpdate.state StateWorkspace.ready ∷ [] in
          let fails : Sounds js ks _ =
            Sounds-bind js ks _ _
              (Sounds-on_db js ks _ (λ more.
                update_job_state-Keeps s.worker.current_message_job_id StateJob.failed
                  (λ db known submitted. cc)))
              (λ _.
                Sounds-bind {A = Unit {0}} js ks
                  (modify
                    (λ t. record t { worker = record t.worker { has_consumed_message = false } }))
                  _ (record { at = λ t q. q })
                  (λ _.
                    Sounds-bind js ks _ (λ _. ack s.worker.current_message_delivery_tag)
                      (Sounds-on_db js ks (sync_db_update_workspace env.assign_ocrd_mets ws_id us)
                        (λ more. update_workspace-Keeps env.assign_ocrd_mets ws_id us))
                      (λ _. record { at = λ t q. q }))) in
          fails.at s p;
    }

    handle_submit_failure-Sounds : Sounds js ks (handle_submit_failure env false)
    unfolding handle_submit_failure
    handle_submit_failure-Sounds =
        Sounds-bind js ks (fail_documents env) _ fail_documents-Sounds
          (λ _. record { at = λ t q. q })

    prepare_slurm_workspace-Sounds :
        (job_id workspace_id workspace_dir script_path : String)
        → Sounds js ks (prepare_slurm_workspace env job_id workspace_id workspace_dir script_path)
    unfolding prepare_slurm_workspace
    prepare_slurm_workspace-Sounds job_id workspace_id workspace_dir script_path =
        Sounds-bind js ks _ _
          (Sounds-on_db js ks _
            (λ more. update_workspace-Keeps env.assign_ocrd_mets (some workspace_id) _))
          (λ ws.
            Sounds-bind js ks _ _
              (Sounds-on_db js ks _ (λ more.
                update_job_state-Keeps (some job_id) StateJob.transferring_to_hpc
                  (λ db known submitted. cc)))
              (λ _. Sounds-bind js ks _ _ (Sounds-on_local js ks _) (λ _.
                Sounds-bind js ks _ _
                  (Sounds-on_db js ks _ (λ more. get_user_account-Keeps ws.user_id))
                  (λ user. Ensures-pure (ws, user) (λ s p. p)))))

    trigger_or_count-Keeps :
        (args : SlurmJobArgs) (ws : DbWorkspace) (user : DbUserAccount)
        → Keeps js ks (trigger_or_count env args ws user)
    unfolding trigger_or_count db_create_page_stat
    trigger_or_count-Keeps args ws user =
        Keeps-rest js ks (trigger_or_count env args ws user) (λ db. ground arith)
          (λ db. ground arith)

  -- The slurm job is saved for the job.
  save_slurm_job-Ensures :
      (js ks : List (Option String)) (user_id : Option String) (job_id slurm_job_id : String)
      → Ensures
          (Knows (some job_id ∷ js) ks)
          (save_slurm_job env user_id job_id slurm_job_id)
          (λ _. Knows (some job_id ∷ js) (some job_id ∷ ks))
          (Knows (some job_id ∷ js) ks)
  unfolding save_slurm_job
  save_slurm_job-Ensures js ks none job_id slurm_job_id =
      Ensures-lift (raise other) (λ a e db q. cc) (λ db q. q)
  save_slurm_job-Ensures js ks (some user_id) job_id slurm_job_id =
      Ensures-bind (λ _. Knows (some job_id ∷ js) (some job_id ∷ ks)) _ _
        (create_slurm_job-Ensures env.now user_id job_id slurm_job_id _ _ _ _)
        (λ _. Ensures-pure tt (λ db q. q))

  prepare_and_trigger_slurm_job-Ensures :
      (user_id : Option String) (args : SlurmJobArgs) (workspace_dir script_path : String)
      → let id = some args.workflow_job_id in
        Ensures
          (Sound (id ∷ []) [])
          (prepare_and_trigger_slurm_job env user_id args workspace_dir script_path)
          (λ _. Sound (id ∷ []) (id ∷ []))
          (Sound [] [])
  unfolding prepare_and_trigger_slurm_job
  prepare_and_trigger_slurm_job-Ensures user_id args workspace_dir script_path =
      let id = some args.workflow_job_id in
      let js = id ∷ [] in
      Ensures-map _
        (Ensures-bind (λ _. Sound js []) _ _
          (Ensures-reraise _ (
            prepare_slurm_workspace-Sounds js [] args.workflow_job_id args.workspace_id
              workspace_dir script_path))
          (λ (ws, user).
            Ensures-bind (λ _. Sound js []) _ _
              (Sounds-on_db js [] _ (λ more. trigger_or_count-Keeps js more args ws user))
              (λ slurm_job_id.
                Ensures-bind (λ _. Sound js js) _ _
                  (Ensures-reraise _ (
                    Ensures-on_db _ (λ s.
                      save_slurm_job-Ensures [] (asked s.published) user_id args.workflow_job_id
                        slurm_job_id)))
                  (λ _. Ensures-pure slurm_job_id (λ s p. p)))))
        (λ s p. p) (λ _ s p. p) (λ s p. Knows-tail_job id s.db p)

  -- The job that was read is that of the current message.
  abbrev SoundRead : DbWorkflowJob → Site SubmitWorker → Type 0
  SoundRead job s =
      Sound (some job.job_id ∷ []) [] s × (some job.job_id ≡ s.worker.current_message_job_id)

  submit_job-Ensures :
      (job : DbWorkflowJob) (wf : DbWorkflow) (ws : DbWorkspace) (m : SubmitMessage)
      → Ensures (SoundRead job) (submit_job env job wf ws m) (λ _. Sound [] []) (Sound [] [])
  unfolding submit_job slurm_job_args
  submit_job-Ensures job wf ws m = record {
    at = λ s p.
        let id = some job.job_id in
        let js = id ∷ [] in
        let current = s.worker.current_message_job_id in
        let us₁ = JobUpdate.job_state StateJob.pending ∷ [] in
        let us₂ = WorkspaceUpdate.state StateWorkspace.pending ∷ [] in
        let rest : Sounds js js _ =
          Sounds-bind js js (on_db (sync_db_update_workflow_job current us₁)) _
            (Sounds-on_db js js (sync_db_update_workflow_job current us₁) (λ more.
              update_job_state-Keeps current StateJob.pending
                (λ db known _. subst (λ k. has_slurm_job k db ≡ true) p.1 known.slurm_jobs.0)))
            (λ _.
              Sounds-bind js js
                (on_db (
                  sync_db_update_workspace env.assign_ocrd_mets s.worker.current_message_ws_id us₂))
                (λ _. pure tt)
                (Sounds-on_db js js _ (λ more.
                  update_workspace-Keeps env.assign_ocrd_mets s.worker.current_message_ws_id us₂))
                (λ _. Ensures-pure tt (λ t q. q))) in
        let submits : Ensures (Sound js []) _ (λ _. Sound [] []) (Sound [] []) =
          Ensures-bind (λ _. Sound js js) _ _
            (prepare_and_trigger_slurm_job-Ensures s.worker.current_message_user_id
              (slurm_job_args s.worker.test_sbatch job.job_id wf ws job.workspace_id m)
              ws.workspace_dir wf.workflow_script_path)
            (λ _.
              Ensures-map _ rest (λ t q. q) (λ _ t q. Knows-tail id id t.db q)
                (λ t q. Knows-tail id id t.db q)) in
        submits.at s p.0;
  }

  lift-Sounds : {A : Type 0} (r : Result A) → Sounds {W = SubmitWorker} [] [] (lift r)
  lift-Sounds r = Ensures-lift r (λ _ _ s p. p) (λ s p. p)

  parse_submit_message-Sounds : (body : Body) → Sounds [] [] (parse_submit_message body)
  unfolding parse_submit_message
  parse_submit_message-Sounds none = lift-Sounds (raise other)
  parse_submit_message-Sounds (some fields) =
      let text = λ (key : String). lift-Sounds (message_field key fields) in
      Sounds-bind [] [] _ _ (text "job_id") (λ job_id.
        Sounds-bind {A = Unit {0}} [] []
          (modify
            (λ s. record s { worker = record s.worker { current_message_job_id = some job_id } }))
          _ (record { at = λ s p. p })
          (λ _. Sounds-bind [] [] _ _ (text "input_file_grp") (λ input_file_grp.
            Sounds-bind [] [] _ _ (text "remove_file_grps") (λ remove_file_grps.
              Sounds-bind [] [] _ _ (text "partition") (λ partition.
                Sounds-bind [] [] _ _ (lift-Sounds (int_field "cpus" fields)) (λ cpus.
                  Sounds-bind [] [] _ _ (lift-Sounds (int_field "ram" fields)) (λ ram.
                    Ensures-pure
                      (record {
                        input_file_grp = input_file_grp;
                        remove_file_grps = remove_file_grps;
                        partition = partition;
                        cpus = cpus;
                        ram = ram;
                      })
                      (λ s p. p))))))))

  -- A read of the database keeps what is known of the job.
  SoundRead-on_db :
      {A : Type 0} (job : DbWorkflowJob) (m : Exec Db A)
      → ((more : List (Option String)) → Keeps (some job.job_id ∷ []) more m)
      → Ensures (SoundRead job) (on_db m) (λ _. SoundRead job) (Sound [] [])
  SoundRead-on_db job m h =
      Ensures-map _
        (Ensures-on_db m (λ t.
          Ensures-and (some job.job_id ≡ t.worker.current_message_job_id) m
            (h (asked t.published))))
        (λ t q. q) (λ _ t q. q) (λ t q. Knows-tail_job (some job.job_id) t.db q)

  read_submit_documents-Ensures :
      Ensures (Sound [] []) read_submit_documents (λ (job, wf, ws). SoundRead job) (Sound [] [])
  unfolding read_submit_documents
  read_submit_documents-Ensures = record {
    at = λ s p.
        let current = s.worker.current_message_job_id in
        let get_job = sync_db_get_workflow_job current in
        let Current = λ (t : Site SubmitWorker). t.worker.current_message_job_id ≡ current in
        let found : Ensures (λ t. Sound [] [] t × Current t) (on_db get_job)
            (λ job t. (Sound (some job.job_id ∷ []) [] t × (some job.job_id ≡ current)) × Current t)
            (Sound [] []) =
          Ensures-on_db get_job (λ t. Ensures-and (Current t) get_job (get_job-Ensures current)) in
        let read_job : Ensures (λ t. Sound [] [] t × Current t) (on_db get_job) SoundRead
            (Sound [] []) =
          Ensures-map _ found (λ t q. q) (λ job t q. (q.0.0, q.0.1 ∙ sym q.1)) (λ t q. q) in
        let reads = Ensures-bind SoundRead (on_db get_job) _ read_job (λ job.
          Ensures-bind {A = Unit {0}} (λ _. SoundRead job)
            (modify (λ t. record t { worker = set_ids job t.worker })) _ (record { at = λ t q. q })
            (λ _.
              Ensures-bind (λ _. SoundRead job) _ _
                (SoundRead-on_db job _ (λ more. get_workflow-Keeps job.workflow_id))
                (λ wf.
                  Ensures-bind (λ _. SoundRead job) _ _
                    (SoundRead-on_db job _ (λ more. get_workspace-Keeps (some job.workspace_id)))
                    (λ ws. Ensures-pure (job, wf, ws) (λ t q. q))))) in
        reads.at s (p, refl);
  }

  -- Whatever the message and whatever the HPC answers: after the callback, also where it raises,
  -- every slurm job belongs to a job, every job that was submitted has a slurm job, and so has
  -- every job that a message for the download worker names, if that was so before.
  pub consumed_msg_callback-Sounds :
      (tag : ℕ) (body : Body) → Sounds [] [] (consumed_msg_callback env tag body)
  unfolding consumed_msg_callback finish_message
  consumed_msg_callback-Sounds tag body =
      let failure = handle_submit_failure-Sounds [] [] in
      Sounds-bind {A = Unit {0}} [] []
        (modify (λ s. record s {
          worker = record s.worker {
            current_message_delivery_tag = some tag;
            has_consumed_message = true;
          };
        }))
        _ (record { at = λ s p. p })
        (λ _.
          Ensures-try_then (λ _. Sound [] []) every_exception _ _ _
            (parse_submit_message-Sounds body) (λ t p. p) failure
            (λ m.
              Ensures-try_then (λ (job, wf, ws). SoundRead job) every_exception _ _ _
                read_submit_documents-Ensures (λ t p. p) failure
                (λ (job, wf, ws).
                  Ensures-try_then (λ _. Sound [] []) every_exception _ _ (λ _. finish_message tag)
                    (submit_job-Ensures job wf ws m) (λ t p. p) failure
                    (λ _. record { at = λ s p. p }))))
