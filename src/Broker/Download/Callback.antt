-- ===== src/Broker/Download/Callback.antt =====
-- What the callback of the download worker leaves behind, by the previous state in the message.
use operandi.Common.{
  ℕ, ◌≡◌, refl, ◌∙◌, String, true, false, some, List, [], ◌∷◌, ◌++◌, arith, ◌==◌, option_eq,
  string_eq, find_one, Exc, ok, raised, done, every_exception,
}
use operandi.Database.Models.{Db}
use operandi.Database.UserAccount.{is_user, db_get_user_account}
use operandi.Database.HpcSlurmJob.Laws.{slurm_job_at, get_slurm_job}
use operandi.Database.WorkflowJob.Laws.{job_at, get_job}
use operandi.Database.Workspace.Laws.{workspace_at, get_workspace}
use operandi.Broker.Worker.{
  Worker, Site, Env, message_field, try_then, end_message, handle_msg_failure,
}
use operandi.Broker.Worker.Steps.{on_db_ok, try_then_ok, try_then_caught}
use operandi.Broker.Download.{
  Documents, parse_download_message, read_documents, read_download_documents, handle_previous_state,
  consumed_msg_callback,
}

-- The worker while it handles the message of a job.
abbrev pub begun : ℕ → String → Site Worker → Site Worker
begun tag id s = record s {
  worker = record s.worker {
    current_message_delivery_tag = some tag;
    has_consumed_message = true;
    current_message_job_id = some id;
  };
}

-- The database has the documents of a job.
pub record IsKnown (id : String) (d : Documents) (db : Db) : Type 0 where
  pub slurm_job : slurm_job_at (some id) db ≡ some d.slurm_job
  pub workflow_job : job_at (some id) db ≡ some d.workflow_job
  pub workspace : workspace_at (some d.workflow_job.workspace_id) db ≡ some d.workspace
  pub user : find_one (is_user d.workspace.user_id) db.user_accounts ≡ some d.user

read_documents_lem :
    (id : String) (d : Documents) (db : Db)
    → IsKnown id d db
    → read_documents (some id) db ≡ ok d db
unfolding read_documents db_get_user_account
read_documents_lem id d db known = ground (
  arith,
  known.user,
  get_slurm_job (some id) db d.slurm_job known.slurm_job,
  get_job (some id) db d.workflow_job known.workflow_job,
  get_workspace (some d.workflow_job.workspace_id) db d.workspace known.workspace,
)

module _ (env : Env) (tag : ℕ) (s : Site Worker) (fields : List (String × String))
    (id prev : String) (d : Documents) (has_id : message_field "job_id" fields ≡ done id)
    (has_prev : message_field "previous_job_state" fields ≡ done prev)
    (known : IsKnown id d s.db) where
  parse_download_message_lem :
      (t : Site Worker)
      → parse_download_message (some fields) t
        ≡ ok prev (record t { worker = record t.worker { current_message_job_id = some id } })
  unfolding parse_download_message
  parse_download_message_lem t = rw has_id (rw has_prev refl)

  read_download_documents_lem : read_download_documents (begun tag id s) ≡ ok d (begun tag id s)
  unfolding read_download_documents
  read_download_documents_lem =
      on_db_ok (read_documents (some id)) (begun tag id s) d s.db
        (read_documents_lem id d s.db known)

  -- Up to the last `try`, the callback only reads.
  callback-begun :
      consumed_msg_callback env tag (some fields) s
      ≡ try_then every_exception
          (handle_previous_state env prev d)
          (handle_msg_failure false)
          (λ _. end_message tag)
          (begun tag id s)
  unfolding consumed_msg_callback
  callback-begun =
      let s₁ = record s {
        worker = record s.worker {
          current_message_delivery_tag = some tag;
          has_consumed_message = true;
        };
      } in
      try_then_ok every_exception (parse_download_message (some fields)) (handle_msg_failure false)
        _ s₁ prev (begun tag id s) (parse_download_message_lem s₁)
      ∙ try_then_ok every_exception read_download_documents (handle_msg_failure false) _
          (begun tag id s) d (begun tag id s) read_download_documents_lem

  pub callback-ok :
      (t : Site Worker)
      → handle_previous_state env prev d (begun tag id s) ≡ ok tt t
      → consumed_msg_callback env tag (some fields) s ≡ end_message tag t
  callback-ok t h =
      callback-begun
      ∙ try_then_ok every_exception (handle_previous_state env prev d) (handle_msg_failure false)
          (λ _. end_message tag) (begun tag id s) tt t h

  pub callback-raised :
      (e : Exc) (t : Site Worker)
      → handle_previous_state env prev d (begun tag id s) ≡ raised e t
      → consumed_msg_callback env tag (some fields) s ≡ handle_msg_failure false t
  callback-raised e t h =
      callback-begun
      ∙ try_then_caught every_exception (handle_previous_state env prev d)
          (handle_msg_failure false) (λ _. end_message tag) (begun tag id s) e t h refl

  -- A message with any other previous state is acknowledged and changes no document and no file.
  pub download_other_state :
      (prev == "HPC_SUCCESS") ≡ false
      → (prev == "HPC_FAILED") ≡ false
      → consumed_msg_callback env tag (some fields) s
        ≡ ok tt (record s {
          worker = record s.worker {
            current_message_delivery_tag = some tag;
            has_consumed_message = false;
            current_message_job_id = some id;
          };
          acked = s.acked ++ some tag ∷ [];
        })
  unfolding handle_previous_state
  download_other_state not_success not_failed =
      callback-ok (begun tag id s) (rw not_success (rw not_failed refl))
