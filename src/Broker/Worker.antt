-- ===== src/Broker/Worker.antt =====
-- src/broker/operandi_broker/job_worker_base.py: what the workers share. A callback runs over a
-- `Site`: the database, the worker object, the local files, and the calls of `basic_ack` and
-- `publish_to_queue` so far.
pub mod Steps
pub mod Rules
pub mod Sound
use operandi.Common.{
  ℕ, String, Bool, true, false, Option, none, some, List, [], ◌∷◌, ◌++◌, ◌==◌, string_eq,
  if◌then◌else◌, Exec, Outcome, ok, raised, Result, raise, done, key_error, modify, pure, ◌>>=◌,
  ◌>>◌, Exc,
}
use operandi.Constants.Job.{StateJob}
use operandi.Database.Models.{Db}
use operandi.Hpc.Executor.{CommandOutput, ForceCommand}
use operandi.Hpc.Transfer.{Sftp, Local}

-- A message body: not JSON, or an object, of which the texts are kept.
abbrev pub Body : Type 0
Body = Option (List (String × String))

-- `consumed_message[key]`
abbrev pub message_field : String → List (String × String) → Result String
message_field key [] = raise key_error
message_field key ((k, v) ∷ fields) = if key == k then done v else message_field key fields

-- The attributes that every worker has, and the job id that each of the three declares.
pub record Worker : Type 0 where
  pub has_consumed_message : Bool
  pub current_message_delivery_tag : Option ℕ
  pub current_message_job_id : Option String

abbrev pub new_worker : Worker
new_worker = record {
  has_consumed_message = false;
  current_message_delivery_tag = none;
  current_message_job_id = none;
}

-- The message that the status worker publishes for the download worker.
pub record DownloadMessage : Type 0 where
  pub job_id : String
  pub previous_job_state : StateJob

pub record Site (W : Type 0) : Type 0 where
  pub db : Db
  pub worker : W
  pub local : Local
  pub acked : List (Option ℕ)
  pub published : List DownloadMessage

-- What the workers ask of the outside.
pub record Env : Type 0 where
  pub now : ℕ
  -- what a document raises on the assignment of `ocrd_mets`
  pub assign_ocrd_mets : Exc
  pub sftp : Sftp
  -- the answer to the status command for a slurm job, at each attempt
  pub check_status : String → ℕ → Result CommandOutput
  pub execute_blocking : String → Result CommandOutput
  pub execute_submit : ForceCommand → Result CommandOutput
  -- `mets.file_groups` of the METS file under a path and a base name
  pub mets_file_groups : String → Option String → Result (List String)

module _ {W A : Type 0} where
  abbrev pub on_db : Exec Db A → Exec (Site W) A
  on_db m s = elim (m s.db) [
    | ok a db ↦ ok a (record s { db = db })
    | raised e db ↦ raised e (record s { db = db })
  ]

  abbrev pub on_local : Exec Local A → Exec (Site W) A
  on_local m s = elim (m s.local) [
    | ok a l ↦ ok a (record s { local = l })
    | raised e l ↦ raised e (record s { local = l })
  ]

module _ {W : Type 0} where
  -- `ack_message` of the consumer, `basic_ack` of the channel
  abbrev pub ack : Option ℕ → Exec (Site W) (Unit {0})
  ack tag s = ok tt (record s { acked = s.acked ++ tag ∷ [] })

  abbrev pub publish : DownloadMessage → Exec (Site W) (Unit {0})
  publish m s = ok tt (record s { published = s.published ++ m ∷ [] })

-- `try: a = m; except …: handler(); return`, and then what follows.
abbrev pub try_then {ℓ} :
    {S : Type ℓ} {A : Type 0}
    → (Exc → Bool)
    → Exec S A
    → Exec S (Unit {0})
    → (A → Exec S (Unit {0}))
    → Exec S (Unit {0})
try_then caught m handler rest s = elim (m s) [
  | ok a s' ↦ rest a s'
  | raised e s' ↦ elim (caught e) [ true ↦ handler s' | false ↦ raised e s' ]
]

-- The first lines of a callback.
abbrev pub begin_message : ℕ → Exec (Site Worker) (Unit {0})
begin_message tag s = ok tt (record s {
  worker = record s.worker { current_message_delivery_tag = some tag; has_consumed_message = true };
})

-- The last lines of a callback.
abbrev pub end_message : ℕ → Exec (Site Worker) (Unit {0})
end_message tag = do
  modify (λ s. record s { worker = record s.worker { has_consumed_message = false } })
  ack (some tag)

-- `_handle_msg_failure` of the status worker and of the download worker.
unfoldable pub handle_msg_failure : Bool → Exec (Site Worker) (Unit {0})
handle_msg_failure true s =
    let t = record s { worker = record s.worker { has_consumed_message = false } } in
    ack t.worker.current_message_delivery_tag t
handle_msg_failure false s =
    let t = record s { worker = record s.worker { has_consumed_message = false } } in
    (do
      ack t.worker.current_message_delivery_tag
      modify (λ u. record u {
        worker = record u.worker {
          current_message_delivery_tag = none;
          current_message_job_id = none;
        };
      }))
      t

-- `signal_handler`, up to the exit of the process.
unfoldable pub signal_handler : Exec (Site Worker) (Unit {0})
unfolding handle_msg_failure
signal_handler s = if s.worker.has_consumed_message then handle_msg_failure true s else ok tt s
