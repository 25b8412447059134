-- ===== src/Server/State.antt =====
-- What the handlers of the server work on, and what they ask of the outside.
use operandi.Common.{
  Exc, ℕ, String, Option, List, [], ◌∷◌, ◌++◌, Exec, ok, raised, Result, raise, done,
  http_exception, is_runtime_error, true, false,
}
use operandi.Database.Models.{Db}

-- A queue and the fields of a message.
abbrev pub Message : Type 0
Message = String × List (String × String)

-- The database, the messages published so far, and the directories that are there.
pub record Server : Type 0 where
  pub db : Db
  pub published : List Message
  pub dirs : List String

pub record Outside : Type 0 where
  pub now : ℕ
  -- what a document raises on the assignment of `ocrd_mets`
  pub assign_ocrd_mets : Exc
  -- what `generate_id` returns
  pub new_id : String
  -- `sha512(…).hexdigest()`
  pub sha512 : String → String
  -- what `get_random_salt` returns
  pub salt : String
  pub mets_file_groups : String → Option String → Result (List String)
  pub publish_to_queue : Result (Unit {0})
  pub workflow_jobs_dir : String

module _ {A : Type 0} where
  abbrev pub on_db : Exec Db A → Exec Server A
  on_db m s = elim (m s.db) [
    | ok a db ↦ ok a (record s { db = db })
    | raised e db ↦ raised e (record s { db = db })
  ]

  -- `except RuntimeError: raise HTTPException(status)`
  abbrev pub or_http : ℕ → Exec Server A → Exec Server A
  or_http status m s = elim (m s) [
    | ok a t ↦ ok a t
    | raised e t ↦ elim (is_runtime_error e) [
      | true ↦ raised (http_exception status) t
      | false ↦ raised e t
    ]
  ]

abbrev pub publish : Outside → Message → Exec Server (Unit {0})
publish out message s = elim out.publish_to_queue [
  | done _ ↦ ok tt (record s { published = s.published ++ message ∷ [] })
  | raise e ↦ raised e s
]
