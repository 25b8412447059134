-- ===== src/Database/Workspace.antt =====
-- src/utils/operandi_utils/database/db_workspace.py
pub mod Laws
use operandi.Common.{
  ℕ, String, ◌<>◌, Bool, true, false, Option, none, some, List, [], ◌∷◌, ◌++◌, Eq, ◌==◌, string_eq,
  option_eq, find_one, save_found, select, Exec, Exc, ok, raised, Result, done, raise, lift, pure,
  modify, ◌>>=◌, ◌>>◌, runtime_error, value_error, key_error, join, if◌then◌else◌,
}
use operandi.Constants.{StateWorkspace}
use operandi.Database.Updates.{WorkspaceUpdate}
use operandi.Database.Models.{Db, DbWorkspace}
use operandi.Database.Query.{meets_query}

abbrev pub BagInfo : Type 0
BagInfo = List (String × String)

abbrev pub bag_get : String → BagInfo → Option String
bag_get k [] = none
bag_get k ((j, v) ∷ d) = if k == j then some v else bag_get k d

-- What `bag_info.pop(k)` leaves.
abbrev pub bag_without : String → BagInfo → BagInfo
bag_without k [] = []
bag_without k ((j, v) ∷ d) = let rest = bag_without k d in if k == j then rest else (j, v) ∷ rest

abbrev bag_pop : String → BagInfo → Result (String × BagInfo)
bag_pop k d = elim (bag_get k d) [ none ↦ raise key_error | some v ↦ done (v, bag_without k d) ]

-- What `db_create_workspace` reads of the bag: the base name of the METS file, the two identifiers,
-- the checksum, and the entries that are left.
pub record BagFields : Type 0 where
  pub mets_basename : String
  pub ocrd_identifier : String
  pub bagit_profile_identifier : String
  pub ocrd_base_version_checksum : Option String
  pub bag_info_adds : BagInfo

abbrev after_mets : String → String → String → BagInfo → BagFields
after_mets mets_basename ocrd bagit d = record {
  mets_basename = mets_basename;
  ocrd_identifier = ocrd;
  bagit_profile_identifier = bagit;
  ocrd_base_version_checksum = bag_get "Ocrd-Base-Version-Checksum" d;
  bag_info_adds = bag_without "Ocrd-Base-Version-Checksum" d;
}

abbrev read_mets : String → String → String → BagInfo → BagFields
read_mets default ocrd bagit d = elim (bag_get "Ocrd-Mets" d) [
  | none ↦ after_mets default ocrd bagit d
  | some mets ↦ after_mets mets ocrd bagit (bag_without "Ocrd-Mets" d)
]

abbrev read_bagit : String → String → BagInfo → Result BagFields
read_bagit default ocrd d = elim (bag_pop "BagIt-Profile-Identifier" d) [
  | raise e ↦ raise e
  | done (bagit, rest) ↦ done (read_mets default ocrd bagit rest)
]

unfoldable pub read_bag_info : String → BagInfo → Result BagFields
read_bag_info default d = elim (bag_pop "Ocrd-Identifier" d) [
  | raise e ↦ raise e
  | done (ocrd, rest) ↦ read_bagit default ocrd rest
]

abbrev pub is_workspace : Option String → DbWorkspace → Bool
is_workspace id d = some d.workspace_id == id

unfoldable pub db_get_workspace : Option String → Exec Db DbWorkspace
db_get_workspace workspace_id db = elim (find_one (is_workspace workspace_id) db.workspaces) [
  | none ↦ raised runtime_error db
  | some ws ↦ ok ws db
]

abbrev new_workspace :
    ℕ
    → String
    → String
    → String
    → ℕ
    → List String
    → BagFields
    → StateWorkspace
    → String
    → DbWorkspace
new_workspace now user id dir pages groups bag st details = record {
  user_id = user;
  workspace_id = id;
  workspace_dir = dir;
  workspace_mets_path = join dir bag.mets_basename;
  pages_amount = pages;
  file_groups = groups;
  state = st;
  ocrd_identifier = some bag.ocrd_identifier;
  bagit_profile_identifier = some bag.bagit_profile_identifier;
  ocrd_base_version_checksum = bag.ocrd_base_version_checksum;
  mets_basename = some bag.mets_basename;
  bag_info_adds = bag.bag_info_adds;
  deleted = false;
  datetime = some now;
  details = some details;
}

-- An entry that is there keeps its `state`, its `deleted` flag and its date.
abbrev overwritten_workspace :
    DbWorkspace → String → String → ℕ → List String → BagFields → String → DbWorkspace
overwritten_workspace ws user dir pages groups bag details = record ws {
  user_id = user;
  workspace_dir = dir;
  workspace_mets_path = join dir bag.mets_basename;
  mets_basename = some bag.mets_basename;
  pages_amount = pages;
  file_groups = groups;
  ocrd_identifier = some bag.ocrd_identifier;
  bagit_profile_identifier = some bag.bagit_profile_identifier;
  ocrd_base_version_checksum = bag.ocrd_base_version_checksum;
  bag_info_adds = bag.bag_info_adds;
  details = some details;
}

abbrev put_workspace :
    ℕ
    → String
    → String
    → String
    → ℕ
    → List String
    → BagFields
    → StateWorkspace
    → String
    → Exec Db DbWorkspace
put_workspace now user id dir pages groups bag st details db =
    elim (find_one (is_workspace (some id)) db.workspaces) [
      | none ↦
          let ws = new_workspace now user id dir pages groups bag st details in
          ok ws (record db { workspaces = db.workspaces ++ ws ∷ [] })
      | some old ↦
          let ws = overwritten_workspace old user dir pages groups bag details in
          ok ws (record db { workspaces = save_found (is_workspace (some id)) ws db.workspaces })
    ]

unfoldable pub db_create_workspace :
    ℕ
    → String
    → String
    → String
    → ℕ
    → List String
    → BagInfo
    → StateWorkspace
    → String
    → String
    → Exec Db DbWorkspace
unfolding read_bag_info
db_create_workspace now user id dir pages groups bag_info st default_mets_basename details = do
  bag ← lift (read_bag_info default_mets_basename bag_info)
  put_workspace now user id dir pages groups bag st details

unfoldable pub db_get_all_workspaces_by_user :
    String → Option ℕ → Option ℕ → Bool → Exec Db (List DbWorkspace)
unfolding select meets_query
db_get_all_workspaces_by_user user_id start_date end_date hide_deleted db =
    ok
      (select
        (λ d. meets_query user_id start_date end_date hide_deleted d.user_id d.datetime d.deleted)
        db.workspaces)
      db

-- `assign_ocrd_mets` is the exception that the document raises on the assignment
-- `db_workspace.ocrd_mets = value`: pydantic refuses an attribute that is no field of the model.
module _ (assign_ocrd_mets : Exc) where
  abbrev pub set_field : WorkspaceUpdate → DbWorkspace → Result DbWorkspace
  set_field (WorkspaceUpdate.workspace_id v) d = done (record d { workspace_id = v })
  set_field (WorkspaceUpdate.workspace_dir v) d = done (record d { workspace_dir = v })
  set_field (WorkspaceUpdate.workspace_mets_path v) d = done (record d { workspace_mets_path = v })
  set_field (WorkspaceUpdate.pages_amount v) d = done (record d { pages_amount = v })
  set_field (WorkspaceUpdate.file_groups v) d = done (record d { file_groups = v })
  set_field (WorkspaceUpdate.state v) d = done (record d { state = v })
  set_field (WorkspaceUpdate.ocrd_identifier v) d = done (record d { ocrd_identifier = v })
  set_field (WorkspaceUpdate.bagit_profile_identifier v) d =
      done (record d { bagit_profile_identifier = v })
  set_field (WorkspaceUpdate.ocrd_base_version_checksum v) d =
      done (record d { ocrd_base_version_checksum = v })
  set_field (WorkspaceUpdate.mets_basename v) d = raise assign_ocrd_mets
  set_field (WorkspaceUpdate.bag_info_adds v) d = done (record d { bag_info_adds = v })
  set_field (WorkspaceUpdate.deleted v) d = done (record d { deleted = v })
  set_field (WorkspaceUpdate.details v) d = done (record d { details = v })
  set_field (WorkspaceUpdate.not_available key) d = raise value_error
  set_field (WorkspaceUpdate.not_updatable key) d = raise value_error

  unfoldable pub set_workspace_fields : List WorkspaceUpdate → DbWorkspace → Result DbWorkspace
  set_workspace_fields [] d = done d
  set_workspace_fields (u ∷ us) d = elim (set_field u d) [
    | done d' ↦ set_workspace_fields us d'
    | raise e ↦ raise e
  ]

  unfoldable pub db_update_workspace : Option String → List WorkspaceUpdate → Exec Db DbWorkspace
  unfolding db_get_workspace set_workspace_fields
  db_update_workspace find_workspace_id kwargs = do
    ws ← db_get_workspace find_workspace_id
    ws' ← lift (set_workspace_fields kwargs ws)
    modify (λ db. record db {
      workspaces = save_found (is_workspace find_workspace_id) ws' db.workspaces;
    })
    pure ws'

  abbrev pub sync_db_update_workspace : Option String → List WorkspaceUpdate → Exec Db DbWorkspace
  sync_db_update_workspace = db_update_workspace

-- The wrapper passes its `details` on by position, where they become the base name of the METS
-- file; the details are the default.
abbrev pub sync_db_create_workspace :
    ℕ
    → String
    → String
    → String
    → ℕ
    → List String
    → BagInfo
    → StateWorkspace
    → String
    → Exec Db DbWorkspace
sync_db_create_workspace now user id dir pages groups bag_info st details =
    db_create_workspace now user id dir pages groups bag_info st details "Workspace"

abbrev pub sync_db_get_workspace : Option String → Exec Db DbWorkspace
sync_db_get_workspace = db_get_workspace

abbrev pub sync_db_get_all_workspaces_by_user :
    String → Option ℕ → Option ℕ → Bool → Exec Db (List DbWorkspace)
sync_db_get_all_workspaces_by_user = db_get_all_workspaces_by_user
