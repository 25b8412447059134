-- ===== src/Database/Workspace/Laws.antt =====
-- What the operations on workspaces leave in the database.
use operandi.Common.{
  ℕ, ◌≡◌, String, Option, none, some, List, [], ◌∷◌, arith, ◌==◌, option_eq, string_eq,
  if◌then◌else◌, find_one, save_found, find_one-save_found_key, key-find_one, ok, raised,
  runtime_error, Exc, raise, false, state_of, is_ok, Outcome, Option-cases, Result-cases, inl, inr,
  refl, ◌++◌, ap,
}
use operandi.Constants.{StateWorkspace}
use operandi.Database.Updates.{WorkspaceUpdate}
use operandi.Database.Models.{Db, DbWorkspace}
use operandi.Database.Workspace.{
  is_workspace, BagInfo, db_get_workspace, db_create_workspace, db_update_workspace,
  set_workspace_fields, set_field, read_bag_info,
}

-- The workspace that the database has under an id.
abbrev pub workspace_at : Option String → Db → Option DbWorkspace
workspace_at id db = find_one (is_workspace id) db.workspaces

abbrev pub with_workspace : Option String → DbWorkspace → Db → Db
with_workspace id ws db = record db { workspaces = save_found (is_workspace id) ws db.workspaces }

pub id-workspace_at :
    (id : Option String) (db : Db) {ws : DbWorkspace}
    → workspace_at id db ≡ some ws
    → some ws.workspace_id ≡ id
id-workspace_at id db {ws} h = key-find_one (λ d. some d.workspace_id) id db.workspaces ws h

pub workspace_at-with_workspace :
    (id k : Option String) (ws' : DbWorkspace) (db : Db) (ws : DbWorkspace)
    → workspace_at id db ≡ some ws
    → some ws'.workspace_id ≡ id
    → workspace_at k (with_workspace id ws' db) ≡ (if k == id then some ws' else workspace_at k db)
workspace_at-with_workspace id k ws' db ws h e =
    find_one-save_found_key (λ d. some d.workspace_id) id k ws' db.workspaces ws h e

module _ (assign : Exc) where
  pub update_workspace_state :
      (id : Option String) (s : StateWorkspace) (db : Db) {ws : DbWorkspace}
      → workspace_at id db ≡ some ws
      → db_update_workspace assign id (WorkspaceUpdate.state s ∷ []) db
        ≡ ok (record ws { state = s }) (with_workspace id (record ws { state = s }) db)
  unfolding db_update_workspace
  update_workspace_state id s db h = ground arith

  pub update_workspace_state_groups :
      (id : Option String) (s : StateWorkspace) (groups : List String) (db : Db) {ws : DbWorkspace}
      → workspace_at id db ≡ some ws
      → db_update_workspace assign id
          (WorkspaceUpdate.state s ∷ WorkspaceUpdate.file_groups groups ∷ [])
          db
        ≡ ok
            (record ws { state = s; file_groups = groups })
            (with_workspace id (record ws { state = s; file_groups = groups }) db)
  unfolding db_update_workspace
  update_workspace_state_groups id s groups db h = ground arith

  pub update_missing_workspace :
      (id : Option String) (us : List WorkspaceUpdate) (db : Db)
      → workspace_at id db ≡ none
      → db_update_workspace assign id us db ≡ raised runtime_error db
  unfolding db_update_workspace
  update_missing_workspace id us db h = ground arith

  -- An update that raises has saved nothing, whichever of its keyword arguments were already set on
  -- the document in memory.
  pub update_workspace_atomic :
      (id : Option String) (us : List WorkspaceUpdate) (db db' : Db) (e : Exc)
      → db_update_workspace assign id us db ≡ raised e db'
      → db' ≡ db
  unfolding db_update_workspace
  update_workspace_atomic id us db db' e h = ground arith

  set_mets_basename :
      (before after : List WorkspaceUpdate) (v : Option String) (ws : DbWorkspace)
      → (e : Exc) × (set_workspace_fields assign
            (before ++ WorkspaceUpdate.mets_basename v ∷ after)
            ws
          ≡ raise e)
  unfolding set_workspace_fields
  set_mets_basename [] after v ws = (assign, refl)
  set_mets_basename (u ∷ before) after v ws = elim (Result-cases (set_field assign u ws)) [
    | inl (e, stops) ↦ (e, ground arith)
    | inr (ws', goes_on) ↦
        let (e, raises) = set_mets_basename before after v ws' in (e, ground arith)
  ]

  -- An update that sets `mets_basename` never succeeds and changes nothing, whatever else it sets
  -- before and after: the document refuses the attribute `ocrd_mets`, and none of the other changes
  -- is saved.
  pub update_mets_basename_refused :
      (id v : Option String) (before after : List WorkspaceUpdate) (db : Db)
      → (is_ok
            (db_update_workspace assign id (before ++ WorkspaceUpdate.mets_basename v ∷ after) db)
          ≡ false)
        × (state_of
              (db_update_workspace assign id (before ++ WorkspaceUpdate.mets_basename v ∷ after) db)
            ≡ db)
  unfolding db_update_workspace
  update_mets_basename_refused id v before after db = elim (Option-cases (workspace_at id db)) [
    | inl missing ↦ ground arith
    | inr (ws, found) ↦ let (e, raises) = set_mets_basename before after v ws in ground arith
  ]

-- What a database that has the entry `old` makes of the workspace `fresh`.
abbrev pub kept_from : DbWorkspace → DbWorkspace → DbWorkspace
kept_from old fresh = record fresh {
  state = old.state;
  deleted = old.deleted;
  datetime = old.datetime;
}

module _ (now : ℕ) (user id dir : String) (pages : ℕ) (groups : List String) (bag_info : BagInfo)
    (st : StateWorkspace) (mets details : String) where
  abbrev created : Db → Outcome Db DbWorkspace
  created db = db_create_workspace now user id dir pages groups bag_info st mets details db

  -- Creating a workspace under an id that is there gives the workspace that the same call creates
  -- where the id is not there, but for the state, the deleted flag and the date, which stay those
  -- of the entry. The database then has it under the id, and what it had under every other id.
  pub create_existing_workspace :
      (old fresh : DbWorkspace) (db without without' : Db)
      → workspace_at (some id) db ≡ some old
      → workspace_at (some id) without ≡ none
      → created without ≡ ok fresh without'
      → (created db ≡ ok (kept_from old fresh) (state_of (created db)))
        × ((k : Option String)
            → workspace_at k (state_of (created db))
              ≡ (if k == some id then some (kept_from old fresh) else workspace_at k db))
  unfolding db_create_workspace
  create_existing_workspace old fresh db without without' found missing new =
      let same : some old.workspace_id ≡ some id = id-workspace_at (some id) db found in
      let overwritten : created db
          ≡ ok (kept_from old fresh) (with_workspace (some id) (kept_from old fresh) db) =
        elim (Result-cases (read_bag_info mets bag_info)) [
          | inl (e, stops) ↦ ground arith
          | inr (bag, read) ↦ ground arith
        ] in
      let named : fresh.workspace_id ≡ id = elim (Result-cases (read_bag_info mets bag_info)) [
        | inl (e, stops) ↦ ground arith
        | inr (bag, read) ↦ ground arith
      ] in
      rw overwritten (
        refl,
        λ k.
            workspace_at-with_workspace (some id) k (kept_from old fresh) db old found
              (ap some named),
      )

pub get_workspace :
    (id : Option String) (db : Db) (ws : DbWorkspace)
    → workspace_at id db ≡ some ws
    → db_get_workspace id db ≡ ok ws db
unfolding db_get_workspace
get_workspace id db ws h = ground arith

pub get_missing_workspace :
    (id : Option String) (db : Db)
    → workspace_at id db ≡ none
    → db_get_workspace id db ≡ raised runtime_error db
unfolding db_get_workspace
get_missing_workspace id db h = ground arith
