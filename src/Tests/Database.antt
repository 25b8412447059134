-- ===== src/Tests/Database.antt =====
-- Updates of a small database.
use operandi.Common.{
  Option, ◌++◌, ◌==◌, if◌then◌else◌, ok, is_ok, Outcome, state_of, value_error, false, ◌≡◌, refl,
  String, true, some, List, [], ◌∷◌, string_eq, option_eq, find_one, save_found, join,
}
use operandi.Constants.{StateWorkspace}
use operandi.Constants.Job.{StateJob}
use operandi.Database.Models.{Db, DbWorkspace}
use operandi.Database.ModelsStats.{stat_type_eq}
use operandi.Database.Updates.{WorkspaceUpdate, JobUpdate}
use operandi.Database.Workspace.{BagInfo, read_bag_info, db_create_workspace, db_update_workspace}
use operandi.Database.Workspace.Laws.{
  workspace_at, update_mets_basename_refused, create_existing_workspace, kept_from,
}
use operandi.Database.ProcessingStats.{PageStatArgs}
use operandi.Tests.Fixtures.{workspace, db}

-- One known field and one that the function does not set.
abbrev bad_update : List JobUpdate
bad_update = JobUpdate.job_state StateJob.failed ∷ JobUpdate.not_updatable "user_id" ∷ []

abbrev done_update : List JobUpdate
done_update = JobUpdate.job_state StateJob.success ∷ JobUpdate.deleted true ∷ []

update_mets_basename_refused_example :
    (is_ok (
        db_update_workspace value_error
          (some "ws1")
          ((WorkspaceUpdate.state StateWorkspace.ready ∷ [])
            ++ WorkspaceUpdate.mets_basename (some "data/mets.xml") ∷ [])
          db)
      ≡ false)
    × (state_of (
          db_update_workspace value_error
            (some "ws1")
            ((WorkspaceUpdate.state StateWorkspace.ready ∷ [])
              ++ WorkspaceUpdate.mets_basename (some "data/mets.xml") ∷ [])
            db)
        ≡ db)
update_mets_basename_refused_example =
    update_mets_basename_refused value_error (some "ws1") (some "data/mets.xml")
      (WorkspaceUpdate.state StateWorkspace.ready ∷ []) [] db

abbrev bag_info : BagInfo
bag_info =
    ("Ocrd-Identifier", "id") ∷ ("BagIt-Profile-Identifier", "profile") ∷ ("Source", "s") ∷ []

-- What the bag leads to under the id `id`.
abbrev made_of : String → DbWorkspace → DbWorkspace
made_of dir ws = record ws {
  workspace_dir = dir;
  workspace_mets_path = join dir "mets.xml";
  pages_amount = 5;
  ocrd_identifier = some "id";
  bagit_profile_identifier = some "profile";
  bag_info_adds = ("Source", "s") ∷ [];
  details = some "d";
}

abbrev new_workspace : DbWorkspace
new_workspace = record (made_of "/ws/ws2" workspace) {
  workspace_id = "ws2";
  state = StateWorkspace.ready;
  datetime = some 3;
}

-- The entry of a workspace that was deleted.
abbrev deleted_workspace : DbWorkspace
deleted_workspace = record workspace { deleted = true }

abbrev deleted_db : Db
deleted_db = record db { workspaces = deleted_workspace ∷ [] }

-- What the bag leads to where nothing has the id `ws1`.
abbrev fresh_workspace : DbWorkspace
fresh_workspace = record (made_of "/ws/ws1" workspace) {
  state = StateWorkspace.ready;
  datetime = some 3;
}

abbrev empty_db : Db
empty_db = record db { workspaces = [] }

abbrev created_in : Db → Outcome Db DbWorkspace
created_in =
    db_create_workspace 3 "u1" "ws1" "/ws/ws1" 5 ("IN" ∷ []) bag_info StateWorkspace.ready
      "mets.xml" "d"

create_existing_workspace_example :
    (created_in deleted_db
      ≡ ok (kept_from deleted_workspace fresh_workspace) (state_of (created_in deleted_db)))
    × ((k : Option String)
        → workspace_at k (state_of (created_in deleted_db)) ≡ (
            if k == some "ws1"
            then some (kept_from deleted_workspace fresh_workspace)
            else workspace_at k deleted_db))
unfolding db_create_workspace read_bag_info find_one save_found string_eq option_eq
create_existing_workspace_example =
    create_existing_workspace 3 "u1" "ws1" "/ws/ws1" 5 ("IN" ∷ []) bag_info StateWorkspace.ready
      "mets.xml" "d" deleted_workspace fresh_workspace deleted_db empty_db
      (record db { workspaces = fresh_workspace ∷ [] }) refl refl refl

abbrev stat_args : PageStatArgs
stat_args = record {
  stat_type = "failed";
  quantity = 4;
  institution_id = "goe";
  user_id = "u1";
  workspace_id = "ws1";
  workflow_job_id = some "j1";
}
