-- ===== src/Database/Workflow.antt =====
-- src/utils/operandi_utils/database/db_workflow.py
use operandi.Common.{
  ℕ, String, Bool, false, Option, none, some, List, [], ◌∷◌, ◌++◌, ◌==◌, string_eq, find_one,
  save_found, select, Exec, ok, raised, Result, done, raise, lift, pure, modify, ◌>>=◌, ◌>>◌,
  runtime_error, value_error,
}
use operandi.Database.Updates.{WorkflowUpdate}
use operandi.Database.Models.{Db, DbWorkflow}
use operandi.Database.Query.{meets_query}

abbrev pub is_workflow : String → DbWorkflow → Bool
is_workflow id d = d.workflow_id == id

-- What the caller of `db_create_workflow` gives, by the names of the parameters.
pub record WorkflowArgs : Type 0 where
  pub user_id : String
  pub workflow_id : String
  pub workflow_dir : String
  pub workflow_script_base : String
  pub workflow_script_path : String
  pub uses_mets_server : Bool
  pub executable_steps : List String
  pub producible_file_groups : List String
  pub details : String

unfoldable pub db_get_workflow : String → Exec Db DbWorkflow
db_get_workflow workflow_id db = elim (find_one (is_workflow workflow_id) db.workflows) [
  | none ↦ raised runtime_error db
  | some wf ↦ ok wf db
]

abbrev new_workflow : ℕ → WorkflowArgs → DbWorkflow
new_workflow now a = record {
  user_id = a.user_id;
  workflow_id = a.workflow_id;
  workflow_dir = a.workflow_dir;
  workflow_script_base = a.workflow_script_base;
  workflow_script_path = a.workflow_script_path;
  uses_mets_server = a.uses_mets_server;
  executable_steps = a.executable_steps;
  producible_file_groups = a.producible_file_groups;
  deleted = false;
  datetime = some now;
  details = some a.details;
}

abbrev overwritten_workflow : DbWorkflow → WorkflowArgs → DbWorkflow
overwritten_workflow wf a = record wf {
  user_id = a.user_id;
  workflow_id = a.workflow_id;
  workflow_dir = a.workflow_dir;
  workflow_script_base = a.workflow_script_base;
  workflow_script_path = a.workflow_script_path;
  uses_mets_server = a.uses_mets_server;
  executable_steps = a.executable_steps;
  producible_file_groups = a.producible_file_groups;
  details = some a.details;
}

unfoldable pub db_create_workflow : ℕ → WorkflowArgs → Exec Db DbWorkflow
db_create_workflow now a db = elim (find_one (is_workflow a.workflow_id) db.workflows) [
  | none ↦ let wf = new_workflow now a in ok wf (record db { workflows = db.workflows ++ wf ∷ [] })
  | some old ↦
      let wf = overwritten_workflow old a in
      ok wf (record db { workflows = save_found (is_workflow a.workflow_id) wf db.workflows })
]

unfoldable pub db_get_all_workflows_by_user :
    String → Option ℕ → Option ℕ → Bool → Exec Db (List DbWorkflow)
unfolding select meets_query
db_get_all_workflows_by_user user_id start_date end_date hide_deleted db =
    ok
      (select
        (λ d. meets_query user_id start_date end_date hide_deleted d.user_id d.datetime d.deleted)
        db.workflows)
      db

abbrev set_field : WorkflowUpdate → DbWorkflow → Result DbWorkflow
set_field (WorkflowUpdate.workflow_id v) d = done (record d { workflow_id = v })
set_field (WorkflowUpdate.workflow_dir v) d = done (record d { workflow_dir = v })
set_field (WorkflowUpdate.workflow_script_base v) d = done (record d { workflow_script_base = v })
set_field (WorkflowUpdate.workflow_script_path v) d = done (record d { workflow_script_path = v })
set_field (WorkflowUpdate.uses_mets_server v) d = done (record d { uses_mets_server = v })
set_field (WorkflowUpdate.executable_steps v) d = done (record d { executable_steps = v })
set_field (WorkflowUpdate.producible_file_groups v) d =
    done (record d { producible_file_groups = v })
set_field (WorkflowUpdate.deleted v) d = done (record d { deleted = v })
set_field (WorkflowUpdate.details v) d = done (record d { details = v })
set_field (WorkflowUpdate.not_available key) d = raise value_error
set_field (WorkflowUpdate.not_updatable key) d = raise value_error

unfoldable pub set_workflow_fields : List WorkflowUpdate → DbWorkflow → Result DbWorkflow
set_workflow_fields [] d = done d
set_workflow_fields (u ∷ us) d = elim (set_field u d) [
  | done d' ↦ set_workflow_fields us d'
  | raise e ↦ raise e
]

unfoldable pub db_update_workflow : String → List WorkflowUpdate → Exec Db DbWorkflow
unfolding db_get_workflow set_workflow_fields
db_update_workflow find_workflow_id kwargs = do
  wf ← db_get_workflow find_workflow_id
  wf' ← lift (set_workflow_fields kwargs wf)
  modify
      (λ db. record db { workflows = save_found (is_workflow find_workflow_id) wf' db.workflows })
  pure wf'

abbrev pub sync_db_create_workflow : ℕ → WorkflowArgs → Exec Db DbWorkflow
sync_db_create_workflow = db_create_workflow

abbrev pub sync_db_get_workflow : String → Exec Db DbWorkflow
sync_db_get_workflow = db_get_workflow

abbrev pub sync_db_update_workflow : String → List WorkflowUpdate → Exec Db DbWorkflow
sync_db_update_workflow = db_update_workflow

abbrev pub sync_db_get_all_workflows_by_user :
    String → Option ℕ → Option ℕ → Bool → Exec Db (List DbWorkflow)
sync_db_get_all_workflows_by_user = db_get_all_workflows_by_user
