-- ===== src/Server/Resources.antt =====
-- src/server/operandi_server/routers: the look-ups of workflow_utils.py and workspace_utils.py.
use operandi.Common.{
  String, Option, none, some, List, [], ◌∷◌, Bool, false, not, ◌&&◌, ◌==◌, string_eq, if◌then◌else◌,
  Exec, ok, raised, raise, done, lift, pure, ◌>>=◌, http_exception, Text, text_eq, codes, contains,
  select,
}
use operandi.Constants.{StateWorkspace, state_workspace_eq}
use operandi.Constants.Job.{state_job_eq}
use operandi.Database.Models.{DbWorkflow, DbWorkflowJob, DbWorkspace}
use operandi.Database.Workflow.{db_get_workflow}
use operandi.Database.WorkflowJob.{db_get_workflow_job}
use operandi.Database.Workspace.{db_get_workspace}
use operandi.Server.State.{Server, Outside, on_db, or_http, publish}

-- A test of the local files is never met: the code asks whether the method `Path(…).exists` is
-- there, and does not call it. So the flag for it has no effect, and has no parameter here.
unfoldable pub get_db_workflow_with_handling : String → Bool → Exec Server DbWorkflow
get_db_workflow_with_handling workflow_id check_deleted = do
  wf ← or_http 404 (on_db (db_get_workflow workflow_id))
  if check_deleted && wf.deleted then lift (raise (http_exception 410)) else pure wf

unfoldable pub get_db_workflow_job_with_handling : String → Exec Server DbWorkflowJob
get_db_workflow_job_with_handling job_id = or_http 404 (on_db (db_get_workflow_job (some job_id)))

unfoldable pub get_db_workspace_with_handling : String → Bool → Bool → Exec Server DbWorkspace
get_db_workspace_with_handling workspace_id check_ready check_deleted = do
  ws ← or_http 404 (on_db (db_get_workspace (some workspace_id)))
  if check_deleted && ws.deleted
      then lift (raise (http_exception 410))
      else if check_ready && not (ws.state == StateWorkspace.ready)
      then lift (raise (http_exception 403))
      else pure ws

module _ (out : Outside) where
  -- The file groups of the METS file, for `extract_file_groups_from_db_model_with_handling`.
  unfoldable pub extract_file_groups_with_handling : DbWorkspace → Exec Server (List String)
  extract_file_groups_with_handling ws s =
      elim (out.mets_file_groups ws.workspace_mets_path ws.mets_basename) [
        | done groups ↦ ok groups s
        | raise e ↦ raised (http_exception 500) s
      ]

  unfoldable pub check_if_file_group_exists_with_handling :
      DbWorkspace → Option String → Exec Server Bool
  unfolding extract_file_groups_with_handling
  check_if_file_group_exists_with_handling ws none =
      extract_file_groups_with_handling ws >>= λ groups. pure false
  check_if_file_group_exists_with_handling ws (some group) =
      extract_file_groups_with_handling ws >>= λ groups. pure (contains groups group)

  unfoldable pub find_file_groups_to_remove_with_handling :
      DbWorkspace → List Text → Exec Server (List String)
  unfolding extract_file_groups_with_handling select
  find_file_groups_to_remove_with_handling ws preserved =
      extract_file_groups_with_handling ws >>= λ groups.
      pure (select (λ g. not (contains preserved (codes g))) groups)

  -- An exception of the publisher becomes the status 500.
  unfoldable pub push_status_request_to_rabbitmq : String → Exec Server (Unit {0})
  push_status_request_to_rabbitmq job_id s =
      elim (publish out ("operandi_queue_job_statuses", ("job_id", job_id) ∷ []) s) [
        | ok a t ↦ ok a t
        | raised e t ↦ raised (http_exception 500) t
      ]
