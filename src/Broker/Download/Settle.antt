-- ===== src/Broker/Download/Settle.antt =====
-- The documents after the last updates of the download worker.
use operandi.Common.{
  ◌≡◌, String, Option, some, List, [], ◌∷◌, ◌++◌, arith, option_eq, string_eq, ok,
}
use operandi.Constants.Job.{StateJob}
use operandi.Database.Updates.{WorkspaceUpdate}
use operandi.Database.Models.{Db, DbWorkspace}
use operandi.Database.ModelsStats.{DbPageStat, StatType, page_stat_type_to_model}
use operandi.Database.ProcessingStats.{db_create_page_stat, page_stat_of}
use operandi.Database.WorkflowJob.Laws.{job_at, with_job, update_job_state}
use operandi.Database.Workspace.{db_update_workspace}
use operandi.Database.Workspace.Laws.{with_workspace}
use operandi.Broker.Worker.{Env}
use operandi.Broker.Download.{Documents, page_stat_args, settle_documents}

module _ (env : Env) (d : Documents) (id : Option String) (stat_type : String) (model : StatType)
    (new : StateJob) where
  abbrev pub stat_made : DbPageStat
  stat_made = page_stat_of env.now (page_stat_args stat_type d) model

  abbrev pub settled_db : DbWorkspace → Db → Db
  settled_db ws db =
      with_job id (record d.workflow_job { job_state = new })
        (record (with_workspace (some d.workflow_job.workspace_id) ws db) {
          page_stats = db.page_stats ++ stat_made ∷ [];
        })

  pub settle_documents_lem :
      (us : List WorkspaceUpdate) (ws : DbWorkspace) (db : Db)
      → page_stat_type_to_model stat_type ≡ some model
      → db_update_workspace env.assign_ocrd_mets (some d.workflow_job.workspace_id) us db
        ≡ ok ws (with_workspace (some d.workflow_job.workspace_id) ws db)
      → job_at id db ≡ some d.workflow_job
      → settle_documents env d us stat_type new id db ≡ ok tt (settled_db ws db)
  unfolding settle_documents db_create_page_stat
  settle_documents_lem us ws db is_model updated found =
      let db₁ = with_workspace (some d.workflow_job.workspace_id) ws db in
      let db₂ : Db = record db₁ { page_stats = db.page_stats ++ stat_made ∷ [] } in
      ground (arith, updated, is_model, update_job_state id new db₂ found)
