-- ===== src/Database/ProcessingStats.antt =====
-- src/utils/operandi_utils/database/db_processing_stats.py
pub mod Laws
use operandi.Common.{
  ℕ, ◌+◌, String, Bool, true, false, ◌&&◌, Option, none, some, List, [], ◌∷◌, ◌++◌, Eq, ◌==◌,
  string_eq, find_one, save_found, select, Exec, ok, raised, pure, modify, throw, gets, ◌>>=◌, ◌>>◌,
  runtime_error, if◌then◌else◌,
}
use operandi.Database.ModelsStats.{
  DbPageStat, DbProcessingStatsTotal, StatType, stat_type_eq, uploaded, submitted, succeeded,
  failed, downloaded, cancelled, page_stat_type_to_model, has_workflow_job_id,
}
use operandi.Database.Models.{Db}
use operandi.Database.Query.{in_date_range}

-- What the caller of `db_create_page_stat` gives.
pub record PageStatArgs : Type 0 where
  pub stat_type : String
  pub quantity : ℕ
  pub institution_id : String
  pub user_id : String
  pub workspace_id : String
  pub workflow_job_id : Option String

abbrev pub page_stat_of : ℕ → PageStatArgs → StatType → DbPageStat
page_stat_of now a model = record {
  stat_type = model;
  institution_id = a.institution_id;
  user_id = a.user_id;
  datetime = now;
  workspace_id = a.workspace_id;
  quantity = a.quantity;
  workflow_job_id = if has_workflow_job_id model then a.workflow_job_id else none;
}

unfoldable pub db_create_page_stat : ℕ → PageStatArgs → Exec Db DbPageStat
unfolding has_workflow_job_id
db_create_page_stat now a db = elim (page_stat_type_to_model a.stat_type) [
  | none ↦ raised runtime_error db
  | some model ↦
      let stat = page_stat_of now a model in
      ok stat (record db { page_stats = db.page_stats ++ stat ∷ [] })
]

abbrev pub sync_db_create_page_stat : ℕ → PageStatArgs → Exec Db DbPageStat
sync_db_create_page_stat = db_create_page_stat

abbrev pub is_total_of : String → DbProcessingStatsTotal → Bool
is_total_of user d = d.user_id == user

abbrev pub is_total_in : String → String → DbProcessingStatsTotal → Bool
is_total_in institution user d = (d.institution_id == institution) && (d.user_id == user)

unfoldable pub db_create_processing_stats : String → String → Exec Db DbProcessingStatsTotal
db_create_processing_stats institution user db =
    elim (find_one (is_total_in institution user) db.processing_stats_total) [
      | some _ ↦ raised runtime_error db
      | none ↦
          let total : DbProcessingStatsTotal = record {
            institution_id = institution;
            user_id = user;
            pages_uploaded = 0;
            pages_submitted = 0;
            pages_succeeded = 0;
            pages_failed = 0;
            pages_downloaded = 0;
            pages_cancelled = 0;
          } in
          ok total (record db { processing_stats_total = db.processing_stats_total ++ total ∷ [] })
    ]

-- `find_many(query)` in the collection of one model.
unfoldable pub is_counted : String → Option ℕ → Option ℕ → StatType → DbPageStat → Bool
unfolding in_date_range
is_counted user start_date end_date model d =
    d.stat_type == model && d.user_id == user && in_date_range start_date end_date (some d.datetime)

-- The loop that adds the quantities up.
unfoldable pub page_stat_total : ℕ → List DbPageStat → ℕ
page_stat_total total [] = total
page_stat_total total (d ∷ ds) = page_stat_total (total + d.quantity) ds

unfoldable pub stats_of : String → Option ℕ → Option ℕ → List DbPageStat → StatType → ℕ
unfolding page_stat_total select is_counted
stats_of user start_date end_date ds model =
    page_stat_total 0 (select (is_counted user start_date end_date model) ds)

abbrev with_totals : (StatType → ℕ) → DbProcessingStatsTotal → DbProcessingStatsTotal
with_totals stats d = record d {
  pages_uploaded = stats uploaded;
  pages_submitted = stats submitted;
  pages_succeeded = stats succeeded;
  pages_failed = stats failed;
  pages_downloaded = stats downloaded;
  pages_cancelled = stats cancelled;
}

unfoldable pub db_update_processing_stats :
    String → Option ℕ → Option ℕ → Exec Db DbProcessingStatsTotal
db_update_processing_stats user start_date end_date db =
    elim (find_one (is_total_of user) db.processing_stats_total) [
      | none ↦ raised runtime_error db
      | some old ↦
          let total = with_totals (stats_of user start_date end_date db.page_stats) old in
          ok total (record db {
            processing_stats_total = save_found (is_total_of user) total db.processing_stats_total;
          })
    ]

abbrev pub db_get_processing_stats : String → Option ℕ → Option ℕ → Exec Db DbProcessingStatsTotal
db_get_processing_stats = db_update_processing_stats
