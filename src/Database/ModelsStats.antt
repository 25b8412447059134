-- ===== src/Database/ModelsStats.antt =====
-- src/utils/operandi_utils/database/models_stats.py
use operandi.Common.{
  ℕ, String, Bool, true, false, Option, none, some, Eq, ◌==◌, string_eq, if◌then◌else◌,
}

pub record DbProcessingStatsTotal : Type 0 where
  pub institution_id : String
  pub user_id : String
  pub pages_uploaded : ℕ
  pub pages_submitted : ℕ
  pub pages_succeeded : ℕ
  pub pages_failed : ℕ
  pub pages_downloaded : ℕ
  pub pages_cancelled : ℕ

-- The six models of page stats.
pub data StatType : Type 0 where
  uploaded downloaded submitted succeeded failed cancelled : StatType

stat_type_dec : Discrete StatType
stat_type_dec = hlevel

instance unfoldable pub stat_type_eq : Eq StatType
unfolding stat_type_dec
stat_type_eq = record { dec = stat_type_dec }

-- `workflow_job_id` is a field of four of the models only.
pub record DbPageStat : Type 0 where
  pub stat_type : StatType
  pub institution_id : String
  pub user_id : String
  pub datetime : ℕ
  pub workspace_id : String
  pub quantity : ℕ
  pub workflow_job_id : Option String

-- `PAGE_STAT_TYPE_TO_MODEL.get(stat_type)`
unfoldable pub page_stat_type_to_model : String → Option StatType
page_stat_type_to_model name =
    if name == "uploaded"
    then some uploaded
    else if name == "downloaded"
    then some downloaded
    else if name == "submitted"
    then some submitted
    else if name == "succeeded"
    then some succeeded
    else if name == "failed"
    then some failed
    else if name == "cancelled"
    then some cancelled
    else none

-- `"workflow_job_id" in model_class.__annotations__`
unfoldable pub has_workflow_job_id : StatType → Bool
has_workflow_job_id uploaded = false
has_workflow_job_id downloaded = false
has_workflow_job_id submitted = true
has_workflow_job_id succeeded = true
has_workflow_job_id failed = true
has_workflow_job_id cancelled = true
