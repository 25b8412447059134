-- ===== src/Database/ProcessingStats/Laws.antt =====
-- How the totals of a user follow the page stats that are created.
use operandi.Common.{
  ℕ, ◌+◌, ◌≡◌, ◌∙◌, String, Option, some, List, [], ◌∷◌, ◌++◌, arith, select, ok, if◌then◌else◌,
  Bool, ◌==◌, ◌&&◌, string_eq,
}
use operandi.Database.ModelsStats.{DbPageStat, StatType, stat_type_eq}
use operandi.Database.Query.{in_date_range}
use operandi.Database.Models.{Db}
use operandi.Database.ProcessingStats.{
  PageStatArgs, is_counted, page_stat_total, stats_of, db_create_page_stat,
}

-- The quantities added up from the other end.
abbrev pub sum_of : List DbPageStat → ℕ
sum_of [] = 0
sum_of (d ∷ ds) = d.quantity + sum_of ds

pub page_stat_total-eq-sum_of :
    (n : ℕ) (ds : List DbPageStat) → page_stat_total n ds ≡ n + sum_of ds
unfolding page_stat_total
page_stat_total-eq-sum_of n [] = omega arith
page_stat_total-eq-sum_of n (d ∷ ds) = omega (arith, page_stat_total-eq-sum_of (n + d.quantity) ds)

pub sum_of-append : (xs ys : List DbPageStat) → sum_of (xs ++ ys) ≡ sum_of xs + sum_of ys
sum_of-append [] ys = omega arith
sum_of-append (x ∷ xs) ys = omega (arith, sum_of-append xs ys)

pub sum_of-select_append :
    (p : DbPageStat → Bool) (ds : List DbPageStat) (d : DbPageStat)
    → sum_of (select p (ds ++ d ∷ [])) ≡ sum_of (select p ds) + (if p d then d.quantity else 0)
unfolding select
sum_of-select_append p [] d = ground arith
sum_of-select_append p (x ∷ ds) d = ground (arith, sum_of-select_append p ds d)

pub stats_of-eq-sum_of :
    (user : String) (from to : Option ℕ) (ds : List DbPageStat) (m : StatType)
    → stats_of user from to ds m ≡ sum_of (select (is_counted user from to m) ds)
unfolding stats_of
stats_of-eq-sum_of user from to ds m =
    page_stat_total-eq-sum_of 0 (select (is_counted user from to m) ds) ∙ omega arith

pub stats_of-append :
    (user : String) (from to : Option ℕ) (ds : List DbPageStat) (d : DbPageStat) (m : StatType)
    → stats_of user from to (ds ++ d ∷ []) m
      ≡ stats_of user from to ds m + (if is_counted user from to m d then d.quantity else 0)
stats_of-append user from to ds d m =
    simp stats_of-eq-sum_of (sum_of-select_append (is_counted user from to m) ds d)

-- After a page stat is created, the total of its own model and user has grown by its quantity if
-- its date lies in the range, and every other total is what it was.
pub stats_of-create :
    (now : ℕ) (a : PageStatArgs) (db db' : Db) (stat : DbPageStat) (user : String)
    (from to : Option ℕ) (m : StatType)
    → db_create_page_stat now a db ≡ ok stat db'
    → stats_of user from to db'.page_stats m
      ≡ stats_of user from to db.page_stats m
        + (if stat.stat_type == m && stat.user_id == user && in_date_range from to (some now)
            then a.quantity
            else 0)
unfolding db_create_page_stat is_counted
stats_of-create now a db db' stat user from to m h =
    ground (arith, stats_of-append user from to db.page_stats stat m)
