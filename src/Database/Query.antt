-- ===== src/Database/Query.antt =====
-- The queries of the listing functions: the entries of a user, in a range of dates, and whether to
-- hide the deleted ones.
use operandi.Common.{
  ℕ, String, Bool, true, false, not, ◌&&◌, Option, none, some, leb, ◌==◌, string_eq, if◌then◌else◌,
}

-- `query["datetime"]["$gte"]` and `["$lte"]`. MongoDB compares no missing date with a bound.
unfoldable pub in_date_range : Option ℕ → Option ℕ → Option ℕ → Bool
in_date_range none none date = true
in_date_range (some from) none (some d) = leb from d
in_date_range none (some to) (some d) = leb d to
in_date_range (some from) (some to) (some d) = leb from d && leb d to
in_date_range _ _ none = false

unfoldable pub meets_query : String → Option ℕ → Option ℕ → Bool → String → Option ℕ → Bool → Bool
unfolding in_date_range
meets_query user_id start_date end_date hide_deleted owner date deleted =
    owner == user_id
    && in_date_range start_date end_date date
    && (if hide_deleted then not deleted else true)
