-- ===== src/Database/UserAccount.antt =====
-- src/utils/operandi_utils/database/db_user_account.py
use operandi.Common.{
  ℕ, String, Bool, false, none, some, List, [], ◌∷◌, ◌++◌, ◌==◌, string_eq, find_one, save_found,
  Exec, ok, raised, Result, done, raise, lift, pure, modify, ◌>>=◌, ◌>>◌, runtime_error,
  value_error,
}
use operandi.Constants.{AccountType}
use operandi.Database.Updates.{UserUpdate}
use operandi.Database.Models.{Db, DbUserAccount}

abbrev pub is_user : String → DbUserAccount → Bool
is_user id d = d.user_id == id

abbrev pub has_email : String → DbUserAccount → Bool
has_email email d = d.email == email

-- `new_id` is what `generate_id()` returns, a fresh UUID.
unfoldable pub db_create_user_account :
    String
    → ℕ
    → String
    → String
    → String
    → String
    → AccountType
    → Bool
    → String
    → Exec Db DbUserAccount
db_create_user_account new_id now institution_id email encrypted_pass salt account_type
      approved_user details db =
    let account : DbUserAccount = record {
      institution_id = institution_id;
      user_id = new_id;
      email = email;
      encrypted_pass = encrypted_pass;
      salt = salt;
      account_type = account_type;
      approved_user = approved_user;
      deleted = false;
      datetime = some now;
      details = some details;
    } in
    ok account (record db { user_accounts = db.user_accounts ++ account ∷ [] })

unfoldable pub db_get_all_user_accounts : Exec Db (List DbUserAccount)
db_get_all_user_accounts db = ok db.user_accounts db

unfoldable pub db_get_user_account : String → Exec Db DbUserAccount
db_get_user_account user_id db = elim (find_one (is_user user_id) db.user_accounts) [
  | none ↦ raised runtime_error db
  | some account ↦ ok account db
]

unfoldable pub db_get_user_account_with_email : String → Exec Db DbUserAccount
db_get_user_account_with_email email db = elim (find_one (has_email email) db.user_accounts) [
  | none ↦ raised runtime_error db
  | some account ↦ ok account db
]

abbrev set_field : UserUpdate → DbUserAccount → Result DbUserAccount
set_field (UserUpdate.institution_id v) d = done (record d { institution_id = v })
set_field (UserUpdate.email v) d = done (record d { email = v })
set_field (UserUpdate.encrypted_pass v) d = done (record d { encrypted_pass = v })
set_field (UserUpdate.salt v) d = done (record d { salt = v })
set_field (UserUpdate.account_type v) d = done (record d { account_type = v })
set_field (UserUpdate.approved_user v) d = done (record d { approved_user = v })
set_field (UserUpdate.deleted v) d = done (record d { deleted = v })
set_field (UserUpdate.details v) d = done (record d { details = v })
set_field (UserUpdate.not_available key) d = raise value_error
set_field (UserUpdate.not_updatable key) d = raise value_error

unfoldable pub set_user_fields : List UserUpdate → DbUserAccount → Result DbUserAccount
set_user_fields [] d = done d
set_user_fields (u ∷ us) d = elim (set_field u d) [
  | done d' ↦ set_user_fields us d'
  | raise e ↦ raise e
]

unfoldable pub db_update_user_account : String → List UserUpdate → Exec Db DbUserAccount
unfolding db_get_user_account set_user_fields
db_update_user_account user_id kwargs = do
  account ← db_get_user_account user_id
  account' ← lift (set_user_fields kwargs account)
  modify
      (λ db. record db { user_accounts = save_found (is_user user_id) account' db.user_accounts })
  pure account'

abbrev pub sync_db_create_user_account :
    String
    → ℕ
    → String
    → String
    → String
    → String
    → AccountType
    → Bool
    → String
    → Exec Db DbUserAccount
sync_db_create_user_account = db_create_user_account

abbrev pub sync_db_get_all_user_accounts : Exec Db (List DbUserAccount)
sync_db_get_all_user_accounts = db_get_all_user_accounts

abbrev pub sync_db_get_user_account : String → Exec Db DbUserAccount
sync_db_get_user_account = db_get_user_account

-- The wrapper calls `db_get_user_account`, which looks for a user id.
abbrev pub sync_db_get_user_account_with_email : String → Exec Db DbUserAccount
sync_db_get_user_account_with_email email = db_get_user_account email

abbrev pub sync_db_update_user_account : String → List UserUpdate → Exec Db DbUserAccount
sync_db_update_user_account = db_update_user_account
