-- ===== src/Server/Users.antt =====
-- src/server/operandi_server/routers: user_utils.py and password_utils.py
pub mod Accounts
use operandi.Common.{
  ℕ, String, ◌<>◌, Option, none, some, List, [], ◌∷◌, ◌++◌, Bool, true, false, not, ◌&&◌, ◌==◌,
  string_eq, if◌then◌else◌, Exec, Outcome, ok, raised, Result, raise, done, lift, pure, ◌>>=◌, ◌>>◌,
  other, value_error, http_exception, is_runtime_error, Text, nat_eq,
}
use Prim.Native.Char.{Char, code}
use operandi.Constants.{AccountType}
use operandi.Database.Models.{Db, DbUserAccount}
use operandi.Database.ModelsStats.{DbProcessingStatsTotal}
use operandi.Database.UserAccount.{
  db_create_user_account, db_get_user_account, db_get_user_account_with_email,
}
use operandi.Database.ProcessingStats.{db_create_processing_stats, db_get_processing_stats}
use operandi.Server.State.{Server, Outside, on_db, or_http}

unfoldable pub get_hex_digest : (String → String) → String → String → String
get_hex_digest sha512 salt plain_password = sha512 (salt <> plain_password)

unfoldable pub encrypt_password : (String → String) → String → String → String × String
unfolding get_hex_digest
encrypt_password sha512 salt plain_password =
    (salt, salt <> "$" <> get_hex_digest sha512 salt plain_password)

abbrev pub is_dollar : Char → Bool
is_dollar c = code c == b'$'

abbrev prepend : Char → Option (String × String) → Option (String × String)
prepend c none = none
prepend c (some (before, after)) = some (String.◌∷◌ c before, after)

-- `s.split(sep='$', maxsplit=1)`, where it has two parts.
unfoldable pub split_dollar : String → Option (String × String)
unfolding nat_eq
split_dollar String.[] = none
split_dollar (String.◌∷◌ c s) = elim (is_dollar c) [
  | true ↦ some ("", s)
  | false ↦ prepend c (split_dollar s)
]

-- A stored password without a `$` cannot be unpacked into two parts.
unfoldable pub validate_password : (String → String) → String → String → Result Bool
unfolding get_hex_digest
validate_password sha512 plain_password encrypted_password =
    elim (split_dollar encrypted_password) [
      | none ↦ raise value_error
      | some (salt, hashed_password) ↦
          done (hashed_password == get_hex_digest sha512 salt plain_password)
    ]

pub record PyUserAction : Type 0 where
  pub institution_id : String
  pub user_id : String
  pub email : String
  pub account_type : AccountType
  pub approved_user : Bool
  pub details : String

-- `PYUserAction.from_db_user_account`: the model refuses details that are `None`.
unfoldable pub from_db_user_account : DbUserAccount → Result PyUserAction
from_db_user_account account = elim account.details [
  | none ↦ raise other
  | some details ↦ done (record {
    institution_id = account.institution_id;
    user_id = account.user_id;
    email = account.email;
    account_type = account.account_type;
    approved_user = account.approved_user;
    details = details;
  })
]

-- The name and the password of the request.
pub record HttpBasicCredentials : Type 0 where
  pub username : String
  pub password : String

module _ (out : Outside) where
  unfoldable pub user_auth_with_handling : HttpBasicCredentials → Exec Server PyUserAction
  user_auth_with_handling auth =
      if not (auth.username == "") && not (auth.password == "")
      then (do
        account ← or_http 404 (on_db (db_get_user_account_with_email auth.username))
        if not account.approved_user then lift (raise (http_exception 401)) else do
          password_status ← lift (validate_password out.sha512 auth.password account.encrypted_pass)
          if not password_status
              then lift (raise (http_exception 401))
              else lift (from_db_user_account account))
      else lift (raise (http_exception 401))

  -- The account type is one of the enumeration. The search is for a user whose id is the e-mail
  -- address.
  unfoldable pub user_register_with_handling :
      String → String → AccountType → String → Bool → String → Exec Server DbUserAccount
  unfolding encrypt_password
  user_register_with_handling email password account_type institution_id approved_user details s =
      elim (on_db (db_get_user_account email) s) [
        | ok account t ↦ raised (http_exception 422) t
        | raised e t ↦ elim (is_runtime_error e) [
          | false ↦ raised e t
          | true ↦
              (do
                let (salt, encrypted) = encrypt_password out.sha512 out.salt password
                account ← on_db (
                    db_create_user_account out.new_id out.now institution_id email encrypted salt
                      account_type approved_user details)
                on_db (db_create_processing_stats account.institution_id account.user_id)
                pure account)
                t
        ]
      ]

  unfoldable pub create_user_if_not_available :
      String → String → AccountType → String → Bool → String → Exec Server DbUserAccount
  create_user_if_not_available username password account_type institution_id approved_user details
        s =
      elim (on_db (db_get_user_account_with_email username) s) [
        | ok account t ↦ ok account t
        | raised e t ↦ elim (is_runtime_error e) [
          | false ↦ raised e t
          | true ↦
              user_register_with_handling username password account_type institution_id
                approved_user details t
        ]
      ]

unfoldable pub get_user_processing_stats_with_handling :
    String → Option ℕ → Option ℕ → Exec Server DbProcessingStatsTotal
get_user_processing_stats_with_handling user_id start_date end_date =
    or_http 500 (on_db (db_get_processing_stats user_id start_date end_date))
