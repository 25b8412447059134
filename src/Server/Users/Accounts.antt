-- ===== src/Server/Users/Accounts.antt =====
-- Registration and login together.
use operandi.Common.{
  suc, ◌≡◌, refl, String, ◌<>◌, none, some, [], ◌∷◌, ◌++◌, Bool, true, false, ◌||◌, ◌==◌, ==_refl,
  string_eq, nat_eq, if◌then◌else◌, arith, Outcome, ok, raised, done, state_of, is_ok,
  http_exception, find_one, find_one-append, length, length-append,
}
use Prim.Native.Char.{Char, char}
use Prim.Native.String.append
use operandi.Constants.{AccountType}
use operandi.Database.Models.{DbUserAccount}
use operandi.Database.UserAccount.{
  is_user, has_email, db_create_user_account, db_get_user_account, db_get_user_account_with_email,
}
use operandi.Database.ProcessingStats.{is_total_in, db_create_processing_stats}
use operandi.Server.State.{Server, Outside}
use operandi.Server.Users.{
  is_dollar, split_dollar, encrypt_password, validate_password, get_hex_digest,
  from_db_user_account, user_auth_with_handling, user_register_with_handling,
}

-- Whether a text has a `$`.
abbrev pub has_dollar : String → Bool
has_dollar String.[] = false
has_dollar (String.◌∷◌ c s) = is_dollar c || has_dollar s

abbrev dollar : Char
dollar = char b'$' tt

split_dollar-append :
    (salt hash : String)
    → has_dollar salt ≡ false
    → split_dollar (salt <> "$" <> hash) ≡ some (salt, hash)
unfolding split_dollar nat_eq
split_dollar-append String.[] hash h =
    rw (append.nil ("$" <> hash))
      (rw (append.cons dollar String.[] hash) (rw (append.nil hash) refl))
split_dollar-append (String.◌∷◌ c salt) hash h =
    rw (append.cons c salt ("$" <> hash)) ground (arith, split_dollar-append salt hash)

-- A stored password is met by a password exactly when the digest is that of the one that was
-- encrypted, for a salt without a `$`, as hexadecimal digests are. The password that was
-- encrypted itself is accepted.
validate_password-encrypt_password :
    (sha512 : String → String) (salt password attempt : String)
    → has_dollar salt ≡ false
    → (validate_password sha512 attempt (encrypt_password sha512 salt password).1
        ≡ done (get_hex_digest sha512 salt password == get_hex_digest sha512 salt attempt))
      × (validate_password sha512 password (encrypt_password sha512 salt password).1 ≡ done true)
unfolding validate_password encrypt_password
validate_password-encrypt_password sha512 salt password attempt h = ground (
  arith,
  split_dollar-append salt (get_hex_digest sha512 salt password) h,
  ==_refl (get_hex_digest sha512 salt password),
)

-- The account that a registration adds.
abbrev pub account_of :
    Outside → String → String → AccountType → String → Bool → String → DbUserAccount
account_of out email password account_type institution_id approved_user details = record {
  institution_id = institution_id;
  user_id = out.new_id;
  email = email;
  encrypted_pass = (encrypt_password out.sha512 out.salt password).1;
  salt = out.salt;
  account_type = account_type;
  approved_user = approved_user;
  deleted = false;
  datetime = some out.now;
  details = some details;
}

module _ (out : Outside) (email password institution_id details : String)
    (account_type : AccountType) (approved_user : Bool) (s : Server)
    (no_such_id : find_one (is_user email) s.db.user_accounts ≡ none)
    (no_stats : find_one (is_total_in institution_id out.new_id) s.db.processing_stats_total
      ≡ none) where
  abbrev account : DbUserAccount
  account = account_of out email password account_type institution_id approved_user details

  abbrev registered : Outcome Server DbUserAccount
  registered =
      user_register_with_handling out email password account_type institution_id approved_user
        details s

  user_register_with_handling_lem :
      (registered ≡ ok account (state_of registered))
      × ((state_of registered).db.user_accounts ≡ s.db.user_accounts ++ account ∷ [])
  unfolding user_register_with_handling db_create_user_account db_get_user_account
      db_create_processing_stats
  user_register_with_handling_lem = ground (arith, no_such_id, no_stats)

  -- An e-mail address that another account has is accepted, where no account has it as its user
  -- id: the new account is added, and a search for the address still finds the old one.
  pub second_registration_accepted :
      (old : DbUserAccount)
      → find_one (has_email email) s.db.user_accounts ≡ some old
      → (is_ok registered ≡ true)
        × (length (state_of registered).db.user_accounts ≡ suc (length s.db.user_accounts))
        × (find_one (has_email email) (state_of registered).db.user_accounts ≡ some old)
  second_registration_accepted old found =
      let (returns, accounts) = user_register_with_handling_lem in
      (
        rw returns refl,
        rw accounts (omega (arith, length-append s.db.user_accounts (account ∷ []))),
        rw accounts ground
            (arith, found, find_one-append (has_email email) s.db.user_accounts (account ∷ [])),
      )

  find_one-registered :
      find_one (has_email email) s.db.user_accounts ≡ none
      → find_one (has_email email) (state_of registered).db.user_accounts ≡ some account
  unfolding find_one
  find_one-registered unused = rw (user_register_with_handling_lem.1) ground (
    arith,
    unused,
    ==_refl email,
    find_one-append (has_email email) s.db.user_accounts (account ∷ []),
  )

  -- An account that is registered under a new e-mail address can log in with the same password
  -- exactly if it was registered as approved; else the login is refused with the status 401.
  pub registered_user_auth :
      find_one (has_email email) s.db.user_accounts ≡ none
      → (email == "") ≡ false
      → (password == "") ≡ false
      → has_dollar out.salt ≡ false
      → user_auth_with_handling out
          (record { username = email; password = password })
          (state_of registered)
        ≡ (if approved_user
            then ok
                (record {
                  institution_id = institution_id;
                  user_id = out.new_id;
                  email = email;
                  account_type = account_type;
                  approved_user = approved_user;
                  details = details;
                })
                (state_of registered)
            else raised (http_exception 401) (state_of registered))
  unfolding user_auth_with_handling db_get_user_account_with_email from_db_user_account
  registered_user_auth unused named given plain = ground (
    arith,
    find_one-registered unused,
    (validate_password-encrypt_password out.sha512 out.salt password password plain).1,
  )
