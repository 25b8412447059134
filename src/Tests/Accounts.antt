-- ===== src/Tests/Accounts.antt =====
-- Accounts at concrete inputs.
use operandi.Common.{
  suc, ◌≡◌, refl, true, false, some, raised, http_exception, find_one, string_eq, option_eq, nat_eq,
  state_of, is_ok, length,
}
use operandi.Constants.{AccountType, account_type_eq, state_workspace_eq}
use operandi.Constants.Job.{state_job_eq}
use operandi.Database.UserAccount.{has_email}
use operandi.Server.Users.{user_auth_with_handling, user_register_with_handling}
use operandi.Server.Users.Accounts.{second_registration_accepted, registered_user_auth}
use operandi.Tests.Fixtures.{user}
use operandi.Tests.Installation.{out, server}

second_registration_accepted_example :
    (is_ok (user_register_with_handling out "u@x.org" "new" AccountType.user "goe" false "d" server)
      ≡ true)
    × (length
          (state_of (
            user_register_with_handling out "u@x.org" "new" AccountType.user "goe" false "d"
              server)).db.user_accounts
        ≡ suc 1)
    × (find_one
          (has_email "u@x.org")
          (state_of (
            user_register_with_handling out "u@x.org" "new" AccountType.user "goe" false "d"
              server)).db.user_accounts
        ≡ some (record user { encrypted_pass = "ab$habpw"; details = some "d" }))
unfolding find_one string_eq
second_registration_accepted_example =
    second_registration_accepted out "u@x.org" "new" "goe" "d" AccountType.user false server refl
      refl (record user { encrypted_pass = "ab$habpw"; details = some "d" }) refl

registered_user_auth_example :
    user_auth_with_handling out
      (record { username = "v@x.org"; password = "new" })
      (state_of
        (user_register_with_handling out "v@x.org" "new" AccountType.user "goe" false "d" server))
    ≡ raised (http_exception 401) (
        state_of
          (user_register_with_handling out "v@x.org" "new" AccountType.user "goe" false "d" server))
unfolding find_one string_eq nat_eq
registered_user_auth_example =
    registered_user_auth out "v@x.org" "new" "goe" "d" AccountType.user false server refl refl refl
      refl refl refl
