-- ===== src/Tests/Customers.antt =====
-- Registration, login and the configuration on the small bank.
use gsb_salak_backend.Prelude.{String, false, ◌||◌, ◌≡◌, ◌≢◌, ◌≤◌, refl, none}
use Prim.Native.String.{len}
use package.text.Mathlib.Text.{◌==◌}
use gsb_salak_backend.Prelude.Decimal.{baht, round2}
use gsb_salak_backend.Prelude.Digits
use gsb_salak_backend.Domain.{User}
use gsb_salak_backend.Store
use gsb_salak_backend.Store.{World, Db, Result, ok, err}
use gsb_salak_backend.Account.Opening
use gsb_salak_backend.Users
use gsb_salak_backend.Users.{
  Bcrypt, named, admin_named, invalid_credentials, register, login, login_admin,
}
use gsb_salak_backend.Users.Registration.{Registered, register-Registered}
use gsb_salak_backend.Users.Login.{IsDenied, IsAdminDenied, login-same_error}
use gsb_salak_backend.Config.{Config, Platform, get_env, load}
use gsb_salak_backend.Config
use gsb_salak_backend.Config.Secrets.{load-secrets}
use gsb_salak_backend.Tests.{env, world, db, today}
use gsb_salak_backend.Tests.Access.{bcrypt, jwt, admin_jwt, signer}

abbrev after_registration : World
after_registration = (register bcrypt (baht 1000) "somsri" "password" "Somsri" env world).1

abbrev registered_user : User
registered_user = record {
  id = 100;
  username = "somsri";
  password_hash = "#password";
  full_name = "Somsri";
  created_at = today;
}

registration_returns :
    register bcrypt (baht 1000) "somsri" "password" "Somsri" env world
    ≡ (ok registered_user, after_registration)
unfolding register Users.register_body Users.create_user Users.find_by_username Opening.create
    Opening.create_account Opening.next_account_number Opening.account_number Digits.padded_to
    Digits.low_digits Digits.high_digits Store.next_value Store.pure Store.lift Store.attempt
    Store.raise_if Store.map_err Store.read Store.first Store.write Store.now Store.fresh_id
    Store.transaction Store.execute Store.or_not_found Store.◌>>=◌ round2
registration_returns = refl

register-Registered_example :
    ((("somsri" == "") || ("password" == "") || ("Somsri" == "")) ≡ false)
    × (8 ≤ len "password")
    × (named "somsri" db ≡ none)
    × ((hash : String) × (bcrypt.generate_from_password "password" ≡ ok hash)
        × Registered
            (baht 1000)
            "somsri"
            hash
            "Somsri"
            world.numbers
            db
            registered_user
            after_registration.committed)
register-Registered_example =
    register-Registered bcrypt env world after_registration (baht 1000) "somsri" "password" "Somsri"
      registered_user registration_returns

login-same_error_example :
    (IsDenied bcrypt (named "nobody" db) "password"
      → (login bcrypt jwt signer "nobody" "password" env world).0 ≡ err invalid_credentials)
    × (IsAdminDenied bcrypt (admin_named "nobody" db) "password"
        → (login_admin bcrypt admin_jwt signer "nobody" "password" env world).0
          ≡ err invalid_credentials)
login-same_error_example =
    login-same_error bcrypt jwt admin_jwt signer env world "nobody" "password" (λ n. refl)

-- A process without an environment.
abbrev platform : Platform
platform = record {
  lookup_env = λ _. none;
  atoi = λ _. none;
  parse_bool = λ _. none;
  parse_duration = λ _. none;
  new_from_string = λ _. none;
}

abbrev local_config : Config
local_config = record (Config.load_values platform) {
  jwt_secret = "local-dev-insecure-secret";
  admin_jwt_secret = "local-dev-insecure-admin-secret";
}

loading_returns : load platform ≡ ok local_config
unfolding load Config.load_values Config.check_secrets
loading_returns = refl

load-secrets_example :
    (local_config.app_env ≢ "local"
      → (local_config.jwt_secret ≡ get_env platform "JWT_SECRET" "")
        × (local_config.admin_jwt_secret ≡ get_env platform "ADMIN_JWT_SECRET" "")
        × (local_config.jwt_secret ≢ "")
        × (local_config.admin_jwt_secret ≢ ""))
    × (get_env platform "JWT_SECRET" "" ≡ ""
        → get_env platform "ADMIN_JWT_SECRET" "" ≡ ""
        → (local_config.app_env ≡ "local")
          × (local_config.jwt_secret ≢ local_config.admin_jwt_secret))
load-secrets_example = load-secrets platform local_config loading_returns
