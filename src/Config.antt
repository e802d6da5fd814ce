-- ===== src/Config.antt =====
-- internal/platform/config/config.go. The process environment, with what .env has added to it, and
-- the parsers of the libraries are parameters.
pub mod Secrets
use gsb_salak_backend.Prelude.{
  ℕ, String, Bool, true, false, not, ◌&&◌, Option, none, some, if◌then◌else◌,
}
use Prim.Native.String.{◌++◌ as append}
use package.text.Mathlib.Text.{◌==◌}
use gsb_salak_backend.Prelude.Int.{ℤ, pos}
use gsb_salak_backend.Prelude.Decimal.{Decimal, baht}
use gsb_salak_backend.Apperror.{Error, text}
use gsb_salak_backend.Store.{Result, ok, err}

pub record DbConfig : Type 0 where
  pub host : String
  pub port : String
  pub user : String
  pub password : String
  pub name : String
  pub ssl_mode : String

-- `URL` and `DSN`
infixr 60 ◌&◌
abbrev ◌&◌ : String → String → String
s & t = append s t

unfoldable pub url : DbConfig → String
url c =
    "postgres://" & c.user & ":" & c.password & "@" & c.host & ":" & c.port & "/" & c.name
    & "?sslmode=" & c.ssl_mode

unfoldable pub dsn : DbConfig → String
dsn c =
    "host=" & c.host & " port=" & c.port & " user=" & c.user & " password=" & c.password
    & " dbname=" & c.name & " sslmode=" & c.ssl_mode

-- Durations are numbers of nanoseconds.
pub record Config : Type 0 where
  pub app_env : String
  pub http_port : String
  pub db : DbConfig
  pub migrate_dsn : String
  pub jwt_secret : String
  pub jwt_expiry_mins : ℤ
  pub seed_demo_data : Bool
  pub admin_jwt_secret : String
  pub admin_username : String
  pub admin_password : String
  pub kapook_countdown_duration : ℤ
  pub kapook_worker_tick_interval : ℤ
  pub registration_savings_starting_balance : Decimal

-- os.LookupEnv, strconv.Atoi, strconv.ParseBool, time.ParseDuration and decimal.NewFromString; `none` is an error.
pub record Platform : Type 0 where
  pub lookup_env : String → Option String
  pub atoi : String → Option ℤ
  pub parse_bool : String → Option Bool
  pub parse_duration : String → Option ℤ
  pub new_from_string : String → Option Decimal

-- A value that is set and is not empty.
abbrev set_value : Option String → Option String
set_value none = none
set_value (some v) = if v == "" then none else some v

abbrev or_else : {A : Type 0} → A → Option A → A
or_else a none = a
or_else a (some b) = b

abbrev parsed : {A : Type 0} → (String → Option A) → A → Option String → A
parsed parse fallback none = fallback
parsed parse fallback (some v) = or_else fallback (parse v)

-- `getEnv`, and `getEnvInt`, `getEnvBool`, `getEnvDuration`, `getEnvDecimal` for the parser.
abbrev pub get_env : Platform → String → String → String
get_env p key fallback = or_else fallback (set_value (p.lookup_env key))

abbrev pub get_env_parsed : {A : Type 0} → Platform → (String → Option A) → String → A → A
get_env_parsed p parse key fallback = parsed parse fallback (set_value (p.lookup_env key))

abbrev one_minute : ℤ
one_minute = pos 60000000000

abbrev load_db : Platform → DbConfig
load_db p = record {
  host = get_env p "DB_HOST" "localhost";
  port = get_env p "DB_PORT" "5432";
  user = get_env p "DB_USER" "postgres";
  password = get_env p "DB_PASSWORD" "example";
  name = get_env p "DB_NAME" "gsb_salak";
  ssl_mode = get_env p "DB_SSLMODE" "disable";
}

-- The literal of `Load`, before the checks of the secrets.
unfoldable pub load_values : Platform → Config
unfolding url
load_values p = record {
  app_env = get_env p "APP_ENV" "local";
  http_port = get_env p "HTTP_PORT" "8080";
  db = load_db p;
  migrate_dsn = get_env p "MIGRATE_DATABASE_URL" (url (load_db p));
  jwt_secret = get_env p "JWT_SECRET" "";
  jwt_expiry_mins = get_env_parsed p p.atoi "JWT_EXPIRY_MINUTES" (pos 60);
  seed_demo_data = get_env_parsed p p.parse_bool "SEED_DEMO_DATA" false;
  admin_jwt_secret = get_env p "ADMIN_JWT_SECRET" "";
  admin_username = get_env p "ADMIN_USERNAME" "";
  admin_password = get_env p "ADMIN_PASSWORD" "";
  kapook_countdown_duration =
      get_env_parsed p p.parse_duration "KAPOOK_COUNTDOWN_DURATION" (pos 30000000000);
  kapook_worker_tick_interval =
      get_env_parsed p p.parse_duration "KAPOOK_WORKER_TICK_INTERVAL" one_minute;
  registration_savings_starting_balance =
      get_env_parsed p p.new_from_string "REGISTRATION_SAVINGS_STARTING_BALANCE" (baht 1000000);
}

abbrev pub or_default : String → String → String
or_default fallback s = if s == "" then fallback else s

-- What `Load` does with the secrets: `log.Fatal` is an error.
unfoldable pub check_secrets : Config → Result Config
check_secrets c =
    if not (c.app_env == "local") && (c.jwt_secret == "")
    then err (text "JWT_SECRET must be set outside of local environment")
    else if not (c.app_env == "local") && (c.admin_jwt_secret == "")
    then err (text "ADMIN_JWT_SECRET must be set outside of local environment")
    else ok (record c {
      jwt_secret = or_default "local-dev-insecure-secret" c.jwt_secret;
      admin_jwt_secret = or_default "local-dev-insecure-admin-secret" c.admin_jwt_secret;
    })

-- `Load`
unfoldable pub load : Platform → Result Config
unfolding load_values check_secrets
load p = check_secrets (load_values p)
