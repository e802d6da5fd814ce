-- ===== src/Users.antt =====
-- internal/user and internal/admin: registration, login and lookup. golang.org/x/crypto/bcrypt is
-- the parameter `Bcrypt`.
pub mod Registration
pub mod Login
use gsb_salak_backend.Prelude.{
  ℕ, String, Bool, true, false, not, ◌||◌, Option, none, some, List, ◌∷◌, ltb, find, if◌then◌else◌,
}
use Prim.Native.String.{len, count}
use text.Mathlib.Text.{◌==◌}
use gsb_salak_backend.Prelude.Int.{pos}
use gsb_salak_backend.Prelude.Decimal.{Decimal}
use gsb_salak_backend.Apperror.{
  Error, unique_violation, data_too_long, validation_error, unauthorized_error, conflict_error,
  internal_error, is_record_not_found,
}
use gsb_salak_backend.Domain.{Uuid, AccountType, User, Admin}
use gsb_salak_backend.Store.{
  Db, Exec, Result, ok, err, panicked, ambient, tx, pure, raise, lift, raise_if, map_err, attempt,
  first, write, now, fresh_id, transaction, ◌>>=◌, ◌>>◌,
}
use gsb_salak_backend.Account.{lookup_error}
use gsb_salak_backend.Account.Opening
use gsb_salak_backend.Account.Opening.{user_at, zero_time}
use gsb_salak_backend.Auth.{Jwt, Claims, AdminClaims, Signer, sign, sign_admin}

-- GenerateFromPassword with a salt of its own choice, and CompareHashAndPassword.
pub record Bcrypt : Type 0 where
  pub generate_from_password : String → Result String
  pub compare_hash_and_password : String → String → Bool

-- GormUserRepository, with the constraints of "user".users.
abbrev pub named : String → Db → Option User
named username d = find (λ u. u.username == username) d.users

abbrev pub user_check : User → Db → Option Error
user_check u d =
    if ltb 50 (count u.username) || ltb 255 (count u.password_hash) || ltb 150 (count u.full_name)
    then some data_too_long
    else elim (named u.username d) [ none ↦ none | some _ ↦ some unique_violation ]

abbrev pub add_user : User → Db → Db
add_user u d = record d { users = u ∷ d.users }

unfoldable pub create_user : User → Exec User
create_user u = do
  t ← now
  let stamped : User = record u { created_at = t }
  write tx (user_check stamped) (add_user stamped)
  pure stamped

unfoldable pub find_by_username : String → Exec User
find_by_username username = first ambient (named username)

unfoldable pub find_by_id : Uuid → Exec User
find_by_id i = first ambient (user_at i)

-- GormAdminRepository
abbrev pub admin_named : String → Db → Option Admin
admin_named username d = find (λ a. a.username == username) d.admins

unfoldable pub find_admin_by_username : String → Exec Admin
find_admin_by_username username = first ambient (admin_named username)

-- The test of a name that may be taken: a user is a conflict, and only a missing row lets it pass.
abbrev pub free_name : Result User → Result (Unit {0})
free_name (ok _) = err (conflict_error "username already taken")
free_name (err x) =
    if is_record_not_found x then ok tt else err (internal_error "failed to check username" x)
free_name panicked = panicked

abbrev pub invalid_credentials : Error
invalid_credentials = unauthorized_error "invalid username or password"

-- A missing row on login, and another error.
abbrev pub login_error : String → Error → Error
login_error failed x =
    if is_record_not_found x then invalid_credentials else internal_error failed x

-- The function that `Register` runs in a transaction.
unfoldable pub register_body : Decimal → User → Exec User
register_body savings_starting_balance u = do
  u' ← map_err (internal_error "failed to create user") (create_user u)
  map_err (internal_error "failed to create savings account")
      (Opening.create u.id AccountType.savings savings_starting_balance true)
  map_err (internal_error "failed to create salak account")
      (Opening.create u.id AccountType.salak (pos 0) false)
  map_err (internal_error "failed to create kapook account")
      (Opening.create u.id AccountType.kapook (pos 0) false)
  pure u'

module _ (bcrypt : Bcrypt) where
  -- `Register`
  unfoldable pub register : Decimal → String → String → String → Exec User
  register savings_starting_balance username password full_name = do
    raise_if ((username == "") || (password == "") || (full_name == ""))
        (validation_error "username, password, and full_name are required")
    raise_if (ltb (len password) 8) (validation_error "password must be at least 8 characters")
    existing ← attempt (find_by_username username)
    lift (free_name existing)
    hash ←
        map_err (internal_error "failed to hash password")
          (lift (bcrypt.generate_from_password password))
    i ← fresh_id
    let u : User = record {
      id = i;
      username = username;
      password_hash = hash;
      full_name = full_name;
      created_at = zero_time;
    }
    transaction (register_body savings_starting_balance u)

  -- `AuthService.Login`
  unfoldable pub login : Jwt Claims → Signer → String → String → Exec (User × String)
  login jwt signer username password = do
    u ← map_err (login_error "failed to look up user") (find_by_username username)
    raise_if (not (bcrypt.compare_hash_and_password u.password_hash password)) invalid_credentials
    token ← map_err (internal_error "failed to sign token") (sign jwt signer u.id)
    pure (u, token)

  -- `AdminService.Login`
  unfoldable pub login_admin : Jwt AdminClaims → Signer → String → String → Exec (Admin × String)
  login_admin jwt signer username password = do
    a ← map_err (login_error "failed to look up admin") (find_admin_by_username username)
    raise_if (not (bcrypt.compare_hash_and_password a.password_hash password)) invalid_credentials
    token ← map_err (internal_error "failed to sign token") (sign_admin jwt signer a.id)
    pure (a, token)

-- `GetByID`
unfoldable pub get_by_id : Uuid → Exec User
get_by_id i = map_err (lookup_error "user not found" "failed to look up user") (find_by_id i)
