-- ===== src/Users/Login.antt =====
-- What a login returns, and what it tells of a failure.
use gsb_salak_backend.Prelude.{String, false, ◌≡◌, ◌⊎◌, inl, inr, refl, Option, none, some}
use gsb_salak_backend.Domain.{User, Admin}
use gsb_salak_backend.Store
use gsb_salak_backend.Store.{Env, World, Exec, Result, ok, err, panicked}
use gsb_salak_backend.Store.Returns.{IsHealthy}
use gsb_salak_backend.Auth.{Jwt, Claims, AdminClaims, Signer}
use gsb_salak_backend.Users.{
  Bcrypt, named, admin_named, invalid_credentials, login, login_admin, find_by_username,
  find_admin_by_username,
}

-- The two failures of a customer's login that a visitor can cause.
abbrev pub IsDenied : Bcrypt → Option User → String → Type 0
IsDenied bcrypt o password =
    (o ≡ none)
    ⊎ ((u : User) × (o ≡ some u)
        × (bcrypt.compare_hash_and_password u.password_hash password ≡ false))

abbrev pub IsAdminDenied : Bcrypt → Option Admin → String → Type 0
IsAdminDenied bcrypt o password =
    (o ≡ none)
    ⊎ ((a : Admin) × (o ≡ some a)
        × (bcrypt.compare_hash_and_password a.password_hash password ≡ false))

-- If no statement fails, an unknown username and a wrong password give the same error, for customers and for admins.
pub login-same_error :
    (bcrypt : Bcrypt) (jwt : Jwt Claims) (admin_jwt : Jwt AdminClaims) (signer : Signer) (e : Env)
    (w : World) (username password : String)
    → IsHealthy e
    → (IsDenied bcrypt (named username w.committed) password
        → (login bcrypt jwt signer username password e w).0 ≡ err invalid_credentials)
      × (IsAdminDenied bcrypt (admin_named username w.committed) password
          → (login_admin bcrypt admin_jwt signer username password e w).0 ≡ err invalid_credentials)
unfolding login login_admin find_by_username find_admin_by_username Store.first Store.read
    Store.execute Store.or_not_found Store.◌>>=◌ Store.map_err Store.raise_if
login-same_error bcrypt jwt admin_jwt signer e w username password healthy = (
  λ denied. elim denied [
    | inl unknown ↦ rw (healthy w.statements) (rw unknown refl)
    | inr (u, found, wrong) ↦ rw (healthy w.statements) (rw found (rw wrong refl))
  ],
  λ denied. elim denied [
    | inl unknown ↦ rw (healthy w.statements) (rw unknown refl)
    | inr (a, found, wrong) ↦ rw (healthy w.statements) (rw found (rw wrong refl))
  ],
)
