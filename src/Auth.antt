-- ===== src/Auth.antt =====
-- internal/platform/jwtutil: the tokens of customers and of admins. golang-jwt is the parameter
-- `Jwt`.
pub mod Tokens
use gsb_salak_backend.Prelude.{
  String, ℕ, Bool, true, false, not, ◌||◌, Option, none, some, if◌then◌else◌,
}
use gsb_salak_backend.Prelude.Int.{ℤ, pos, ◌+ℤ◌, ◌*ℤ◌}
use gsb_salak_backend.Apperror.{Error, text}
use gsb_salak_backend.Calendar.{Time, instant}
use gsb_salak_backend.Domain.{Uuid}
use gsb_salak_backend.Store.{Exec, Result, ok, err, panicked, pure, lift, now, ◌>>=◌}

-- The claims of a token, with its times as numbers of nanoseconds.
pub record RegisteredClaims : Type 0 where
  pub expires_at : ℤ
  pub issued_at : ℤ

pub record Claims : Type 0 where
  pub user_id : Uuid
  pub registered : RegisteredClaims

pub record AdminClaims : Type 0 where
  pub admin_id : Uuid
  pub registered : RegisteredClaims

pub record Token : Type 0 where
  pub is_valid : Bool

-- What golang-jwt does, for claims of the type `C`: NewNumericDate, SignedString of a new HS256 token with a secret,
-- and ParseWithClaims, which calls the key function with whether the token's method is HMAC and reads
-- the time.
pub record Jwt (C : Type 0) : Type 0 where
  pub numeric_date : ℤ → ℤ
  pub signed_string : String → C → Result String
  pub parse_with_claims : Time → String → (Bool → Result String) → Result (Token × C)

-- `Signer` and `AdminSigner`
pub record Signer : Type 0 where
  pub secret : String
  pub expiry_mins : ℤ

abbrev minute : ℤ
minute = pos 60000000000

abbrev pub registered_claims : (ℤ → ℤ) → Signer → Time → Time → RegisteredClaims
registered_claims date s t u = record {
  expires_at = date (pos (instant t) +ℤ s.expiry_mins *ℤ minute);
  issued_at = date (pos (instant u));
}

-- The key function of both `Parse`.
abbrev pub key_function : Signer → Bool → Result String
key_function s true = ok s.secret
key_function s false = err (text "unexpected signing method")

abbrev pub invalid_token : Error
invalid_token = text "invalid or expired token"

abbrev pub id_of : {C : Type 0} → (C → Uuid) → Result (Token × C) → Result Uuid
id_of f (ok (t, c)) = if not t.is_valid then err invalid_token else ok (f c)
id_of f (err _) = err invalid_token
id_of f panicked = panicked

module _ (jwt : Jwt Claims) where
  -- `Signer.Sign` and `Signer.Parse`
  unfoldable pub sign : Signer → Uuid → Exec String
  sign s user = do
    t ← now
    u ← now
    lift (
        jwt.signed_string s.secret
          (record { user_id = user; registered = registered_claims jwt.numeric_date s t u }))

  unfoldable pub parse : Signer → String → Exec Uuid
  parse s token = do
    t ← now
    lift (id_of (λ (c : Claims). c.user_id) (jwt.parse_with_claims t token (key_function s)))

module _ (jwt : Jwt AdminClaims) where
  -- `AdminSigner.Sign` and `AdminSigner.Parse`
  unfoldable pub sign_admin : Signer → Uuid → Exec String
  sign_admin s admin = do
    t ← now
    u ← now
    lift (
        jwt.signed_string s.secret
          (record { admin_id = admin; registered = registered_claims jwt.numeric_date s t u }))

  unfoldable pub parse_admin : Signer → String → Exec Uuid
  parse_admin s token = do
    t ← now
    lift (id_of (λ (c : AdminClaims). c.admin_id) (jwt.parse_with_claims t token (key_function s)))
