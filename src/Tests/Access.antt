-- ===== src/Tests/Access.antt =====
-- Registration, login, tokens and the configuration, with small libraries in place of bcrypt and
-- golang-jwt.
use gsb_salak_backend.Prelude.{
  String, Bool, Bool-cases, true, false, ◌&&◌, ◌≡◌, ◌≢◌, ◌∙◌, refl, sym, inl, inr, ◌==◌,
  if◌then◌else◌, arith,
}
use Prim.Native.String.{◌++◌ as append}
use package.text.Mathlib.Text.{◌==◌ as is_text}
use package.text.Mathlib.TextEquality.{eq_iff}
use gsb_salak_backend.Prelude.Int.{ℤ, pos, ◌<ℤ◌, ◌+ℤ◌, ◌*ℤ◌, ltb_ℤ, eqb_ℤ}
use gsb_salak_backend.Apperror.{text}
use gsb_salak_backend.Calendar.{instant}
use gsb_salak_backend.Store.{Env, World, Db, Result, ok, err, panicked}
use gsb_salak_backend.Store
use gsb_salak_backend.Auth.{
  Claims, AdminClaims, Token, Jwt, Signer, registered_claims, invalid_token, sign, parse,
  parse_admin,
}
use gsb_salak_backend.Auth.Tokens.{Accepts, Refuses, sign-parse}
use gsb_salak_backend.Users.{Bcrypt}
use gsb_salak_backend.Tests.{env, world, today}

abbrev pub bcrypt : Bcrypt
bcrypt = record {
  generate_from_password = λ p. ok (append "#" p);
  compare_hash_and_password = λ h p. is_text h (append "#" p);
}

abbrev pub signer : Signer
signer = record { secret = "customers"; expiry_mins = pos 60 }

abbrev pub admin_signer : Signer
admin_signer = record { secret = "admins"; expiry_mins = pos 60 }

-- The claims of user 1 at the time of the small bank, which the small library signs, and no others.
abbrev known : Claims
known = record { user_id = 1; registered = registered_claims (λ n. n) signer today today }

abbrev is_known : Claims → Bool
is_known c =
    (c.user_id == 1)
    && eqb_ℤ c.registered.expires_at known.registered.expires_at
    && eqb_ℤ c.registered.issued_at known.registered.issued_at

abbrev accept : {C : Type 0} → C → Bool → Result (Token × C)
accept c true = ok (record { is_valid = true }, c)
accept c false = err (text "invalid")

abbrev read_with : {C : Type 0} → C → Bool → Result String → Result (Token × C)
read_with c in_time (ok key) = accept c (is_text key "customers" && in_time)
read_with c in_time (err x) = err x
read_with c in_time panicked = panicked

abbrev pub jwt : Jwt Claims
jwt = record {
  numeric_date = λ n. n;
  signed_string = λ secret c.
      if is_text secret "customers" && is_known c then ok "token" else err (text "unsigned");
  parse_with_claims = λ t token key.
      read_with known (ltb_ℤ (pos (instant t)) known.registered.expires_at) (key true);
}

abbrev pub admin_jwt : Jwt AdminClaims
admin_jwt = record {
  numeric_date = λ n. n;
  signed_string = λ _ _. err (text "unsigned");
  parse_with_claims = λ t token key.
      read_with (record { admin_id = 1; registered = known.registered }) true (key true);
}

signed-known :
    (secret token : String) (c : Claims)
    → jwt.signed_string secret c ≡ ok token
    → (is_text secret "customers" && is_known c) ≡ true
signed-known secret token c h = go (is_text secret "customers" && is_known c) h
  where
    go : (b : Bool) → (if b then ok "token" else err (text "unsigned")) ≡ ok token → b ≡ true
    go true p = refl
    go false p = cc

known-same : (c : Claims) → is_known c ≡ true → c ≡ known
known-same c h =
    let p : c.user_id ≡ 1 = ground arith in
    let q : c.registered.expires_at ≡ known.registered.expires_at = ground arith in
    let r : c.registered.issued_at ≡ known.registered.issued_at = ground arith in
    λ i. record { user_id = p i; registered = record { expires_at = q i; issued_at = r i } }

both : (a b : Bool) → (a && b) ≡ true → (a ≡ true) × (b ≡ true)
both a b h = ground arith

pub jwt-Accepts : Accepts (λ (c : Claims). c.registered) jwt
jwt-Accepts secret token c t key signed keyed in_time =
    let (is_secret, is_c) =
      both (is_text secret "customers") (is_known c) (signed-known secret token c signed) in
    let same : c ≡ known = known-same c is_c in
    let timely : ltb_ℤ (pos (instant t)) known.registered.expires_at ≡ true =
      rw same at (lt_test (pos (instant t)) c.registered.expires_at in_time) in
    rw keyed (rw is_secret (rw timely (rw same refl)))
  where
    lt_test : (a b : ℤ) → a <ℤ b → ltb_ℤ a b ≡ true
    lt_test a b h = ground arith

other-refused : (s : String) → "customers" ≢ s → is_text s "customers" ≡ false
other-refused s h = elim (Bool-cases (is_text s "customers")) [
  | inl same ↦ absurd (h (sym ((eq_iff s "customers").0 same)))
  | inr differ ↦ differ
]

pub jwt-Refuses : Refuses jwt jwt
jwt-Refuses secret other token c t key signed keyed differ =
    let (is_secret, _) =
      both (is_text secret "customers") (is_known c) (signed-known secret token c signed) in
    let named : secret ≡ "customers" = (eq_iff secret "customers").0 is_secret in
    let apart : "customers" ≢ other = λ h. differ (named ∙ h) in
    (text "invalid", rw keyed (rw (other-refused other apart) refl))

pub admin_jwt-Refuses : Refuses jwt admin_jwt
admin_jwt-Refuses secret other token c t key signed keyed differ =
    let (is_secret, _) =
      both (is_text secret "customers") (is_known c) (signed-known secret token c signed) in
    let named : secret ≡ "customers" = (eq_iff secret "customers").0 is_secret in
    let apart : "customers" ≢ other = λ h. differ (named ∙ h) in
    (text "invalid", rw keyed (rw (other-refused other apart) refl))

pub secrets_differ : signer.secret ≢ admin_signer.secret
secrets_differ h =
    let p : is_text "customers" "admins" ≡ true = (eq_iff "customers" "admins").1 h in cc

abbrev pub after_signing : World
after_signing = (sign jwt signer 1 env world).1

pub signing_returns : sign jwt signer 1 env world ≡ (ok "token", after_signing)
unfolding sign Store.lift Store.now Store.◌>>=◌ ◌+ℤ◌ ◌*ℤ◌ instant
signing_returns = refl

sign-parse_example :
    (pos (instant today) <ℤ (registered_claims jwt.numeric_date signer today today).expires_at
      → (parse jwt signer "token" env world).0 ≡ ok 1)
    × ((parse jwt admin_signer "token" env world).0 ≡ err invalid_token)
    × ((parse_admin admin_jwt admin_signer "token" env world).0 ≡ err invalid_token)
sign-parse_example =
    sign-parse jwt admin_jwt signer admin_signer 1 env env world after_signing world "token"
      jwt-Accepts jwt-Refuses admin_jwt-Refuses secrets_differ signing_returns
