-- ===== src/Auth/Tokens.antt =====
-- A token that one signer made, and who accepts it.
use gsb_salak_backend.Prelude.{String, Bool, true, ◌≡◌, ◌≢◌, refl}
use gsb_salak_backend.Prelude.Int.{pos, ◌<ℤ◌}
use gsb_salak_backend.Apperror.{Error}
use gsb_salak_backend.Calendar.{Time, instant}
use gsb_salak_backend.Domain.{Uuid}
use gsb_salak_backend.Store
use gsb_salak_backend.Store.{Env, World, Result, ok, err, panicked, lift, now}
use gsb_salak_backend.Store.Rules.{
  Ensures, Same, Same-then, Ensures-bind, Ensures-now, Ensures-mono, Ensures-ok,
}
use gsb_salak_backend.Salak.Repository.Rules.{lift-Ensures}
use gsb_salak_backend.Auth.{
  Claims, AdminClaims, RegisteredClaims, Jwt, Signer, registered_claims, key_function, sign,
  invalid_token, parse, parse_admin,
}

-- Documented behaviour of golang-jwt: a token is accepted with the secret that it was signed with, until it
-- expires, and gives its claims back.
abbrev pub Accepts : {C : Type 0} → (C → RegisteredClaims) → Jwt C → Type 0
Accepts {C} registered jwt =
    (secret token : String) (claims : C) (t : Time) (key : Bool → Result String)
    → jwt.signed_string secret claims ≡ ok token
    → key true ≡ ok secret
    → pos (instant t) <ℤ (registered claims).expires_at
    → jwt.parse_with_claims t token key ≡ ok (record { is_valid = true }, claims)

-- Documented behaviour of golang-jwt: a token that was signed with one secret is refused with another, for whatever
-- claims it is read.
abbrev pub Refuses : {C D : Type 0} → Jwt C → Jwt D → Type 0
Refuses {C} {D} signing parsing =
    (secret other token : String) (claims : C) (t : Time) (key : Bool → Result String)
    → signing.signed_string secret claims ≡ ok token
    → key true ≡ ok other
    → secret ≢ other
    → (x : Error) × (parsing.parse_with_claims t token key ≡ err x)

-- What `Sign` returns is signed with the secret, for the id, and expires the given minutes after a
-- reading of the clock.
pub sign-Ensures :
    (jwt : Jwt Claims) (s : Signer) (user : Uuid) (e : Env) (w : World)
    → Ensures
        (λ token w'.
          ((u : Time) × (jwt.signed_string s.secret (record {
            user_id = user;
            registered = registered_claims jwt.numeric_date s (e.clock w.readings) u;
          })
              ≡ ok token))
          × Same w w')
        (sign jwt s user)
        e
        w
unfolding sign
sign-Ensures jwt s user e w = Ensures-bind (Ensures-now e w) λ t w₁ (p, s₁).
    Ensures-bind (Ensures-now e w₁) λ u w₂ (_, s₂).
      Ensures-mono (lift-Ensures e w₂ _)
        λ token w₃ (signed, s₃). ((u, rw p at signed), Same-then (Same-then s₁ s₂) s₃)

-- A token that the customers' signer returned is read back as its user while it has not expired, and is refused by a
-- signer with another secret, for customers or for admins, at any time, if golang-jwt does what it
-- documents.
pub sign-parse :
    (jwt : Jwt Claims) (admin_jwt : Jwt AdminClaims) (s other : Signer) (user : Uuid) (e e' : Env)
    (w w' w'' : World) (token : String)
    → Accepts (λ (c : Claims). c.registered) jwt
    → Refuses jwt jwt
    → Refuses jwt admin_jwt
    → s.secret ≢ other.secret
    → sign jwt s user e w ≡ (ok token, w')
    → (pos (instant (e'.clock w''.readings))
          <ℤ (registered_claims jwt.numeric_date s
              (e.clock w.readings)
              (e.clock w.readings)).expires_at
        → (parse jwt s token e' w'').0 ≡ ok user)
      × ((parse jwt other token e' w'').0 ≡ err invalid_token)
      × ((parse_admin admin_jwt other token e' w'').0 ≡ err invalid_token)
unfolding parse parse_admin Store.◌>>=◌ lift now
sign-parse jwt admin_jwt s other user e e' w w' w'' token accepts refuses refuses' differ returned =
    let ((u, signed), _) = Ensures-ok (sign-Ensures jwt s user e w) returned in
    let t = e'.clock w''.readings in
    let (_, p) = refuses s.secret other.secret token _ t (key_function other) signed refl differ in
    let (_, q) = refuses' s.secret other.secret token _ t (key_function other) signed refl differ in
    (
      λ in_time. rw (accepts s.secret token _ t (key_function s) signed refl in_time) refl,
      rw p refl,
      rw q refl,
    )
