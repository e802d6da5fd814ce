-- ===== src/Http/Router/Guarded.antt =====
-- Who gets past the authentication of the routes.
use gsb_salak_backend.Prelude.{ℕ, ◌↔◌, suc, some, String, true, false, ◌≡◌, ◌≢◌, refl}
use Prim.Native.String.{len, slice}
use package.text.Mathlib.Text.{◌==◌, starts_with}
use gsb_salak_backend.Domain.{Uuid}
use gsb_salak_backend.Store
use gsb_salak_backend.Store.{Env, World, Exec, Result, ok, err, panicked, lift, now}
use gsb_salak_backend.Store.Rules.{Ensures-ok}
use gsb_salak_backend.Auth.{sign, parse, parse_admin, key_function, invalid_token}
use gsb_salak_backend.Auth.Tokens.{Refuses, sign-Ensures}
use gsb_salak_backend.Http.{Response, data_response, error_response, recover, auth}
use gsb_salak_backend.Http.Replies.{auth-refuses, IsAuthenticated, auth-data_iff, recover-data_iff}
use gsb_salak_backend.Http.Router.{
  Wiring, UserRoute, AdminRoute, user_handler, admin_handler, serve_user, serve_admin,
}

-- Refused with 401, and the committed tables are as before.
abbrev pub IsRefused : Result (Response (Unit {0})) × World → World → String → Type 0
IsRefused r w message = (r.0 ≡ ok (error_response 401 message "")) × (r.1.committed ≡ w.committed)

-- The Authorization header is not empty, and is "Bearer " and the token.
abbrev pub IsBearer : String → String → Type 0
IsBearer header token =
    (starts_with header "Bearer " ≡ true)
    × ((header == "") ≡ false)
    × (slice header 7 (len header) ≡ token)

-- A route behind the authentication of customers gives data exactly when the header holds a token that the
-- customers' signer reads as a user, and the route's handler gives that data when it is run for that
-- user; one behind the authentication of admins, when the admins' signer reads it as an admin, and
-- the handler gives the data.
pub serve-data_iff :
    (c : Wiring) (route : UserRoute) (admin_route : AdminRoute) (header : String) (e : Env)
    (w w' : World) (n : ℕ)
    → ((serve_user c route header e w ≡ (ok (data_response n tt), w'))
        ↔ IsAuthenticated
            (parse c.jwt c.signer)
            header
            (λ user. user_handler c route (some user))
            e
            w
            (data_response n tt)
            w')
      × ((serve_admin c admin_route header e w ≡ (ok (data_response n tt), w'))
          ↔ IsAuthenticated
              (parse_admin c.admin_jwt c.admin_signer)
              header
              (λ _. admin_handler c admin_route)
              e
              w
              (data_response n tt)
              w')
unfolding serve_user serve_admin
serve-data_iff c route admin_route header e w w' n =
    let user =
      auth-data_iff (parse c.jwt c.signer) header (λ user. user_handler c route (some user)) e w w'
        n tt in
    let admin =
      auth-data_iff (parse_admin c.admin_jwt c.admin_signer) header
        (λ _. admin_handler c admin_route) e w w' n tt in
    let outer =
      recover-data_iff (auth (parse c.jwt c.signer) header λ user. user_handler c route (some user))
        e w w' n tt in
    let outer_admin =
      recover-data_iff
        (auth (parse_admin c.admin_jwt c.admin_signer) header λ _. admin_handler c admin_route) e w
        w' n tt in
    (
      (λ h. user.0 (outer.0 h), λ h. outer.1 (user.1 h)),
      (λ h. admin.0 (outer_admin.0 h), λ h. outer_admin.1 (admin.1 h)),
    )

-- If the two signers have different secrets and golang-jwt refuses tokens that were signed with another secret, a
-- customer's token opens no route of the admins: the answer is 401, and nothing changes.
pub serve_admin-customer_token :
    (c : Wiring) (route : AdminRoute) (user : Uuid) (token header : String) (e e' : Env)
    (w w' w'' : World)
    → Refuses c.jwt c.admin_jwt
    → c.signer.secret ≢ c.admin_signer.secret
    → sign c.jwt c.signer user e w ≡ (ok token, w')
    → IsBearer header token
    → IsRefused (serve_admin c route header e' w'') w'' "invalid or expired token"
unfolding serve_admin recover parse_admin Store.◌>>=◌ lift now
serve_admin-customer_token c route user token header e e' w w' w'' refuses differ signed
      (prefix, filled, same) =
    let ((u, made), _) = Ensures-ok (sign-Ensures c.jwt c.signer user e w) signed in
    let (x, p) =
      refuses c.signer.secret c.admin_signer.secret token _ (e'.clock w''.readings)
        (key_function c.admin_signer) made refl differ in
    let refused : parse_admin c.admin_jwt c.admin_signer (slice header 7 (len header)) e' w''
        ≡ (err invalid_token, record w'' { readings = suc w''.readings }) =
      rw same (rw p refl) in
    let q =
      (auth-refuses (parse_admin c.admin_jwt c.admin_signer) header (λ _. admin_handler c route) e'
          w'').1
        _ _ prefix filled refused in
    (rw q refl, rw q refl)
