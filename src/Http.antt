-- ===== src/Http.antt =====
-- internal/platform/httpserver/response.go and the authentication of internal/platform/middleware:
-- responses, and the steps that handlers share. What the routing and the decoding of JSON and of
-- query parameters give a handler are its arguments.
pub mod Kapook
pub mod Bank
pub mod Access
pub mod Router
pub mod Replies
use gsb_salak_backend.Prelude.{
  ℕ, String, Bool, true, false, not, ◌||◌, ◌≤◌, Option, none, some, leb, if◌then◌else◌,
}
use Prim.Native.String.{len, slice}
use text.Mathlib.Text.{◌==◌, starts_with}
use gsb_salak_backend.Prelude.Int.{ℤ}
use gsb_salak_backend.Prelude.Decimal.{Decimal}
use gsb_salak_backend.Apperror.{Error, Kind, app, wrapped, annotated, canceled, http_status}
use gsb_salak_backend.Domain.{Uuid}
use gsb_salak_backend.Store.{Exec, Result, ok, err, panicked, pure, lift, attempt, ◌>>=◌}

-- A status with a body: `{"data": …}`, or `{"error": …}` with a code that is left out when it is
-- empty, or none.
pub data Response (A : Type 0) : Type 0 where
  data_response : ℕ → A → Response A
  error_response : ℕ → String → String → Response A
  bare : ℕ → Response A

-- What a handler is given of a request: a body that `DecodeAndValidate` accepts, or its error's text.
pub data Decoded (A : Type 0) : Type 0 where
  valid : A → Decoded A
  invalid : String → Decoded A

abbrev pub status_of : {A : Type 0} → Response A → ℕ
status_of (data_response n a) = n
status_of (error_response n m c) = n
status_of (bare n) = n

-- `errors.Is(err, context.Canceled)`
abbrev pub is_canceled : Error → Bool
is_canceled canceled = true
is_canceled (wrapped _ _ _ x) = is_canceled x
is_canceled (annotated _ x) = is_canceled x
is_canceled _ = false

-- `errors.As(err, &appErr)`: the message and the code of the outermost *apperror.Error.
abbrev pub app_error : Error → Option (String × String)
app_error (app _ code message) = some (message, code)
app_error (wrapped _ code message _) = some (message, code)
app_error (annotated _ x) = app_error x
app_error _ = none

module _ {A : Type 0} where
  -- `OK`, `Error` and `ErrorWithCode`
  abbrev pub ok_response : ℕ → A → Exec (Response A)
  ok_response status a = pure (data_response status a)

  abbrev pub error_with : ℕ → String → Exec (Response A)
  error_with status message = pure (error_response status message "")

  abbrev pub bad_request : String → Exec (Response A)
  bad_request = error_with 400

  -- `Fail`. The text of an error that holds no *apperror.Error is the first argument's.
  abbrev pub fail : (Error → String) → Error → Response A
  fail error_text x = if is_canceled x then bare 499 else elim (app_error x) [
    | some (message, code) ↦ error_response (http_status x) message code
    | none ↦ error_response (http_status x) (error_text x) ""
  ]

  -- `RequireUserID`, of the id that the context holds.
  unfoldable pub require_user_id : Option Uuid → (Uuid → Exec (Response A)) → Exec (Response A)
  require_user_id none handle = error_with 401 "unauthorized"
  require_user_id (some user) handle = handle user

  -- `if err := DecodeAndValidate(r, &req); err != nil { … }`
  unfoldable pub with_body : {R : Type 0} → Decoded R → (R → Exec (Response A)) → Exec (Response A)
  with_body (valid r) handle = handle r
  with_body (invalid message) handle = bad_request message

  -- `if err != nil { Error(w, 400, message) }` on a parsed parameter.
  unfoldable pub with_param :
      {R : Type 0} → String → Option R → (R → Exec (Response A)) → Exec (Response A)
  with_param message none handle = bad_request message
  with_param message (some r) handle = handle r

  abbrev pub answer_with :
      {B : Type 0} → (Error → String) → (B → Exec (Response A)) → Result B → Exec (Response A)
  answer_with error_text handle (ok b) = handle b
  answer_with error_text handle (err x) = pure (fail error_text x)
  answer_with error_text handle panicked = lift panicked

  -- `if err != nil { Fail(w, r, err) }` after a call.
  unfoldable pub or_fail :
      {B : Type 0} → (Error → String) → Exec B → (B → Exec (Response A)) → Exec (Response A)
  or_fail error_text call handle = attempt call >>= answer_with error_text handle

  -- middleware.Recover: a panic becomes a response.
  abbrev pub recovered : Result (Response A) → Result (Response A)
  recovered panicked = ok (error_response 500 "internal server error" "")
  recovered r = r

  unfoldable pub recover : Exec (Response A) → Exec (Response A)
  recover handle e w = let (r, w') = handle e w in (recovered r, w')

  abbrev pub after_parse : (Uuid → Exec (Response A)) → Result Uuid → Exec (Response A)
  after_parse next (ok i) = next i
  after_parse next (err _) = error_with 401 "invalid or expired token"
  after_parse next panicked = lift panicked

  -- middleware.Auth and middleware.AdminAuth, over the `Parse` of their signer, on the
  -- Authorization header. What follows is called with the id.
  unfoldable pub auth :
      (String → Exec Uuid) → String → (Uuid → Exec (Response A)) → Exec (Response A)
  auth parse header next =
      if (header == "") || not (starts_with header "Bearer ")
      then error_with 401 "missing bearer token"
      else (attempt (parse (slice header 7 (len header))) >>= after_parse next)
