-- ===== src/Http/Replies.antt =====
-- What the responses of the handlers say of the calls behind them.
use gsb_salak_backend.Prelude.{
  ℕ, String, Bool, Bool-cases, true, false, ◌≡◌, ◌≢◌, ◌⊎◌, ◌↔◌, inl, inr, refl, Option, none, some,
  if◌then◌else◌,
}
use Prim.Native.String.{len, slice}
use text.Mathlib.Text.{◌==◌, starts_with}
use gsb_salak_backend.Apperror.{Error, Kind, wrapped, statement_failed, http_status}
use gsb_salak_backend.Domain.{Uuid}
use gsb_salak_backend.Store
use gsb_salak_backend.Store.{
  Env, World, Exec, Result, ok, err, panicked, pure, lift, attempt, transaction,
}
use gsb_salak_backend.Http
use gsb_salak_backend.Http.{
  recover, Response, data_response, error_response, bare, is_canceled, app_error, fail, or_fail,
  answer_with, auth,
}

module _ {A : Type 0} (error_text : Error → String) where
  fail-not_data : (x : Error) (n : ℕ) (a : A) → fail error_text x ≢ data_response n a
  fail-not_data x n a h = go (is_canceled x) (app_error x) h
    where
      go :
          (b : Bool) (o : Option (String × String))
          → (if b then bare 499 else elim o [
            | some (message, code) ↦ error_response (http_status x) message code
            | none ↦ error_response (http_status x) (error_text x) ""
          ])
            ≢ data_response n a
      go true o p = cc
      go false none p = cc
      go false (some (message, code)) p = cc

module _ {A B : Type 0} (error_text : Error → String) where
  -- A step of a handler gives data exactly when its call returns and the rest gives data.
  pub or_fail-data_iff :
      (call : Exec B) (handle : B → Exec (Response A)) (e : Env) (w w' : World) (n : ℕ) (a : A)
      → (or_fail error_text call handle e w ≡ (ok (data_response n a), w')) ↔ (
          (b : B) × (w₁ : World) × (call e w ≡ (ok b, w₁))
          × (handle b e w₁ ≡ (ok (data_response n a), w')))
  unfolding or_fail attempt pure Store.◌>>=◌
  or_fail-data_iff call handle e w w' n a =
      (go (call e w) refl, λ (b, w₁, called, handled). rw called handled)
    where
      go :
          (r : Result B × World)
          → call e w ≡ r
          → (let (x, w₁) = r in
              Store.continue (Store.attempted x) (answer_with error_text handle) e w₁)
            ≡ (ok (data_response n a), w')
          → (b : B) × (w₁ : World) × (call e w ≡ (ok b, w₁))
            × (handle b e w₁ ≡ (ok (data_response n a), w'))
      go (ok b, w₁) p h = (b, w₁, p, h)
      go (err x, w₁) p h =
          let same : fail error_text x ≡ data_response n a = cc in
          absurd (fail-not_data error_text x n a same)
      go (panicked, w₁) p h = cc

-- The client sees the message and the code of the error that a service made, whatever cause it holds, unless the request
-- was canceled.
pub fail-hides_cause :
    {A : Type 0} (error_text : Error → String) (kind : Kind) (code message : String) (cause : Error)
    → is_canceled cause ≡ false
    → fail {A = A} error_text (wrapped kind code message cause)
      ≡ error_response (http_status (wrapped kind code message cause)) message code
fail-hides_cause error_text kind code message cause h = rw h refl

-- But a transaction that cannot begin, or whose COMMIT fails after its body has returned, is answered with the driver's own text.
pub or_fail-transaction_text :
    {A B : Type 0} (error_text : Error → String) (body : Exec B) (handle : B → Exec (Response A))
    (e : Env) (w : World)
    → (e.fails w.statements ≡ true)
      ⊎ ((b : B) × (w₁ : World) × (body e
              (record (Store.counted w) { working = w.committed; aborted = false })
            ≡ (ok b, w₁))
          × (e.fails w.statements ≡ false)
          × (e.fails w₁.statements ≡ true))
    → (or_fail error_text (transaction body) handle e w).0
      ≡ ok (error_response 500 (error_text statement_failed) "")
unfolding or_fail attempt transaction pure Store.◌>>=◌ http_status
or_fail-transaction_text error_text body handle e w (inl begin) = rw begin refl
or_fail-transaction_text error_text body handle e w (inr (b, w₁, ran, begun, refused)) =
    rw begun (rw ran (rw refused refl))

-- A request without a token that the signer accepts is answered with 401, and nothing that follows runs.
pub auth-refuses :
    {A : Type 0} (parse : String → Exec Uuid) (header : String) (next : Uuid → Exec (Response A))
    (e : Env) (w : World)
    → ((starts_with header "Bearer " ≡ false)
        → auth parse header next e w ≡ (ok (error_response 401 "missing bearer token" ""), w))
      × ((x : Error) (w' : World)
          → starts_with header "Bearer " ≡ true
          → (header == "") ≡ false
          → parse (slice header 7 (len header)) e w ≡ (err x, w')
          → auth parse header next e w
            ≡ (ok (error_response 401 "invalid or expired token" ""), w'))
unfolding auth attempt pure Store.◌>>=◌
auth-refuses parse header next e w = (
  λ no_prefix. elim (Bool-cases (header == "")) [
    | inl empty ↦ rw empty refl
    | inr filled ↦ rw filled (rw no_prefix refl)
  ],
  λ x w' prefix filled refused. rw filled (rw prefix (rw refused refl)),
)

module _ {A : Type 0} where
  -- Behind middleware.Recover, data is the handler's.
  pub recover-data_iff :
      (handle : Exec (Response A)) (e : Env) (w w' : World) (n : ℕ) (a : A)
      → (recover handle e w ≡ (ok (data_response n a), w'))
        ↔ (handle e w ≡ (ok (data_response n a), w'))
  unfolding recover
  recover-data_iff handle e w w' n a = (go (handle e w) refl, λ h. rw h refl)
    where
      go :
          (r : Result (Response A) × World)
          → handle e w ≡ r
          → ◌≡◌ {A = Result (Response A) × World}
              (Http.recovered r.0, r.1)
              (ok (data_response n a), w')
          → handle e w ≡ (ok (data_response n a), w')
      go (ok x, w₁) ran p = cc
      go (err x, w₁) ran p = cc
      go (panicked, w₁) ran p = cc

  -- The header holds a token that the signer reads as a user, and the rest is run for that user.
  abbrev pub IsAuthenticated :
      (String → Exec Uuid)
      → String
      → (Uuid → Exec (Response A))
      → Env
      → World
      → Response A
      → World
      → Type 0
  IsAuthenticated parse header next e w r w' =
      ((header == "") ≡ false)
      × (starts_with header "Bearer " ≡ true)
      × ((user : Uuid) × (w₁ : World) × (parse (slice header 7 (len header)) e w ≡ (ok user, w₁))
          × (next user e w₁ ≡ (ok r, w')))

  pub auth-data_iff :
      (parse : String → Exec Uuid) (header : String) (next : Uuid → Exec (Response A)) (e : Env)
      (w w' : World) (n : ℕ) (a : A)
      → (auth parse header next e w ≡ (ok (data_response n a), w'))
        ↔ IsAuthenticated parse header next e w (data_response n a) w'
  unfolding auth attempt pure Store.◌>>=◌
  auth-data_iff parse header next e w w' n a = (
    λ h. elim (Bool-cases (header == "")) [
      | inl empty ↦ absurd (refused (rw empty at h))
      | inr filled ↦ elim (Bool-cases (starts_with header "Bearer ")) [
        | inl bearer ↦ (
          filled,
          bearer,
          go (parse (slice header 7 (len header)) e w) refl (rw bearer at (rw filled at h)),
        )
        | inr other ↦ absurd (refused (rw other at (rw filled at h)))
      ]
    ],
    λ (filled, bearer, (user, w₁, read, handled)). rw filled (rw bearer (rw read handled)),
  )
    where
      refused :
          ◌≡◌ {A = Result (Response A) × World}
            (ok (error_response 401 "missing bearer token" ""), w)
            (ok (data_response n a), w')
          → ⊥
      refused p = cc

      go :
          (r : Result Uuid × World)
          → parse (slice header 7 (len header)) e w ≡ r
          → (let (x, w₁) = r in Store.continue (Store.attempted x) (Http.after_parse next) e w₁)
            ≡ (ok (data_response n a), w')
          → (user : Uuid) × (w₁ : World) × (parse (slice header 7 (len header)) e w ≡ (ok user, w₁))
            × (next user e w₁ ≡ (ok (data_response n a), w'))
      go (ok user, w₁) read h = (user, w₁, read, h)
      go (err x, w₁) read h = cc
      go (panicked, w₁) read h = cc
