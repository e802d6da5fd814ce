-- ===== src/Config/Secrets.antt =====
-- The secrets of a configuration that was loaded.
use gsb_salak_backend.Prelude.{
  String, Bool-cases, true, false, not, ◌&&◌, ◌≡◌, ◌≢◌, inl, inr, ◌∙◌, refl, sym, ap,
}
use package.text.Mathlib.Text.{◌==◌}
use package.text.Mathlib.TextEquality.{eq_iff}
use gsb_salak_backend.Store.{ok}
use gsb_salak_backend.Config.{
  Config, Platform, get_env, or_default, check_secrets, load, load_values,
}

ok-injective : {A : Type 0} {a b : A} → ok a ≡ ok b → a ≡ b
ok-injective h = cc

differs : (s t : String) → s ≢ t → (s == t) ≡ false
differs s t h = elim (Bool-cases (s == t)) [
  | inl match_found ↦ absurd (h ((eq_iff s t).0 match_found))
  | inr no_match ↦ no_match
]

differ_texts : (s t : String) → (s == t) ≡ false → s ≢ t
differ_texts s t h same = let match_found : (s == t) ≡ true = (eq_iff s t).1 same in cc

filled_text : (s : String) → (s == "") ≡ false → s ≢ ""
filled_text s h = differ_texts s "" h

kept : (fallback s : String) → (s == "") ≡ false → or_default fallback s ≡ s
kept fallback s h = rw h refl

at_home : (s : String) → (not (s == "local") && true) ≡ false → s ≡ "local"
at_home s h = elim (Bool-cases (s == "local")) [
  | inl match_found ↦ (eq_iff s "local").0 match_found
  | inr away ↦ absurd (let bad : true ≡ false = rw away at h in cc)
]

-- A configuration that passed has its two secrets filled in, and had them outside the local
-- environment.
check_secrets-passed :
    (v c : Config)
    → check_secrets v ≡ ok c
    → (c ≡ record v {
      jwt_secret = or_default "local-dev-insecure-secret" v.jwt_secret;
      admin_jwt_secret = or_default "local-dev-insecure-admin-secret" v.admin_jwt_secret;
    })
      × ((not (v.app_env == "local") && (v.jwt_secret == "")) ≡ false)
      × ((not (v.app_env == "local") && (v.admin_jwt_secret == "")) ≡ false)
unfolding check_secrets
check_secrets-passed v c h =
    elim (Bool-cases (not (v.app_env == "local") && (v.jwt_secret == ""))) [
      | inl bad ↦ absurd (let q = rw bad at h in cc)
      | inr good ↦ elim (Bool-cases (not (v.app_env == "local") && (v.admin_jwt_secret == ""))) [
        | inl bad ↦ absurd (let q = rw bad at (rw good at h) in cc)
        | inr fine ↦ (let q = rw fine at (rw good at h) in sym (ok-injective q), good, fine)
      ]
    ]

-- If a configuration is loaded outside the local environment, the two secrets are those of the environment, and
-- neither is empty; where both are left out, it is the local environment, and they are two different
-- constants.
pub load-secrets :
    (p : Platform) (c : Config)
    → load p ≡ ok c
    → (c.app_env ≢ "local"
        → (c.jwt_secret ≡ get_env p "JWT_SECRET" "")
          × (c.admin_jwt_secret ≡ get_env p "ADMIN_JWT_SECRET" "")
          × (c.jwt_secret ≢ "")
          × (c.admin_jwt_secret ≢ ""))
      × (get_env p "JWT_SECRET" "" ≡ ""
          → get_env p "ADMIN_JWT_SECRET" "" ≡ ""
          → (c.app_env ≡ "local") × (c.jwt_secret ≢ c.admin_jwt_secret))
unfolding load load_values check_secrets
load-secrets p c loaded =
    let v = load_values p in
    let (same, user_ok, admin_ok) = check_secrets-passed v c loaded in
    let of_user : c.jwt_secret ≡ or_default "local-dev-insecure-secret" v.jwt_secret =
      ap (λ x. x.jwt_secret) same in
    let of_admin : c.admin_jwt_secret
        ≡ or_default "local-dev-insecure-admin-secret" v.admin_jwt_secret =
      ap (λ x. x.admin_jwt_secret) same in
    let env : c.app_env ≡ v.app_env = ap (λ x. x.app_env) same in
    (
      λ elsewhere.
          let away : (v.app_env == "local") ≡ false =
            rw env at (differs c.app_env "local" elsewhere) in
          let filled : (v.jwt_secret == "") ≡ false = rw away at user_ok in
          let admin_filled : (v.admin_jwt_secret == "") ≡ false = rw away at admin_ok in
          let p₁ = of_user ∙ kept "local-dev-insecure-secret" v.jwt_secret filled in
          let p₂ =
            of_admin ∙ kept "local-dev-insecure-admin-secret" v.admin_jwt_secret admin_filled in
          (
            p₁,
            p₂,
            rw p₁ (filled_text v.jwt_secret filled),
            rw p₂ (filled_text v.admin_jwt_secret admin_filled),
          ),
      λ no_user no_admin. (
        env ∙ at_home v.app_env (rw no_user at user_ok),
        rw of_user (
            rw of_admin (
              rw no_user (
                rw no_admin (
                  differ_texts "local-dev-insecure-secret" "local-dev-insecure-admin-secret"
                    refl)))),
      ),
    )
