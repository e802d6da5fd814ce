-- ===== src/Seed.antt =====
-- cmd/seed, and the check of the draw calendar in cmd/api/draw_date_coverage.go.
pub mod Calendars
pub mod Coverage
pub mod Demo
use gsb_salak_backend.Prelude.{
  ℕ, ◌+◌, String, Bool, true, false, ◌||◌, ◌&&◌, Option, none, some, List, [], ◌∷◌, ◌++◌, map, ltb,
  ◌==◌, find, if◌then◌else◌,
}
use package.text.Mathlib.Text.{◌==◌ as is_text}
use gsb_salak_backend.Prelude.Int.{pos}
use gsb_salak_backend.Prelude.Decimal.{Decimal, baht}
use gsb_salak_backend.Apperror.{Error, annotated}
use gsb_salak_backend.Calendar.{Time, date, instant}
use gsb_salak_backend.Domain.{Uuid, Product, DrawDate, Admin}
use gsb_salak_backend.Store.{
  Db, Exec, Result, ok, err, panicked, ambient, pure, lift, map_err, attempt, write, now, fresh_id,
  ◌>>=◌, ◌>>◌,
}
use gsb_salak_backend.Users.{Bcrypt, admin_named}
use gsb_salak_backend.Account.Opening.{zero_time}
use gsb_salak_backend.Salak.Catalogue.{upsert, find_by_code, create_draw_date, furthest_draw_date}

-- draw_dates.go: `drawDayFor`
abbrev pub draw_day_for : ℕ → ℕ → Option ℕ
draw_day_for term month =
    if term == 12
    then some 16
    else if term == 24
    then (if (month == 1) || (month == 5) then some 2 else some 1)
    else none

-- The inner loop of `generateDrawDates`, over the months that are left, and the loop.
abbrev pub add_date : ℕ → ℕ → Option ℕ → List Time → List Time
add_date year m none rest = rest
add_date year m (some day) rest = date year m day ∷ rest

abbrev pub draw_dates_in : ℕ → ℕ → List ℕ → List Time
draw_dates_in term year [] = []
draw_dates_in term year (m ∷ ms) =
    add_date year m (draw_day_for term m) (draw_dates_in term year ms)

abbrev pub months : List ℕ
months = 1 ∷ 2 ∷ 3 ∷ 4 ∷ 5 ∷ 6 ∷ 7 ∷ 8 ∷ 9 ∷ 10 ∷ 11 ∷ 12 ∷ []

abbrev pub generate_draw_dates : ℕ → List ℕ → List Time
generate_draw_dates term [] = []
generate_draw_dates term (y ∷ ys) = draw_dates_in term y months ++ generate_draw_dates term ys

-- draw_date_coverage.go: the warnings, by what they report. The last one is of an error.
pub data Warning : Type 0 where
  no_dates : String → Warning
  runs_out : String → Time → Warning
  not_checked : String → Error → Warning

-- The warning on a product, from what its lookup gave, at a time and with a number of nanoseconds.
abbrev pub warning_on : ℕ → Time → Product → Result (Option Time) → Option Warning
warning_on within t p (err x) = some (not_checked p.code x)
warning_on within t p (ok none) = some (no_dates p.code)
warning_on within t p (ok (some furthest)) =
    if ltb (instant furthest) (instant t + within) then some (runs_out p.code furthest) else none
warning_on within t p panicked = none

abbrev pub with_warning : Option Warning → List Warning → List Warning
with_warning none ws = ws
with_warning (some x) ws = x ∷ ws

-- `drawDateCoverageWarnings`
unfoldable pub draw_date_coverage_warnings : ℕ → Time → List Product → Exec (List Warning)
draw_date_coverage_warnings within t [] = pure []
draw_date_coverage_warnings within t (p ∷ ps) =
    let rest = draw_date_coverage_warnings within t ps in
    do
      furthest ← attempt (furthest_draw_date p.id)
      warnings ← rest
      pure (with_warning (warning_on within t p furthest) warnings)

-- main.go. `log.Fatalf` ends the command: an error.
abbrev pub fatal : {A : Type 0} → String → Exec A → Exec A
fatal message = map_err (annotated message)

abbrev pub seeded_product : Uuid → String → String → ℕ → Decimal → Product
seeded_product i code name term interest = record {
  id = i;
  code = code;
  name = name;
  term_months = term;
  unit_price = baht 100;
  min_purchase = baht 1000;
  max_purchase = baht 10000000;
  step_amount = baht 1000;
  is_active = true;
  maturity_interest_per_unit = interest;
  created_at = zero_time;
}

unfoldable pub seed_products : List Product → Exec (Unit {0})
seed_products [] = pure tt
seed_products (p ∷ ps) =
    let rest = seed_products ps in fatal "failed to seed product" (upsert p) >> rest

unfoldable pub seed_dates : Uuid → List Time → Exec (Unit {0})
seed_dates product [] = pure tt
seed_dates product (d ∷ ds) =
    let rest = seed_dates product ds in
    do
      i ← fresh_id
      fatal "failed to seed draw date" (
          create_draw_date
            (record { id = i; product_id = product; draw_date = d; created_at = zero_time }))
      rest

unfoldable pub seed_calendars : List ℕ → List Product → Exec (Unit {0})
seed_calendars years [] = pure tt
seed_calendars years (p ∷ ps) =
    let rest = seed_calendars years ps in
    do
      product ← fatal "failed to look up seeded product" (find_by_code p.code)
      seed_dates product.id (generate_draw_dates product.term_months years)
      rest

-- ON CONFLICT (username) DO NOTHING
abbrev pub add_admin : Admin → Db → Db
add_admin a d = elim (admin_named a.username d) [
  | none ↦ record d { admins = a ∷ d.admins }
  | some _ ↦ d
]

abbrev pub admin_of : Uuid → String → String → Time → Admin
admin_of i username hash t = record {
  id = i;
  username = username;
  password_hash = hash;
  created_at = t;
}

module _ (bcrypt : Bcrypt) where
  unfoldable pub insert_admin : String → String → Exec (Unit {0})
  insert_admin username password = do
    hash ← fatal "failed to hash admin password" (lift (bcrypt.generate_from_password password))
    i ← fresh_id
    t ← now
    fatal "failed to seed admin credential"
        (write ambient (λ _. none) (add_admin (admin_of i username hash t)))

  -- The credential is skipped where one of the two values is empty.
  unfoldable pub seed_admin : String → String → Exec (Unit {0})
  seed_admin username password =
      if is_text username "" || is_text password "" then pure tt else insert_admin username password

  -- `main` up to the demo data.
  unfoldable pub seed : String → String → Exec (Unit {0})
  seed admin_username admin_password = do
    i ← fresh_id
    j ← fresh_id
    let products =
        seeded_product i "SALAK_1Y" "สลากดิจิทัล 1 ปี" 12 (pos 1500)
        ∷ seeded_product j "SALAK_2Y" "สลากดิจิทัล 2 ปี" 24 (pos 5000)
        ∷ []
    seed_products products
    t ← now
    seed_calendars (t.year ∷ (t.year + 1) ∷ []) products
    seed_admin admin_username admin_password
