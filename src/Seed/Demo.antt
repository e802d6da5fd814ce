-- ===== src/Seed/Demo.antt =====
-- cmd/seed/main.go: the demo customer, accounts and goal.
use gsb_salak_backend.Prelude.{
  String, Bool, true, false, not, Option, none, some, [], ◌∷◌, if◌then◌else◌,
}
use gsb_salak_backend.Prelude.Int.{pos}
use gsb_salak_backend.Prelude.Decimal.{Decimal, baht}
use gsb_salak_backend.Apperror.{Error, unique_violation, annotated, is_record_not_found}
use gsb_salak_backend.Calendar.{Time, previous_day}
use gsb_salak_backend.Domain.{Uuid, Runes, Account, AccountType, User, Goal}
use gsb_salak_backend.Store.{
  Db, Exec, Result, ok, err, panicked, Reply, done, refused, ambient, pure, lift, raise, attempt,
  execute, now, ◌>>=◌, ◌>>◌,
}
use gsb_salak_backend.Account.{account_at}
use gsb_salak_backend.Account.Opening.{
  user_at, has_number, account_check, stored_account, add_account, new_account, zero_time,
}
use gsb_salak_backend.Users.{Bcrypt, named, user_check, add_user}
use gsb_salak_backend.Salak.Catalogue.{find_by_code}
use gsb_salak_backend.Kapook.Goals.{goal_at, new_goal_check, stored_goal, find_active_by_account_id}
use gsb_salak_backend.Seed.{fatal}

abbrev pub demo_user_id : Uuid
demo_user_id = 0x11111111111111111111111111111111

abbrev pub demo_savings_account_id : Uuid
demo_savings_account_id = 0x22222222222222222222222222222222

abbrev pub demo_salak_account_id : Uuid
demo_salak_account_id = 0x33333333333333333333333333333333

abbrev pub demo_kapook_account_id : Uuid
demo_kapook_account_id = 0x44444444444444444444444444444444

abbrev pub demo_fallback_goal_id : Uuid
demo_fallback_goal_id = 0x55555555555555555555555555555555

abbrev pub demo_fallback_goal_amount : Decimal
demo_fallback_goal_amount = baht 5000

-- An insert with a fixed id, which may be taken, ON CONFLICT DO NOTHING on another column: whether
-- a row was added.
abbrev pub insert_unless :
    {A B : Type 0}
    → (Db → Option A)
    → (Db → Option B)
    → (Db → Option Error)
    → (Db → Db)
    → Db
    → Reply Bool
insert_unless conflict same_id constraint f d = elim (conflict d) [
  | some _ ↦ done false d
  | none ↦ elim (same_id d) [
    | some _ ↦ refused unique_violation
    | none ↦ elim (constraint d) [ none ↦ done true (f d) | some x ↦ refused x ]
  ]
]

abbrev pub demo_user : String → Time → User
demo_user hash t = record {
  id = demo_user_id;
  username = "demo";
  password_hash = hash;
  full_name = "Somsri Somjai";
  created_at = t;
}

unfoldable pub seed_demo_user : String → Exec Bool
seed_demo_user hash = do
  t ← now
  fatal "failed to seed demo user" (
      execute ambient (
        insert_unless (named "demo") (user_at demo_user_id) (user_check (demo_user hash t))
          (add_user (demo_user hash t))))

unfoldable pub seed_account : Account → Exec Bool
seed_account a = do
  t ← now
  let row : Account = record a { created_at = t }
  fatal "failed to seed account" (
      execute ambient (
        insert_unless (has_number row.account_number) (account_at row.id)
          (account_check (stored_account row)) (add_account row)))

abbrev pub demo_account : Uuid → Runes → AccountType → Decimal → Bool → Account
demo_account i number type balance is_primary =
    new_account i demo_user_id number type balance is_primary zero_time

-- "1234009012", "4001000111" and "5001000111"
abbrev pub savings_account : Account
savings_account =
    demo_account demo_savings_account_id
      (b'1' ∷ b'2' ∷ b'3' ∷ b'4' ∷ b'0' ∷ b'0' ∷ b'9' ∷ b'0' ∷ b'1' ∷ b'2' ∷ []) AccountType.savings
      (baht 50000) true

abbrev pub salak_account : Account
salak_account =
    demo_account demo_salak_account_id
      (b'4' ∷ b'0' ∷ b'0' ∷ b'1' ∷ b'0' ∷ b'0' ∷ b'0' ∷ b'1' ∷ b'1' ∷ b'1' ∷ []) AccountType.salak
      (pos 0) false

abbrev pub kapook_account : Account
kapook_account =
    demo_account demo_kapook_account_id
      (b'5' ∷ b'0' ∷ b'0' ∷ b'1' ∷ b'0' ∷ b'0' ∷ b'0' ∷ b'1' ∷ b'1' ∷ b'1' ∷ []) AccountType.kapook
      demo_fallback_goal_amount false

-- Reached 48 hours ago.
abbrev pub fallback_goal : Uuid → Time → Time → Goal
fallback_goal product t created_at = record {
  id = demo_fallback_goal_id;
  account_id = demo_kapook_account_id;
  product_id = product;
  goal_amount = demo_fallback_goal_amount;
  saving_amount = demo_fallback_goal_amount;
  salak_amount = pos 0;
  is_active = true;
  goal_reached_at = some (previous_day (previous_day t));
  auto_purchase_deferred_until = none;
  auto_purchase_attempts = 0;
  auto_purchase_last_error = none;
  auto_purchase_last_attempted_at = none;
  created_at = created_at;
}

unfoldable pub insert_fallback_goal : Exec (Unit {0})
insert_fallback_goal = do
  p ← fatal "failed to look up SALAK_1Y for the fallback goal" (find_by_code "SALAK_1Y")
  t ← now
  created_at ← now
  let goal = stored_goal (fallback_goal p.id t created_at)
  added ← fatal "failed to seed fallback kapook goal" (
      execute ambient (
        insert_unless (goal_at demo_fallback_goal_id) (goal_at demo_fallback_goal_id)
          (new_goal_check goal) (λ d. record d { goals = goal ∷ d.goals })))
  pure tt

-- The `switch` on what the lookup of an active goal gave: only an account that was made just now gets the goal, and only
-- where the lookup found no row.
abbrev pub seed_fallback_goal : Bool → Result Goal → Exec (Unit {0})
seed_fallback_goal false found = pure tt
seed_fallback_goal true (ok _) = pure tt
seed_fallback_goal true (err x) =
    if is_record_not_found x
    then insert_fallback_goal
    else raise (annotated "failed to check for an existing active kapook goal" x)
seed_fallback_goal true panicked = lift panicked

-- `main` from the test of SEED_DEMO_DATA on.
unfoldable pub seed_demo : Bcrypt → Bool → Exec (Unit {0})
seed_demo bcrypt seed_demo_data = if not seed_demo_data then pure tt else (do
  hash ← fatal "failed to hash demo password" (lift (bcrypt.generate_from_password "demopass123"))
  seed_demo_user hash
  seed_account savings_account
  seed_account salak_account
  fresh ← seed_account kapook_account
  existing ← attempt (find_active_by_account_id demo_kapook_account_id)
  seed_fallback_goal fresh existing)
