-- ===== src/Kapook/Worker.antt =====
-- internal/kapook/worker/worker.go.
pub mod Rules
pub mod Quiet
pub mod Steps
pub mod Deferral
pub mod Process
pub mod Pass
pub mod Atomic
use gsb_salak_backend.Prelude.{
  ℕ, suc, String, Bool, true, false, Option, none, some, List, [], ◌∷◌, if◌then◌else◌, length,
}
use Prim.Native.String.{◌++◌ as append}
use gsb_salak_backend.Apperror.{
  Error, app, wrapped, annotated, text, record_not_found, statement_failed, check_violation,
  unique_violation, foreign_key_violation, data_too_long, canceled, draw_day,
  units_exceed_letter_capacity, is_draw_day_error,
}
use gsb_salak_backend.Calendar.{Time, instant}
use gsb_salak_backend.Domain.{Uuid, Account, AccountType, Goal, available_balance, is_type}
use gsb_salak_backend.Store.{
  Exec, Result, ok, err, panicked, pure, map_err, attempt, now, transaction, ◌>>=◌, ◌>>◌,
}
use gsb_salak_backend.Account
use gsb_salak_backend.Salak.Service
use gsb_salak_backend.Kapook.Goals.{
  claim_due_goals, set_auto_purchase_deferral, record_auto_purchase_failure,
}
use gsb_salak_backend.Kapook.Service.Buy.{buy_from_goal_in_tx}

abbrev pub default_claim_batch_limit : ℕ
default_claim_batch_limit = 20

pub data Outcome : Type 0 where
  purchased deferred failed : Outcome

pub record GoalOutcome : Type 0 where
  pub goal_id : Uuid
  pub account_id : Uuid
  pub outcome : Outcome
  pub error : Option Error

pub record Summary : Type 0 where
  pub claimed : ℕ
  pub results : List GoalOutcome

abbrev pub same_outcome : Outcome → Outcome → Bool
same_outcome purchased purchased = true
same_outcome deferred deferred = true
same_outcome failed failed = true
same_outcome _ _ = false

-- `Summary.count`
abbrev pub count : Outcome → List GoalOutcome → ℕ
count o [] = 0
count o (r ∷ rs) = let n = count o rs in if same_outcome r.outcome o then suc n else n

-- `err.Error()`. What the driver's own errors say is left abstract by a name for each.
unfoldable pub error_text : Error → String
error_text (app _ _ m) = m
error_text (wrapped _ _ m e) = append m (append ": " (error_text e))
error_text (annotated m e) = append m (append ": " (error_text e))
error_text (text m) = m
error_text record_not_found = "record not found"
error_text statement_failed = "statement failed"
error_text check_violation = "check violation"
error_text unique_violation = "unique violation"
error_text foreign_key_violation = "foreign key violation"
error_text data_too_long = "data too long"
error_text canceled = "context canceled"
error_text draw_day = "salak: product is closed for purchases on this draw day"
error_text units_exceed_letter_capacity = "salak: units exceeds a single letter's ticket capacity"

-- `fail`: the error of the bookkeeping itself is dropped.
unfoldable pub fail : Goal → Error → Exec GoalOutcome
fail g x = do
  t ← now
  attempt (record_auto_purchase_failure g.id (error_text x) t)
  pure (record { goal_id = g.id; account_id = g.account_id; outcome = failed; error = some x })

-- Runs `k` on the value of `m`, or `fail` on its error.
unfoldable pub or_fail : {A : Type 0} → Goal → Result A → (A → Exec GoalOutcome) → Exec GoalOutcome
or_fail g (ok a) k = k a
or_fail g (err x) k = fail g x
or_fail g panicked k = λ e w. (panicked, w)

-- `findSalakAccount`: the loop over the accounts.
abbrev pub find_salak_account : List Account → Option Uuid
find_salak_account [] = none
find_salak_account (a ∷ rest) =
    if is_type a.type AccountType.salak then some a.id else find_salak_account rest

-- `deferGoal`
unfoldable pub defer_goal : Goal → Exec GoalOutcome
defer_goal g = do
  product ← attempt (
      map_err (annotated "resolve product for draw-day deferral")
        (Service.get_product g.product_id))
  or_fail g product λ p. do
    date ←
        attempt (map_err (annotated "compute next available date") (Service.next_available_date p))
    or_fail g date λ until. do
      set ←
          attempt (
            map_err (annotated "persist draw-day deferral") (set_auto_purchase_deferral g.id until))
      or_fail g set λ _.
          pure
            (record { goal_id = g.id; account_id = g.account_id; outcome = deferred; error = none })

-- What `processGoal` makes of the result of the purchase.
unfoldable pub conclude : {A : Type 0} → Goal → Result A → Exec GoalOutcome
conclude g (ok _) =
    pure (record { goal_id = g.id; account_id = g.account_id; outcome = purchased; error = none })
conclude g (err x) = if is_draw_day_error x then defer_goal g else fail g x
conclude g panicked = λ e w. (panicked, w)

-- The rest of `processGoal`, from the salak account on. The user's id, with which the message ends, is left
-- out.
unfoldable pub buy_all : Goal → Uuid → Option Uuid → Exec GoalOutcome
buy_all g user none = fail g (text "no salak account found for user")
buy_all g user (some salak) = do
  bought ← attempt (buy_from_goal_in_tx user g.account_id salak (available_balance g))
  conclude g bought

-- `processGoal`
unfoldable pub process_goal : Goal → Exec GoalOutcome
process_goal g = do
  kapook ←
      attempt
        (map_err (annotated "resolve kapook account") (Account.get_by_id_unscoped g.account_id))
  or_fail g kapook λ k. do
    accounts ←
        attempt (map_err (annotated "resolve salak account") (Account.list_by_user k.user_id))
    or_fail g accounts λ found. buy_all g k.user_id (find_salak_account found)

abbrev pub is_claimable : Goal → Bool
is_claimable g =
    if g.is_active then elim g.goal_reached_at [ none ↦ false | some _ ↦ true ] else false

-- The loop of `RunOnce`, with the defensive re-check.
unfoldable pub process_all : List Goal → Exec (List GoalOutcome)
process_all [] = pure []
process_all (g ∷ gs) =
    let rest = process_all gs in
    if is_claimable g then (process_goal g >>= λ o. rest >>= λ os. pure (o ∷ os)) else rest

-- The function that `RunOnce` runs in a transaction, from the reading `t` of the clock.
unfoldable pub run_body : ℕ → Time → Exec Summary
run_body countdown t = do
  goals ←
      map_err (annotated "claim due goals") (
        claim_due_goals countdown (instant t) (Service.truncate_to_date t)
          default_claim_batch_limit)
  results ← process_all goals
  pure (record { claimed = length goals; results = results })

-- `RunOnce`, with the countdown's duration in nanoseconds. The summary that the code returns
-- beside an error is left out.
unfoldable pub run_once : ℕ → Exec Summary
run_once countdown = do t ← now; transaction (run_body countdown t)
