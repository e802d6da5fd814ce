-- ===== src/Kapook/Service/Goals.antt =====
-- The terms, the goals and their history, of internal/kapook/service/kapook_service.go.
use gsb_salak_backend.Prelude.{
  ℕ, ◌+◌, ◌-◌, ◌/◌, Bool, true, false, not, Option, none, some, List, map, String, if◌then◌else◌,
}
use gsb_salak_backend.Prelude.Int.{ℤ, pos, leb_ℤ}
use gsb_salak_backend.Prelude.Decimal.{Decimal}
use gsb_salak_backend.Apperror.{
  Error, not_found_error, internal_error, conflict_error, forbidden_error, with_code,
  is_record_not_found, is_unique_violation,
}
use gsb_salak_backend.Calendar.{Time, instant, nanos_per_second}
use gsb_salak_backend.Domain.{
  Uuid, Goal, Transaction, TransactionType, withdraw_with_fee, available_balance,
}
use gsb_salak_backend.Store.{
  Exec, Result, ok, err, panicked, ambient, pure, lift, raise_if, map_err, attempt, now, fresh_id,
  ◌>>=◌, ◌>>◌,
}
use gsb_salak_backend.Purchase.{page_limit, page_offset}
use gsb_salak_backend.Salak.Service
use gsb_salak_backend.Kapook.Goals.{
  accept_terms, has_accepted_terms, find_active_by_account_id, find_goal_by_id, create_goal_row,
  list_stuck_goals,
}
use gsb_salak_backend.Kapook.Transactions.{list_by_goal, sum_purchased_units_and_count}
use gsb_salak_backend.Kapook.Service.{kapook_account, compute_withdrawal_fee}

unfoldable pub accept : Uuid → Exec (Unit {0})
accept user = map_err (internal_error "failed to record terms acceptance") (accept_terms user)

unfoldable pub has_accepted : Uuid → Exec Bool
has_accepted user =
    map_err (internal_error "failed to check terms acceptance") (has_accepted_terms user)

abbrev pub already_exists : Error
already_exists =
    with_code (conflict_error "an active goal already exists for this account")
      "kapook_goal_already_exists"

-- `CreateGoal` wants the lookup of an active goal to find none.
abbrev pub expect_none : Result Goal → Result (Unit {0})
expect_none (ok _) = err already_exists
expect_none (err x) =
    if is_record_not_found x
    then ok tt
    else err (internal_error "failed to check for an existing active goal" x)
expect_none panicked = panicked

abbrev pub create_error : Error → Error
create_error x =
    if is_unique_violation x then already_exists else internal_error "failed to create goal" x

-- `CreateGoal`. `created_at` is left zero by the code and set by the ORM.
unfoldable pub create_goal : Uuid → Uuid → Uuid → Decimal → Exec Goal
create_goal user account product goal_amount = do
  kapook_account user account
  accepted ← has_accepted user
  raise_if (not accepted) (
      with_code
        (forbidden_error "you must accept the Kapook terms and conditions before creating a goal")
        "kapook_terms_not_accepted")
  existing ← attempt (find_active_by_account_id account)
  lift (expect_none existing)
  p ← Service.get_product product
  lift (Service.validate_purchase p goal_amount)
  i ← fresh_id
  t ← now
  let goal : Goal = record {
    id = i;
    account_id = account;
    product_id = product;
    goal_amount = goal_amount;
    saving_amount = pos 0;
    salak_amount = pos 0;
    is_active = true;
    goal_reached_at = none;
    auto_purchase_deferred_until = none;
    auto_purchase_attempts = 0;
    auto_purchase_last_error = none;
    auto_purchase_last_attempted_at = none;
    created_at = t;
  }
  map_err create_error (create_goal_row goal)
  pure goal

-- No active goal is a value, and not an error.
abbrev pub absent_is_none : Result Goal → Result (Option Goal)
absent_is_none (ok g) = ok (some g)
absent_is_none (err x) =
    if is_record_not_found x
    then ok none
    else err (internal_error "failed to look up active goal" x)
absent_is_none panicked = panicked

unfoldable pub get_active_goal : Uuid → Uuid → Exec (Option Goal)
get_active_goal user account = do
  kapook_account user account
  found ← attempt (find_active_by_account_id account)
  lift (absent_is_none found)

pub record GoalSnapshot : Type 0 where
  pub goal : Goal
  pub available : Decimal
  pub target_reached : Bool
  pub countdown_remaining_seconds : Option ℕ
  pub purchased_units : ℕ
  pub purchased_count : ℕ
  pub buy_eligible : Bool
  pub auto_purchase_attempts : ℕ
  pub auto_purchase_last_error : String

-- The whole seconds until the deadline; 0 once it has passed, as the code clamps.
abbrev pub remaining_seconds : ℕ → Time → Time → ℕ
remaining_seconds countdown reached_at t =
    (instant reached_at + countdown - instant t) / nanos_per_second

-- The clock is read only for a goal that has been reached.
unfoldable pub countdown_of : ℕ → Option Time → Exec (Option ℕ)
countdown_of countdown none = pure none
countdown_of countdown (some reached_at) = do
  t ← now
  pure (some (remaining_seconds countdown reached_at t))

abbrev text_or_empty : Option String → String
text_or_empty none = ""
text_or_empty (some s) = s

abbrev is_some : Option Time → Bool
is_some none = false
is_some (some _) = true

-- `Snapshot`, with the countdown's duration in nanoseconds.
unfoldable pub snapshot : ℕ → Goal → Exec GoalSnapshot
snapshot countdown g = do
  p ← Service.get_product g.product_id
  sums ←
      map_err (internal_error "failed to aggregate goal purchase history")
        (sum_purchased_units_and_count ambient g.id)
  remaining ← countdown_of countdown g.goal_reached_at
  pure (record {
    goal = g;
    available = available_balance g;
    target_reached = is_some g.goal_reached_at;
    countdown_remaining_seconds = remaining;
    purchased_units = sums.0;
    purchased_count = sums.1;
    buy_eligible = leb_ℤ p.min_purchase (available_balance g);
    auto_purchase_attempts = g.auto_purchase_attempts;
    auto_purchase_last_error = text_or_empty g.auto_purchase_last_error;
  })

pub record HistoryEntry : Type 0 where
  pub transaction : Transaction
  pub fee : Decimal
  pub net : Decimal

abbrev pub is_withdraw_with_fee : TransactionType → Bool
is_withdraw_with_fee withdraw_with_fee = true
is_withdraw_with_fee _ = false

abbrev pub history_entry : Transaction → HistoryEntry
history_entry t =
    let (fee, net) = compute_withdrawal_fee t.amount (is_withdraw_with_fee t.type) in
    record { transaction = t; fee = fee; net = net }

abbrev goal_error : Error → Error
goal_error x =
    if is_record_not_found x
    then not_found_error "goal not found"
    else internal_error "failed to look up goal" x

-- `GetGoalHistory`
unfoldable pub get_goal_history : Uuid → Uuid → ℤ → ℤ → Exec (List HistoryEntry)
get_goal_history user goal limit offset = do
  g ← map_err goal_error (find_goal_by_id goal)
  kapook_account user g.account_id
  txns ←
      map_err (internal_error "failed to list goal history")
        (list_by_goal g.id (page_limit limit) (page_offset offset))
  pure (map history_entry txns)

unfoldable pub list_stuck_auto_purchase_goals : Exec (List Goal)
list_stuck_auto_purchase_goals =
    map_err (internal_error "failed to list stuck auto-purchase goals") list_stuck_goals
