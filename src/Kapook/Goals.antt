-- ===== src/Kapook/Goals.antt =====
-- internal/kapook/repository: terms acceptances, and goals with the constraints of
-- kapook.kapook_goals.
use gsb_salak_backend.Prelude.{
  ℕ, suc, ◌+◌, String, Bool, true, false, ◌&&◌, ◌||◌, Option, none, some, List, ◌∷◌, ltb, leb, ◌==◌,
  find, select, update, take, sort_by, length, if◌then◌else◌,
}
use gsb_salak_backend.Prelude.Int.{pos, ltb_ℤ, leb_ℤ}
use gsb_salak_backend.Prelude.Decimal.{Decimal, round2}
use gsb_salak_backend.Apperror.{Error, check_violation, unique_violation}
use gsb_salak_backend.Calendar.{Time, instant}
use gsb_salak_backend.Domain.{Uuid, Goal, TermsAcceptance}
use gsb_salak_backend.Store.{Db, Exec, ambient, tx, read, first, write, now, fresh_id, ◌>>=◌}

-- GormTermsRepository. `Accept` is ON CONFLICT (user_id) DO NOTHING.
abbrev pub has_terms : Uuid → Db → Bool
has_terms user d = ltb 0 (length (select (λ t. t.user_id == user) d.terms_acceptances))

abbrev pub add_terms : TermsAcceptance → Db → Db
add_terms t d =
    if has_terms t.user_id d then d else record d { terms_acceptances = t ∷ d.terms_acceptances }

unfoldable pub accept_terms : Uuid → Exec (Unit {0})
accept_terms user = do
  i ← fresh_id
  t ← now
  write ambient (λ _. none) (add_terms (record { id = i; user_id = user; accepted_at = t }))

unfoldable pub has_accepted_terms : Uuid → Exec Bool
has_accepted_terms user = read ambient (has_terms user)

-- GormGoalRepository
abbrev pub goal_at : Uuid → Db → Option Goal
goal_at i d = find (λ g. g.id == i) d.goals

abbrev pub is_active_on : Uuid → Goal → Bool
is_active_on account g = (g.account_id == account) && g.is_active

abbrev pub active_goal : Uuid → Db → Option Goal
active_goal account d = find (is_active_on account) d.goals

-- The CHECKs of a row.
abbrev pub goal_check : Goal → Option Error
goal_check g =
    if leb_ℤ g.goal_amount (pos 0)
      || ltb_ℤ g.saving_amount (pos 0)
      || ltb_ℤ g.salak_amount (pos 0)
      || ltb_ℤ g.goal_amount g.saving_amount
      || ltb_ℤ g.saving_amount g.salak_amount
    then some check_violation
    else none

-- A new row also meets the partial unique index on the active goals of an account.
abbrev pub new_goal_check : Goal → Db → Option Error
new_goal_check g d = elim (active_goal g.account_id d) [
  | none ↦ goal_check g
  | some _ ↦ if g.is_active then some unique_violation else goal_check g
]

abbrev pub stored_goal : Goal → Goal
stored_goal g = record g {
  goal_amount = round2 g.goal_amount;
  saving_amount = round2 g.saving_amount;
  salak_amount = round2 g.salak_amount;
}

unfoldable pub create_goal_row : Goal → Exec (Unit {0})
create_goal_row g =
    write ambient (new_goal_check (stored_goal g))
      (λ d. record d { goals = stored_goal g ∷ d.goals })

unfoldable pub find_active_by_account_id : Uuid → Exec Goal
find_active_by_account_id account = first ambient (active_goal account)

unfoldable pub find_goal_by_id : Uuid → Exec Goal
find_goal_by_id i = first ambient (goal_at i)

unfoldable pub find_active_for_update : Uuid → Exec Goal
find_active_for_update account = first tx (active_goal account)

-- UPDATE ... WHERE id = ?, in a transaction.
abbrev pub set_goal : Uuid → (Goal → Goal) → Db → Db
set_goal i f d = record d { goals = update (λ g. g.id == i) f d.goals }

abbrev pub updated_goal_check : Uuid → (Goal → Goal) → Db → Option Error
updated_goal_check i f d = elim (goal_at i d) [ none ↦ none | some g ↦ goal_check (f g) ]

unfoldable pub update_goal : Uuid → (Goal → Goal) → Exec (Unit {0})
update_goal i f = write tx (updated_goal_check i f) (set_goal i f)

abbrev pub with_saving_amount : Decimal → Goal → Goal
with_saving_amount x g = record g { saving_amount = round2 x }

unfoldable pub update_saving_amount : Uuid → Decimal → Exec (Unit {0})
update_saving_amount i x = update_goal i (with_saving_amount x)

abbrev pub after_purchase : Decimal → Bool → Goal → Goal
after_purchase x still_active g = record g {
  salak_amount = round2 x;
  is_active = still_active;
  auto_purchase_deferred_until = none;
  auto_purchase_attempts = 0;
  auto_purchase_last_error = none;
  auto_purchase_last_attempted_at = none;
}

unfoldable pub update_after_purchase : Uuid → Decimal → Bool → Exec (Unit {0})
update_after_purchase i x still_active = update_goal i (after_purchase x still_active)

abbrev pub after_expiration : Decimal → Goal → Goal
after_expiration x g = record g { salak_amount = round2 x }

unfoldable pub update_after_expiration : Uuid → Decimal → Exec (Unit {0})
update_after_expiration i x = update_goal i (after_expiration x)

abbrev pub after_withdrawal : Decimal → Bool → Goal → Goal
after_withdrawal x still_active g = record g { saving_amount = round2 x; is_active = still_active }

unfoldable pub update_after_withdrawal : Uuid → Decimal → Bool → Exec (Unit {0})
update_after_withdrawal i x still_active = update_goal i (after_withdrawal x still_active)

abbrev pub reached : Time → Goal → Goal
reached t g = record g { goal_reached_at = some t }

unfoldable pub mark_goal_reached : Uuid → Time → Exec (Unit {0})
mark_goal_reached i t = update_goal i (reached t)

abbrev is_due : ℕ → ℕ → Time → Goal → Bool
is_due countdown at today g =
    g.is_active
    && elim g.goal_reached_at [ none ↦ false | some t ↦ leb (instant t + countdown) at ]
    && elim g.auto_purchase_deferred_until [
      | none ↦ true
      | some t ↦ leb (instant t) (instant today)
    ]

abbrev pub instant_of : Option Time → ℕ
instant_of none = 0
instant_of (some t) = instant t

-- `ClaimDueGoals`. The caller's cutoff is `at - countdown`, so `goal_reached_at <= cutoff` is
-- `goal_reached_at + countdown <= at`. No other connection holds a lock here: nothing is skipped.
abbrev pub due_goals : ℕ → ℕ → Time → ℕ → Db → List Goal
due_goals countdown at today limit d = take limit (
    sort_by (λ g h. leb (instant_of g.goal_reached_at) (instant_of h.goal_reached_at))
      (select (is_due countdown at today) d.goals))

unfoldable pub claim_due_goals : ℕ → ℕ → Time → ℕ → Exec (List Goal)
claim_due_goals countdown at today limit = read tx (due_goals countdown at today limit)

abbrev pub deferred : Time → Goal → Goal
deferred t g = record g { auto_purchase_deferred_until = some t }

unfoldable pub set_auto_purchase_deferral : Uuid → Time → Exec (Unit {0})
set_auto_purchase_deferral i t = update_goal i (deferred t)

abbrev pub failed_attempt : String → Time → Goal → Goal
failed_attempt message t g = record g {
  auto_purchase_attempts = suc g.auto_purchase_attempts;
  auto_purchase_last_error = some message;
  auto_purchase_last_attempted_at = some t;
}

unfoldable pub record_auto_purchase_failure : Uuid → String → Time → Exec (Unit {0})
record_auto_purchase_failure i message t = update_goal i (failed_attempt message t)

-- `ListStuckGoals`: most attempts first, then the earliest reached.
abbrev more_stuck : Goal → Goal → Bool
more_stuck g h =
    if g.auto_purchase_attempts == h.auto_purchase_attempts
    then leb (instant_of g.goal_reached_at) (instant_of h.goal_reached_at)
    else ltb h.auto_purchase_attempts g.auto_purchase_attempts

unfoldable pub list_stuck_goals : Exec (List Goal)
list_stuck_goals =
    read ambient
      λ d. sort_by more_stuck (select (λ g. g.is_active && ltb 0 g.auto_purchase_attempts) d.goals)
