-- ===== src/Kapook/Service/Withdraw.antt =====
-- `GetWithdrawalStatus` and `Withdraw` of internal/kapook/service/kapook_service.go.
pub mod Rules
pub mod Returns
use gsb_salak_backend.Prelude.{
  ℕ, ◌-◌, Bool, true, false, not, ◌&&◌, Option, none, some, leb, ltb, String, if◌then◌else◌,
}
use gsb_salak_backend.Prelude.Int.{pos, ◌-ℤ◌, leb_ℤ, ltb_ℤ}
use gsb_salak_backend.Prelude.Decimal.{Decimal}
use gsb_salak_backend.Apperror.{Error, validation_error, not_found_error, internal_error, with_code}
use gsb_salak_backend.Calendar.{Time}
use gsb_salak_backend.Domain.{Uuid, Goal, TransactionType, available_balance}
use gsb_salak_backend.Store.{
  Exec, ambient, tx, pure, raise_if, map_err, now, transaction, ◌>>=◌, ◌>>◌,
}
use gsb_salak_backend.Account
use gsb_salak_backend.Kapook.Goals.{find_active_by_account_id, update_after_withdrawal}
use gsb_salak_backend.Kapook.Service.{
  kapook_account, amount_must_be_positive, no_active_goal, lock_active_goal, withdrawal_allowance,
  compute_withdrawal_fee, free_withdrawals_per_window, LedgerPair, record_kapook_ledger_pair,
}

pub record WithdrawalQuote : Type 0 where
  pub fee_amount : Decimal
  pub net_amount : Decimal

pub record WithdrawalStatus : Type 0 where
  pub window_start : Time
  pub window_end : Time
  pub free_withdrawals_used : ℕ
  pub free_withdrawals_remaining : ℕ
  pub next_withdrawal_is_free : Bool
  pub quote : Option WithdrawalQuote

abbrev pub quote_for : Option Decimal → Bool → Option WithdrawalQuote
quote_for none next_free = none
quote_for (some amount) next_free =
    let (fee, net) = compute_withdrawal_fee amount (not next_free) in
    some (record { fee_amount = fee; net_amount = net })

-- `GetWithdrawalStatus`. The subtraction stops at 0, as the code's clamp does.
unfoldable pub get_withdrawal_status : Uuid → Uuid → Option Decimal → Exec WithdrawalStatus
get_withdrawal_status user kapook amount = do
  kapook_account user kapook
  g ← map_err (no_active_goal "failed to look up active goal") (find_active_by_account_id kapook)
  allowance ← withdrawal_allowance ambient g
  let next_free = ltb allowance.0 free_withdrawals_per_window
  pure (record {
    window_start = allowance.1;
    window_end = allowance.2;
    free_withdrawals_used = allowance.0;
    free_withdrawals_remaining = free_withdrawals_per_window - allowance.0;
    next_withdrawal_is_free = next_free;
    quote = quote_for amount next_free;
  })

pub record WithdrawResult : Type 0 where
  pub goal : Goal
  pub amount : Decimal
  pub fee_charged : Bool
  pub fee_amount : Decimal
  pub net_credited : Decimal
  pub goal_closed : Bool

abbrev pub is_reached : Goal → Bool
is_reached g = elim g.goal_reached_at [ none ↦ false | some _ ↦ true ]

abbrev pub withdrawal_type : Bool → TransactionType
withdrawal_type fee_charged =
    if fee_charged then TransactionType.withdraw_with_fee else TransactionType.withdraw

abbrev pub withdrawal_description : Bool → String
withdrawal_description fee_charged =
    if fee_charged
    then "ถอนเงินจากกระปุกออมสลาก (หักค่าธรรมเนียม 2%)"
    else "ถอนเงินจากกระปุกออมสลาก"

abbrev pub withdraw_pair :
    Uuid → Uuid → Uuid → Decimal → Decimal → Bool → Decimal → Decimal → Time → LedgerPair
withdraw_pair kapook savings goal amount net fee_charged kapook_balance savings_balance t = record {
  type = withdrawal_type fee_charged;
  kapook_account_id = kapook;
  savings_account_id = savings;
  goal_id = goal;
  amount = amount;
  debit_account_id = kapook;
  debit_amount = amount;
  debit_balance_after = kapook_balance;
  credit_account_id = savings;
  credit_amount = net;
  credit_balance_after = savings_balance;
  description = withdrawal_description fee_charged;
  at = t;
}

-- The function that `Withdraw` runs in a transaction.
unfoldable pub withdraw_body : Uuid → Uuid → Decimal → Exec WithdrawResult
withdraw_body kapook savings amount = do
  g ← lock_active_goal kapook
  raise_if (ltb_ℤ (available_balance g) amount) (
      with_code (validation_error "withdrawal amount exceeds the kapook balance")
        "kapook_withdrawal_exceeds_balance")
  raise_if (is_reached g && ltb_ℤ amount (available_balance g)) (
      with_code
        (validation_error
          "once the goal has reached its target, only a full withdrawal of the entire balance is allowed during the countdown")
        "kapook_withdrawal_must_be_full_during_countdown")
  let closes_goal = is_reached g
  allowance ← withdrawal_allowance tx g
  let fee_charged = leb free_withdrawals_per_window allowance.0
  let fee = compute_withdrawal_fee amount fee_charged
  Account.lock_for_update kapook
  kapook_balance ← Account.debit kapook amount
  savings_balance ← Account.credit savings fee.1
  map_err (internal_error "failed to update goal saving amount")
      (update_after_withdrawal g.id (g.saving_amount -ℤ amount) (not closes_goal))
  t ← now
  record_kapook_ledger_pair
      (withdraw_pair kapook savings g.id amount fee.1 fee_charged kapook_balance savings_balance t)
  pure (record {
    goal = record g { saving_amount = g.saving_amount -ℤ amount; is_active = not closes_goal };
    amount = amount;
    fee_charged = fee_charged;
    fee_amount = fee.0;
    net_credited = fee.1;
    goal_closed = closes_goal;
  })

abbrev no_primary : Error → Error
no_primary _ =
    with_code
      (not_found_error
        "no primary account is on file for this customer - please contact your branch")
      "kapook_no_primary_account"

-- `Withdraw`
unfoldable pub withdraw : Uuid → Uuid → Decimal → Exec WithdrawResult
withdraw user kapook amount = do
  kapook_account user kapook
  primary ← map_err no_primary (Account.get_primary_account user)
  raise_if (leb_ℤ amount (pos 0)) amount_must_be_positive
  transaction (withdraw_body kapook primary.id amount)
