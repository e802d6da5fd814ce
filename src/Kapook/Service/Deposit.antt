-- ===== src/Kapook/Service/Deposit.antt =====
-- `Deposit` of internal/kapook/service/kapook_service.go.
pub mod Rules
pub mod Returns
use gsb_salak_backend.Prelude.{
  Bool, true, false, not, ◌&&◌, Option, none, some, ◌==◌, if◌then◌else◌,
}
use gsb_salak_backend.Prelude.Int.{pos, ◌+ℤ◌, leb_ℤ, ltb_ℤ, eqb_ℤ}
use gsb_salak_backend.Prelude.Decimal.{Decimal}
use gsb_salak_backend.Apperror.{validation_error, internal_error, with_code}
use gsb_salak_backend.Calendar.{Time}
use gsb_salak_backend.Domain.{Uuid, AccountType, Goal, TransactionType, is_type}
use gsb_salak_backend.Store.{Exec, pure, raise_if, map_err, now, transaction, ◌>>=◌, ◌>>◌}
use gsb_salak_backend.Account
use gsb_salak_backend.Kapook.Goals.{update_saving_amount, mark_goal_reached}
use gsb_salak_backend.Kapook.Service.{
  kapook_account, amount_must_be_positive, lock_active_goal, LedgerPair, record_kapook_ledger_pair,
}

abbrev pub is_none : Option Time → Bool
is_none none = true
is_none (some _) = false

-- The goal has just been reached: it is stamped, and so is the row.
unfoldable pub stamp_reached : Goal → Decimal → Time → Exec Goal
stamp_reached g new_saving_amount t =
    if is_none g.goal_reached_at && eqb_ℤ new_saving_amount g.goal_amount
    then (map_err (internal_error "failed to record goal reached") (mark_goal_reached g.id t)
        >> pure (record g { goal_reached_at = some t }))
    else pure g

abbrev pub deposit_pair : Uuid → Uuid → Uuid → Decimal → Decimal → Decimal → Time → LedgerPair
deposit_pair kapook savings goal amount savings_balance kapook_balance t = record {
  type = TransactionType.deposit;
  kapook_account_id = kapook;
  savings_account_id = savings;
  goal_id = goal;
  amount = amount;
  debit_account_id = savings;
  debit_amount = amount;
  debit_balance_after = savings_balance;
  credit_account_id = kapook;
  credit_amount = amount;
  credit_balance_after = kapook_balance;
  description = "ฝากเงินเข้ากระปุกออมสลาก";
  at = t;
}

-- The function that `Deposit` runs in a transaction.
unfoldable pub deposit_body : Uuid → Uuid → Decimal → Exec Goal
deposit_body kapook savings amount = do
  g ← lock_active_goal kapook
  let new_saving_amount = g.saving_amount +ℤ amount
  raise_if (ltb_ℤ g.goal_amount new_saving_amount) (
      with_code (validation_error "deposit would exceed the goal's target amount")
        "kapook_deposit_exceeds_target")
  Account.lock_for_update kapook
  savings_balance ← Account.debit savings amount
  kapook_balance ← Account.credit kapook amount
  map_err (internal_error "failed to update goal saving amount")
      (update_saving_amount g.id new_saving_amount)
  t ← now
  g' ← stamp_reached g new_saving_amount t
  record_kapook_ledger_pair
      (deposit_pair kapook savings g.id amount savings_balance kapook_balance t)
  pure (record g' { saving_amount = new_saving_amount })

-- `Deposit`
unfoldable pub deposit : Uuid → Uuid → Uuid → Decimal → Exec Goal
deposit user kapook savings amount = do
  raise_if (kapook == savings)
      (validation_error "kapook_account_id and savings_account_id must be different")
  kapook_account user kapook
  s ← Account.get_by_id user savings
  raise_if (not (is_type s.type AccountType.savings))
      (validation_error "savings_account_id must reference a savings-type account")
  raise_if (leb_ℤ amount (pos 0)) amount_must_be_positive
  transaction (deposit_body kapook savings amount)
