-- ===== src/Kapook/Service.antt =====
-- internal/kapook/service/kapook_service.go: what several of its methods share. The methods are in
-- the modules below.
pub mod Goals
pub mod Deposit
pub mod Withdraw
pub mod Buy
pub mod Settlement
pub mod Still
pub mod Rules
pub mod Returns
pub mod Backing
pub mod Totals
pub mod Atomic
use gsb_salak_backend.Prelude.{
  ℕ, ◌+◌, ◌*◌, ◌/◌, suc, String, Bool, true, false, not, Option, none, some, if◌then◌else◌,
}
use gsb_salak_backend.Prelude.Int.{pos, negsuc, ◌-ℤ◌}
use gsb_salak_backend.Prelude.Decimal.{Decimal, neg_ℕ}
use gsb_salak_backend.Apperror.{
  Error, validation_error, not_found_error, internal_error, with_code, is_record_not_found,
}
use gsb_salak_backend.Calendar.{Time}
use gsb_salak_backend.Domain.{
  Uuid, Account, AccountType, Goal, Transaction, TransactionType, LedgerEntry, EntryType, debit,
  credit, is_type,
}
use gsb_salak_backend.Store.{Exec, Handle, pure, raise_if, map_err, now, fresh_id, ◌>>=◌, ◌>>◌}
use gsb_salak_backend.Account
use gsb_salak_backend.Purchase.{create_entry}
use gsb_salak_backend.Kapook.Window.{withdrawal_window}
use gsb_salak_backend.Kapook.Goals.{find_active_for_update}
use gsb_salak_backend.Kapook.Transactions.{create_transaction, count_by_goal_and_types_in_window}

abbrev pub free_withdrawals_per_window : ℕ
free_withdrawals_per_window = 2

-- `amount.Mul(0.02).Round(2)`: the product has six places, and the result two.
abbrev pub fee_ℕ : ℕ → ℕ
fee_ℕ n = (n * 2 + 5000) / 10000 * 100

abbrev pub two_percent : Decimal → Decimal
two_percent (pos n) = pos (fee_ℕ n)
two_percent (negsuc n) = neg_ℕ (fee_ℕ (suc n))

-- `computeWithdrawalFee`: the fee and the net amount.
unfoldable pub compute_withdrawal_fee : Decimal → Bool → Decimal × Decimal
compute_withdrawal_fee amount fee_charged =
    if fee_charged then (two_percent amount, amount -ℤ two_percent amount) else (pos 0, amount)

-- `kapookAccount`
unfoldable pub kapook_account : Uuid → Uuid → Exec Account
kapook_account user i = do
  a ← Account.get_by_id user i
  raise_if (not (is_type a.type AccountType.kapook))
      (validation_error "account_id must reference a kapook-type account")
  pure a

abbrev pub amount_must_be_positive : Error
amount_must_be_positive =
    with_code (validation_error "amount must be greater than zero") "kapook_amount_must_be_positive"

-- `FindActiveByAccountIDForUpdate` and the two error branches that follow each call of it.
abbrev pub no_active_goal : String → Error → Error
no_active_goal failed x =
    if is_record_not_found x
    then not_found_error "no active goal for this account"
    else internal_error failed x

unfoldable pub lock_active_goal : Uuid → Exec Goal
lock_active_goal account =
    map_err (no_active_goal "failed to lock active goal") (find_active_for_update account)

pub record LedgerPair : Type 0 where
  pub type : TransactionType
  pub kapook_account_id : Uuid
  pub savings_account_id : Uuid
  pub goal_id : Uuid
  pub amount : Decimal
  pub debit_account_id : Uuid
  pub debit_amount : Decimal
  pub debit_balance_after : Decimal
  pub credit_account_id : Uuid
  pub credit_amount : Decimal
  pub credit_balance_after : Decimal
  pub description : String
  pub at : Time

abbrev pub pair_transaction : LedgerPair → Uuid → Transaction
pair_transaction p reference = record {
  id = reference;
  type = p.type;
  amount = p.amount;
  kapook_account_id = p.kapook_account_id;
  goal_id = p.goal_id;
  savings_account_id = some p.savings_account_id;
  holding_id = none;
  is_automatic_purchase = none;
  created_at = p.at;
}

abbrev pub pair_debit : LedgerPair → Uuid → Uuid → LedgerEntry
pair_debit p reference i = record {
  id = i;
  account_id = p.debit_account_id;
  holding_id = none;
  type = debit;
  amount = p.debit_amount;
  balance_after = p.debit_balance_after;
  reference_type = "kapook_transaction";
  reference_id = reference;
  description = p.description;
  created_at = p.at;
}

abbrev pub pair_credit : LedgerPair → Uuid → Uuid → LedgerEntry
pair_credit p reference i = record {
  id = i;
  account_id = p.credit_account_id;
  holding_id = none;
  type = credit;
  amount = p.credit_amount;
  balance_after = p.credit_balance_after;
  reference_type = "kapook_transaction";
  reference_id = reference;
  description = p.description;
  created_at = p.at;
}

-- `recordKapookLedgerPair`. The kapook transaction's `created_at` is set by its `Create`.
unfoldable pub record_kapook_ledger_pair : LedgerPair → Exec (Unit {0})
record_kapook_ledger_pair p = do
  reference ← fresh_id
  map_err (internal_error "failed to record kapook transaction")
      (create_transaction (pair_transaction p reference))
  i ← fresh_id
  j ← fresh_id
  map_err (internal_error "failed to write ledger entry") (create_entry (pair_debit p reference i))
  map_err (internal_error "failed to write ledger entry") (create_entry (pair_credit p reference j))

-- `withdrawalAllowance`: the number used, and the window.
unfoldable pub withdrawal_allowance : Handle → Goal → Exec (ℕ × Time × Time)
withdrawal_allowance h g = do
  t ← now
  let window = withdrawal_window g.created_at t
  used ←
      map_err (internal_error "failed to count prior withdrawals")
        (count_by_goal_and_types_in_window h g.id window.0 window.1)
  pure (used, window.0, window.1)
