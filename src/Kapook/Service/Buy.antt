-- ===== src/Kapook/Service/Buy.antt =====
-- `BuyFromGoal` and `BuyFromGoalInTx` of internal/kapook/service/kapook_service.go.
pub mod Rules
pub mod Totals
use gsb_salak_backend.Prelude.{Bool, true, false, not, none, some, ◌==◌}
use gsb_salak_backend.Prelude.Int.{pos, ◌+ℤ◌, leb_ℤ, ltb_ℤ}
use gsb_salak_backend.Prelude.Decimal.{Decimal}
use gsb_salak_backend.Apperror.{validation_error, internal_error, with_code}
use gsb_salak_backend.Domain.{
  Uuid, AccountType, Goal, Transaction, TransactionType, available_balance, is_type,
}
use gsb_salak_backend.Calendar.{Time}
use gsb_salak_backend.Store.{
  Exec, pure, lift, raise_if, map_err, fresh_id, transaction, savepoint, ◌>>=◌, ◌>>◌,
}
use gsb_salak_backend.Account
use gsb_salak_backend.Purchase.{BuySalakReceipt, buy_salak_for_kapook}
use gsb_salak_backend.Salak.Service
use gsb_salak_backend.Kapook.Goals.{update_after_purchase}
use gsb_salak_backend.Kapook.Transactions.{create_transaction}
use gsb_salak_backend.Kapook.Service.{kapook_account, amount_must_be_positive, lock_active_goal}

pub record BuyFromGoalResult : Type 0 where
  pub goal : Goal
  pub receipt : BuySalakReceipt
  pub goal_completed : Bool

-- `validateBuyFromGoalAccounts`
unfoldable pub validate_buy_from_goal_accounts : Uuid → Uuid → Uuid → Decimal → Exec (Unit {0})
validate_buy_from_goal_accounts user kapook salak amount = do
  raise_if (kapook == salak)
      (validation_error "kapook_account_id and salak_account_id must be different")
  kapook_account user kapook
  s ← Account.get_by_id user salak
  raise_if (not (is_type s.type AccountType.salak))
      (validation_error "salak_account_id must reference a salak-type account")
  raise_if (leb_ℤ amount (pos 0)) amount_must_be_positive

-- The row that a purchase adds; `created_at` is set when it is created.
abbrev pub purchase_transaction : Uuid → Decimal → Uuid → Uuid → Uuid → Bool → Time → Transaction
purchase_transaction i amount kapook goal holding is_automatic t = record {
  id = i;
  type = TransactionType.buy_salak;
  amount = amount;
  kapook_account_id = kapook;
  goal_id = goal;
  savings_account_id = none;
  holding_id = some holding;
  is_automatic_purchase = some is_automatic;
  created_at = t;
}

-- `buyFromGoalCore`
unfoldable pub buy_from_goal_core : Uuid → Uuid → Uuid → Decimal → Bool → Exec BuyFromGoalResult
buy_from_goal_core user kapook salak amount is_automatic = do
  g ← lock_active_goal kapook
  p ← Service.get_product g.product_id
  raise_if (ltb_ℤ (available_balance g) p.min_purchase) (
      with_code
        (validation_error
          "kapook balance must be at least the product's minimum purchase amount to buy Salak")
        "kapook_balance_below_minimum_purchase")
  lift (Service.validate_purchase p amount)
  raise_if (ltb_ℤ (available_balance g) amount) (
      with_code (validation_error "amount exceeds the kapook balance")
        "kapook_buy_amount_exceeds_balance")
  receipt ← buy_salak_for_kapook user kapook salak g.product_id amount
  let new_salak_amount = g.salak_amount +ℤ amount
  let goal_completed = not (ltb_ℤ new_salak_amount g.goal_amount)
  map_err (internal_error "failed to update goal after purchase")
      (update_after_purchase g.id new_salak_amount (not goal_completed))
  i ← fresh_id
  map_err (internal_error "failed to record kapook transaction") (
      create_transaction (
        purchase_transaction i amount kapook g.id receipt.holding_id is_automatic
          receipt.purchase_date))
  pure (record {
    goal = record g { salak_amount = new_salak_amount; is_active = not goal_completed };
    receipt = receipt;
    goal_completed = goal_completed;
  })

-- `BuyFromGoal`
unfoldable pub buy_from_goal : Uuid → Uuid → Uuid → Decimal → Exec BuyFromGoalResult
buy_from_goal user kapook salak amount = do
  validate_buy_from_goal_accounts user kapook salak amount
  transaction (buy_from_goal_core user kapook salak amount false)

-- `BuyFromGoalInTx`
unfoldable pub buy_from_goal_in_tx : Uuid → Uuid → Uuid → Decimal → Exec BuyFromGoalResult
buy_from_goal_in_tx user kapook salak amount = do
  validate_buy_from_goal_accounts user kapook salak amount
  savepoint (buy_from_goal_core user kapook salak amount true)
