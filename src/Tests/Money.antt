-- ===== src/Tests/Money.antt =====
-- The movements of money on the small bank.
use gsb_salak_backend.Prelude.{◌+◌, ◌≤◌, ◌<◌, ℕ, ◌*◌, [], ◌∷◌, ◌≡◌, ◌≢◌, refl, true, false}
use gsb_salak_backend.Prelude.Int.{pos, ◌+ℤ◌, ◌-ℤ◌, ◌*ℤ◌}
use gsb_salak_backend.Prelude.Decimal.{baht, round2}
use gsb_salak_backend.Calendar.{
  instant, ordinal, days_before_year, days_before_month, days_in_month, is_leap, add_year,
  normalise,
}
use gsb_salak_backend.Domain.{Goal}
use gsb_salak_backend.Store.{
  World, Db, ok, pure, raise_if, map_err, read, first, write, now, fresh_id, transaction, execute,
  or_not_found, ◌>>=◌,
}
use gsb_salak_backend.Account
use gsb_salak_backend.Account.Totals.{total, HasCents}
use gsb_salak_backend.Salak.Service
use gsb_salak_backend.Salak.Repository
use gsb_salak_backend.Purchase.{create_entry, SettlementReceipt}
use gsb_salak_backend.Purchase
use gsb_salak_backend.Purchase.Settlement.{Settled}
use gsb_salak_backend.Purchase.Once.{
  settle_matured_holding-Settled, settle_matured_holding-once,
  settle_matured_holding-inactive_product,
}
use gsb_salak_backend.Kapook.Goals
use gsb_salak_backend.Kapook.Transactions
use gsb_salak_backend.Kapook.Window.{withdrawal_window, window_start}
use gsb_salak_backend.Kapook.Service.{
  kapook_account, lock_active_goal, record_kapook_ledger_pair, withdrawal_allowance,
  compute_withdrawal_fee,
}
use gsb_salak_backend.Kapook.Service.Deposit.{stamp_reached, deposit_body, deposit}
use gsb_salak_backend.Kapook.Service.Deposit.Rules.{DepositOutcome, deposit-DepositOutcome}
use gsb_salak_backend.Kapook.Service.Withdraw.{withdraw_body, withdraw, WithdrawResult}
use gsb_salak_backend.Kapook.Service.Withdraw.Rules.{WithdrawOutcome, withdraw-WithdrawOutcome}
use gsb_salak_backend.Kapook.Service.Totals.{
  deposit-total, withdraw-total, settle_matured_holding-total, compute_withdrawal_fee-two_percent,
}
use gsb_salak_backend.Tests.{env, world, world_of, db, goal, holding, product, today}

abbrev after_deposit : World
after_deposit = (deposit 1 11 10 (baht 50) env world).1

abbrev deposited_goal : Goal
deposited_goal = record goal { saving_amount = baht 150 }

deposit_returns : deposit 1 11 10 (baht 50) env world ≡ (ok deposited_goal, after_deposit)
unfolding deposit deposit_body stamp_reached lock_active_goal kapook_account
    record_kapook_ledger_pair create_entry Goals.find_active_for_update Goals.update_saving_amount
    Goals.update_goal Goals.mark_goal_reached Transactions.create_transaction Account.get_by_id
    Account.find_by_id Account.find_for_update Account.lock_for_update Account.debit Account.credit
    Account.update_balance pure raise_if map_err read first write now fresh_id transaction execute
    or_not_found ◌>>=◌ round2 ◌+ℤ◌ ◌-ℤ◌
deposit_returns = refl

-- A deposit of half a satang adds a satang to the sum of all balances.
half_a_satang : total (deposit 1 11 10 (pos 50) env world).1.committed ≡ total db +ℤ pos 100
unfolding deposit deposit_body stamp_reached lock_active_goal kapook_account
    record_kapook_ledger_pair create_entry Goals.find_active_for_update Goals.update_saving_amount
    Goals.update_goal Goals.mark_goal_reached Transactions.create_transaction Account.get_by_id
    Account.find_by_id Account.find_for_update Account.lock_for_update Account.debit Account.credit
    Account.update_balance pure raise_if map_err read first write now fresh_id transaction execute
    or_not_found ◌>>=◌ round2 ◌+ℤ◌ ◌-ℤ◌
half_a_satang = refl

deposit-DepositOutcome_example :
    DepositOutcome 1 11 10 (baht 50) db deposited_goal after_deposit.committed
deposit-DepositOutcome_example =
    deposit-DepositOutcome env world after_deposit 1 11 10 (baht 50) deposited_goal deposit_returns

db-HasCents : HasCents db
db-HasCents = ((refl, refl), ((refl, refl), ((refl, refl), tt)))

deposit-total_example :
    (total after_deposit.committed ≡ total db) × HasCents after_deposit.committed
deposit-total_example =
    deposit-total env world after_deposit 1 11 10 (baht 50) deposited_goal db-HasCents (refl, refl)
      deposit_returns

abbrev after_withdrawal : World
after_withdrawal = (withdraw 1 11 (baht 50) env world).1

abbrev withdraw_result : WithdrawResult
withdraw_result = record {
  goal = record goal { saving_amount = baht 50 };
  amount = baht 50;
  fee_charged = false;
  fee_amount = pos 0;
  net_credited = baht 50;
  goal_closed = false;
}

withdraw_returns : withdraw 1 11 (baht 50) env world ≡ (ok withdraw_result, after_withdrawal)
unfolding withdraw withdraw_body withdrawal_allowance compute_withdrawal_fee withdrawal_window
    window_start add_year normalise instant ordinal days_before_year days_before_month days_in_month
    is_leap lock_active_goal kapook_account record_kapook_ledger_pair create_entry
    Goals.find_active_for_update Goals.update_after_withdrawal Goals.update_goal
    Transactions.create_transaction Transactions.count_by_goal_and_types_in_window
    Account.get_primary_account Account.find_primary_by_user_id Account.get_by_id Account.find_by_id
    Account.find_for_update Account.lock_for_update Account.debit Account.credit
    Account.update_balance pure raise_if map_err read first write now fresh_id transaction execute
    or_not_found ◌>>=◌ round2 ◌+ℤ◌ ◌-ℤ◌
withdraw_returns = refl

withdraw-WithdrawOutcome_example :
    WithdrawOutcome 1 11 (baht 50) today db withdraw_result after_withdrawal.committed
withdraw-WithdrawOutcome_example =
    withdraw-WithdrawOutcome env world after_withdrawal 1 11 (baht 50) withdraw_result
      withdraw_returns

withdraw-total_example :
    (total after_withdrawal.committed +ℤ withdraw_result.fee_amount ≡ total db)
    × HasCents after_withdrawal.committed
withdraw-total_example =
    withdraw-total env world after_withdrawal 1 11 (baht 50) withdraw_result db-HasCents
      (refl, refl) withdraw_returns

compute_withdrawal_fee-two_percent_example :
    (compute_withdrawal_fee (pos (75 * 100)) false ≡ (pos 0, pos (75 * 100)))
    × ((m : ℕ) × (compute_withdrawal_fee (pos (75 * 100)) true
          ≡ (pos (m * 100), pos (75 * 100) -ℤ pos (m * 100)))
        × (m * 50 ≤ 75 + 25)
        × (75 < m * 50 + 25))
compute_withdrawal_fee-two_percent_example = compute_withdrawal_fee-two_percent 75

abbrev after_settlement : World
after_settlement = (Purchase.settle_matured_holding 40 env world).1

abbrev receipt : SettlementReceipt
receipt = record {
  holding_id = 40;
  principal = baht 40;
  interest = baht 2;
  total = baht 42;
  primary_account_id = 10;
  primary_balance_after = baht 1042;
  settled_at = today;
}

settlement_returns : Purchase.settle_matured_holding 40 env world ≡ (ok receipt, after_settlement)
unfolding Purchase.settle_matured_holding Purchase.settle_matured_holding_in_tx
    Service.find_holding_for_update Service.mark_holding_settled Service.get_product
    Repository.find_holding_for_update Repository.find_product Repository.mark_settled create_entry
    Account.get_by_id_unscoped Account.get_primary_account Account.find_primary_by_user_id
    Account.find_by_id Account.find_for_update Account.debit Account.credit Account.update_balance
    pure raise_if map_err read first write now fresh_id transaction execute or_not_found ◌>>=◌
    round2 ◌+ℤ◌ ◌-ℤ◌ ◌*ℤ◌
settlement_returns = refl

settle_matured_holding-Settled_example : Settled 40 db db receipt after_settlement.committed
settle_matured_holding-Settled_example =
    settle_matured_holding-Settled env world after_settlement 40 receipt settlement_returns

settle_matured_holding-total_example :
    (total after_settlement.committed ≡ total db +ℤ receipt.interest)
    × HasCents after_settlement.committed
settle_matured_holding-total_example =
    settle_matured_holding-total env world after_settlement 40 receipt db-HasCents (refl, refl)
      (refl, refl) settlement_returns

settle_matured_holding-once_example :
    Purchase.settle_matured_holding 40 env (world_of after_settlement.committed)
    ≢ (ok receipt, after_settlement)
settle_matured_holding-once_example =
    settle_matured_holding-once env env world after_settlement (world_of after_settlement.committed)
      after_settlement 40 receipt receipt settlement_returns refl

abbrev closed_db : Db
closed_db = record db { products = record product { is_active = false } ∷ [] }

settle_matured_holding-inactive_product_example :
    Purchase.settle_matured_holding 40 env (world_of closed_db) ≢ (ok receipt, after_settlement)
settle_matured_holding-inactive_product_example =
    settle_matured_holding-inactive_product env (world_of closed_db) after_settlement 40 holding
      (record product { is_active = false }) receipt refl refl refl
