-- ===== src/Tests/Expiry.antt =====
-- The settlement of a holding that the goal of the small bank bought.
use gsb_salak_backend.Prelude.{◌≡◌, ◌≢◌, refl, true, some, none, [], ◌∷◌, arith}
use gsb_salak_backend.Prelude.Int.{◌+ℤ◌, ◌-ℤ◌, ◌*ℤ◌}
use gsb_salak_backend.Prelude.Decimal.{baht, round2}
use gsb_salak_backend.Calendar.{date}
use gsb_salak_backend.Domain.{
  Uuid, Account, Goal, Holding, Transaction, TransactionType, available_balance,
}
use gsb_salak_backend.Store.{
  World, Db, ok, pure, raise_if, map_err, read, first, write, now, fresh_id, transaction, execute,
  or_not_found, ◌>>=◌,
}
use gsb_salak_backend.Account
use gsb_salak_backend.Account.{account_at, primary_of}
use gsb_salak_backend.Salak.Service
use gsb_salak_backend.Salak.Repository
use gsb_salak_backend.Salak.Repository.{holding_at}
use gsb_salak_backend.Purchase.{create_entry, SettlementReceipt, settle_matured_holding_in_tx}
use gsb_salak_backend.Kapook.Goals
use gsb_salak_backend.Kapook.Goals.{goal_at}
use gsb_salak_backend.Kapook.Transactions
use gsb_salak_backend.Kapook.Service.Settlement.{expire, settle_body, settle_matured_holding}
use gsb_salak_backend.Kapook.Service.Settlement.Rules.{
  SettlementOutcome, settle_matured_holding-SettlementOutcome,
}
use gsb_salak_backend.Kapook.Service.Settlement.Backing.{settle_matured_holding-raises_available}
use gsb_salak_backend.Tests.{env, world_of, db, goal, today}

abbrev bought : Transaction
bought = record {
  id = 60;
  type = TransactionType.buy_salak;
  amount = baht 40;
  kapook_account_id = 11;
  goal_id = 30;
  savings_account_id = none;
  holding_id = some 40;
  is_automatic_purchase = some true;
  created_at = date 2025 2 1;
}

abbrev buyer : Goal
buyer = record goal { salak_amount = baht 40 }

abbrev bought_db : Db
bought_db = record db { goals = buyer ∷ []; transactions = bought ∷ [] }

abbrev after_expiry : World
after_expiry = (settle_matured_holding 40 env (world_of bought_db)).1

abbrev receipt : SettlementReceipt
receipt = record {
  holding_id = 40;
  principal = baht 40;
  interest = baht 2;
  total = baht 42;
  primary_account_id = 10;
  primary_balance_after = baht 1042;
  settled_at = today;
}

expiry_returns : settle_matured_holding 40 env (world_of bought_db) ≡ (ok receipt, after_expiry)
unfolding settle_matured_holding settle_body expire settle_matured_holding_in_tx
    Service.find_holding_for_update Service.mark_holding_settled Service.get_product
    Repository.find_holding_for_update Repository.find_product Repository.mark_settled create_entry
    Goals.find_goal_by_id Goals.update_after_expiration Goals.update_goal
    Transactions.find_by_holding_id Transactions.create_transaction Account.get_by_id_unscoped
    Account.get_primary_account Account.find_primary_by_user_id Account.find_by_id
    Account.find_for_update Account.debit Account.credit Account.update_balance pure raise_if
    map_err read first write now fresh_id transaction execute or_not_found ◌>>=◌ round2 ◌+ℤ◌ ◌-ℤ◌
    ◌*ℤ◌
expiry_returns = refl

settle_matured_holding-SettlementOutcome_example :
    SettlementOutcome 40 bought_db receipt after_expiry.committed
settle_matured_holding-SettlementOutcome_example =
    settle_matured_holding-SettlementOutcome env (world_of bought_db) after_expiry 40 receipt
      expiry_returns

settle_matured_holding-raises_available_example :
    ((g' : Goal) × (goal_at 30 after_expiry.committed ≡ some g')
      × (available_balance g' ≡ available_balance buyer +ℤ receipt.principal))
    × ((h : Holding) × (a : Account) × (p : Account) × (holding_at 40 bought_db ≡ some h)
        × (account_at h.account_id bought_db ≡ some a)
        × (primary_of a.user_id bought_db ≡ some p)
        × ((i : Uuid)
            → i ≢ h.account_id
            → i ≢ p.id
            → account_at i after_expiry.committed ≡ account_at i bought_db))
settle_matured_holding-raises_available_example =
    settle_matured_holding-raises_available env (world_of bought_db) after_expiry 40 receipt bought
      buyer expiry_returns refl refl (refl, refl) (refl, refl) (omega arith)
