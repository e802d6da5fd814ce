-- ===== src/Tests/Purchases.antt =====
-- Purchases on the small bank.
use gsb_salak_backend.Prelude.{[], ◌∷◌, ◌≡◌, refl, false, none}
use gsb_salak_backend.Prelude.Int.{pos, ◌+ℤ◌, ◌-ℤ◌, ◌<ℤ◌}
use gsb_salak_backend.Prelude.Decimal.{baht, round2}
use gsb_salak_backend.Calendar.{
  previous_day, add_months, normalise, instant, ordinal, days_before_year, days_before_month,
  days_in_month, is_leap,
}
use gsb_salak_backend.Domain.{AccountType, Holding}
use gsb_salak_backend.Store.{
  World, ok, pure, lift, raise_if, map_err, read, first, write, now, fresh_id, transaction, execute,
  or_not_found, ◌>>=◌,
}
use gsb_salak_backend.Account
use gsb_salak_backend.Account.Totals.{total, HasCents}
use gsb_salak_backend.Salak.Letters
use gsb_salak_backend.Salak.Service
use gsb_salak_backend.Salak.Service.{minted_holding}
use gsb_salak_backend.Salak.Repository
use gsb_salak_backend.Purchase
use gsb_salak_backend.Purchase.{BuySalakReceipt, buy_receipt, buy_salak}
use gsb_salak_backend.Purchase.Outcome.{BuyOutcome, buy_salak-BuyOutcome}
use gsb_salak_backend.Kapook.Goals
use gsb_salak_backend.Kapook.Transactions
use gsb_salak_backend.Kapook.Service.{kapook_account, lock_active_goal}
use gsb_salak_backend.Kapook.Service.Backing.{IsBacked, StaysBacked, movements-StaysBacked}
use gsb_salak_backend.Kapook.Service.Buy
use gsb_salak_backend.Kapook.Service.Buy.{BuyFromGoalResult, buy_from_goal}
use gsb_salak_backend.Kapook.Service.Buy.Rules.{BoughtFromGoal, buy_from_goal-BoughtFromGoal}
use gsb_salak_backend.Kapook.Service.Buy.Totals.{buy-total}
use gsb_salak_backend.Tests.{env, world, db, goal, kapook, today}

abbrev bought_holding : Holding
bought_holding =
    minted_holding 100 12 20 (baht 40) 2 (record { letter = 0x0E01 ∷ []; start = 2; end = 3 }) today
      12

abbrev receipt : BuySalakReceipt
receipt = buy_receipt 101 bought_holding "Salak" (baht 40) (baht 960) (baht 80)

abbrev after_buying : World
after_buying = (buy_salak 1 10 12 20 none (baht 40) env world).1

buying_returns : buy_salak 1 10 12 20 none (baht 40) env world ≡ (ok receipt, after_buying)
unfolding buy_salak Purchase.check_badge Purchase.validate_salak_side_and_product
    Purchase.mint_and_settle Purchase.create_entry Service.get_product Service.validate_purchase
    Service.ensure_not_draw_day Service.mint_holding Repository.find_product Repository.is_draw_day
    Repository.reserve_ticket_range Repository.place Repository.update_sequence
    Repository.create_holding Letters.ticket_start_id Letters.ticket_end_id Letters.padded
    Account.get_by_id Account.find_by_id Account.find_for_update Account.debit Account.credit
    Account.update_balance pure lift raise_if map_err read first write now fresh_id transaction
    execute or_not_found ◌>>=◌ round2 previous_day add_months normalise instant ordinal
    days_before_year days_before_month days_in_month is_leap ◌+ℤ◌ ◌-ℤ◌
buying_returns = refl

buy_salak-BuyOutcome_example :
    BuyOutcome AccountType.savings 1 10 12 20
      (baht 40)
      today
      today
      db
      db
      receipt
      after_buying.committed
buy_salak-BuyOutcome_example =
    buy_salak-BuyOutcome env world after_buying 1 10 12 20 none (baht 40) receipt buying_returns

abbrev after_goal_purchase : World
after_goal_purchase = (buy_from_goal 1 11 12 (baht 40) env world).1

abbrev goal_result : BuyFromGoalResult
goal_result = record {
  goal = record goal { salak_amount = baht 40 };
  receipt = buy_receipt 101 bought_holding "Salak" (baht 40) (baht 60) (baht 80);
  goal_completed = false;
}

goal_purchase_returns :
    buy_from_goal 1 11 12 (baht 40) env world ≡ (ok goal_result, after_goal_purchase)
unfolding buy_from_goal Buy.validate_buy_from_goal_accounts Buy.buy_from_goal_core kapook_account
    lock_active_goal Goals.find_active_for_update Goals.update_after_purchase Goals.update_goal
    Transactions.create_transaction Purchase.buy_salak_for_kapook
    Purchase.validate_salak_side_and_product Purchase.mint_and_settle Purchase.create_entry
    Service.get_product Service.validate_purchase Service.ensure_not_draw_day Service.mint_holding
    Repository.find_product Repository.is_draw_day Repository.reserve_ticket_range Repository.place
    Repository.update_sequence Repository.create_holding Letters.ticket_start_id
    Letters.ticket_end_id Letters.padded Account.get_by_id Account.find_by_id
    Account.find_for_update Account.debit Account.credit Account.update_balance pure lift raise_if
    map_err read first write now fresh_id transaction execute or_not_found ◌>>=◌ round2 previous_day
    add_months normalise instant ordinal days_before_year days_before_month days_in_month is_leap
    ◌+ℤ◌ ◌-ℤ◌
goal_purchase_returns = refl

buy_from_goal-BoughtFromGoal_example :
    (pos 0 <ℤ baht 40)
    × BoughtFromGoal 1 11 12
        (baht 40)
        false
        today
        today
        db
        db
        goal_result
        after_goal_purchase.committed
buy_from_goal-BoughtFromGoal_example =
    buy_from_goal-BoughtFromGoal env world after_goal_purchase 1 11 12 (baht 40) goal_result
      goal_purchase_returns

db-HasCents : HasCents db
db-HasCents = ((refl, refl), ((refl, refl), ((refl, refl), tt)))

buy-total_example :
    (total after_goal_purchase.committed ≡ total db) × HasCents after_goal_purchase.committed
buy-total_example =
    (buy-total env world after_goal_purchase 1 11 12 (baht 40) db-HasCents (refl, refl)).1
      goal_result goal_purchase_returns

goal-IsBacked : IsBacked 11 30 db goal
unfolding ◌-ℤ◌
goal-IsBacked = (refl, (refl, refl), (refl, refl), (kapook, refl, refl))

movements-StaysBacked_example : StaysBacked 11 30 after_goal_purchase.committed
movements-StaysBacked_example =
    (movements-StaysBacked env world after_goal_purchase 1 11 (baht 40) goal refl goal-IsBacked
        (refl, refl)).2
      12 goal_result goal_purchase_returns
