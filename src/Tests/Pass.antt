-- ===== src/Tests/Pass.antt =====
-- A pass of the worker over the small bank, whose goal has been reached.
use gsb_salak_backend.Prelude.{suc, ◌≡◌, refl, some, none, [], ◌∷◌}
use gsb_salak_backend.Prelude.Int.{◌+ℤ◌, ◌-ℤ◌}
use gsb_salak_backend.Prelude.Decimal.{baht, round2}
use gsb_salak_backend.Calendar.{
  date, previous_day, add_months, normalise, instant, ordinal, days_before_year, days_before_month,
  days_in_month, is_leap,
}
use gsb_salak_backend.Store.{
  World, Db, ok, pure, lift, attempt, raise_if, map_err, read, first, write, now, fresh_id,
  transaction, savepoint, execute, or_not_found, ◌>>=◌,
}
use gsb_salak_backend.Account
use gsb_salak_backend.Salak.Letters
use gsb_salak_backend.Salak.Service
use gsb_salak_backend.Salak.Repository
use gsb_salak_backend.Purchase
use gsb_salak_backend.Kapook.Goals
use gsb_salak_backend.Kapook.Transactions
use gsb_salak_backend.Kapook.Service.{kapook_account, lock_active_goal}
use gsb_salak_backend.Kapook.Service.Buy
use gsb_salak_backend.Kapook.Worker.{
  Summary, purchased, run_once, run_body, process_all, process_goal, buy_all, conclude, or_fail,
}
use gsb_salak_backend.Kapook.Worker.Rules.{Reported, run_once-Reported}
use gsb_salak_backend.Kapook.Worker.Pass.{PassFrom, run_once-Pass}
use gsb_salak_backend.Tests.{env, world_of, db, goal, savings, kapook, salak, today}

abbrev reached_db : Db
reached_db = record db {
  accounts = savings ∷ record kapook { balance = baht 500 } ∷ salak ∷ [];
  goals = record goal { saving_amount = baht 500; goal_reached_at = some (date 2026 2 1) } ∷ [];
}

abbrev after_pass : World
after_pass = (run_once 0 env (world_of reached_db)).1

abbrev summary : Summary
summary = record {
  claimed = 1;
  results = record { goal_id = 30; account_id = 11; outcome = purchased; error = none } ∷ [];
}

pass_returns : run_once 0 env (world_of reached_db) ≡ (ok summary, after_pass)
unfolding run_once run_body process_all process_goal buy_all conclude or_fail
    Buy.buy_from_goal_in_tx Buy.validate_buy_from_goal_accounts Buy.buy_from_goal_core
    kapook_account lock_active_goal Goals.claim_due_goals Goals.find_active_for_update
    Goals.update_after_purchase Goals.update_goal Transactions.create_transaction
    Purchase.buy_salak_for_kapook Purchase.validate_salak_side_and_product Purchase.mint_and_settle
    Purchase.create_entry Service.get_product Service.validate_purchase Service.ensure_not_draw_day
    Service.mint_holding Repository.find_product Repository.is_draw_day
    Repository.reserve_ticket_range Repository.place Repository.update_sequence
    Repository.create_holding Letters.ticket_start_id Letters.ticket_end_id Letters.padded
    Account.list_by_user Account.find_by_user_id Account.get_by_id Account.get_by_id_unscoped
    Account.find_by_id Account.find_for_update Account.debit Account.credit Account.update_balance
    pure lift attempt raise_if map_err read first write now fresh_id transaction savepoint execute
    or_not_found ◌>>=◌ round2 previous_day add_months normalise instant ordinal days_before_year
    days_before_month days_in_month is_leap ◌+ℤ◌ ◌-ℤ◌
pass_returns = refl

run_once-Reported_example : Reported 0 today reached_db summary
run_once-Reported_example =
    run_once-Reported env (world_of reached_db) after_pass 0 summary pass_returns

run_once-Pass_example :
    PassFrom env
      (Goals.due_goals 0 (instant today) (Service.truncate_to_date today) 20 reached_db)
      reached_db
      (suc (world_of reached_db).readings)
      summary.results
      after_pass.committed
run_once-Pass_example = run_once-Pass env (world_of reached_db) after_pass 0 summary pass_returns
