-- ===== src/Tests/Web.antt =====
-- Requests to the small bank.
use gsb_salak_backend.Prelude.{false, ◌≡◌, ◌↔◌, refl, some, [], ◌∷◌}
use gsb_salak_backend.Prelude.Int.{◌+ℤ◌, ◌-ℤ◌}
use gsb_salak_backend.Prelude.Decimal.{baht, round2}
use gsb_salak_backend.Domain.{Goal, Product}
use gsb_salak_backend.Store
use gsb_salak_backend.Store.{World, Db, ok}
use gsb_salak_backend.Account
use gsb_salak_backend.Salak.Repository.{product_at}
use gsb_salak_backend.Purchase
use gsb_salak_backend.Kapook.Goals
use gsb_salak_backend.Kapook.Transactions
use gsb_salak_backend.Kapook.Service
use gsb_salak_backend.Kapook.Service.Deposit
use gsb_salak_backend.Kapook.Service.Withdraw
use gsb_salak_backend.Kapook.Service.Withdraw.{WithdrawResult}
use gsb_salak_backend.Kapook.Service.Buy
use gsb_salak_backend.Http.{data_response, error_response, valid}
use gsb_salak_backend.Http.Kapook.{
  DepositRequest, GoalResponse, WithdrawRequest, WithdrawResponse, BuyFromGoalRequest,
  BuyFromGoalResponse, to_goal_response, to_withdraw_response, to_buy_from_goal_response, deposit,
  withdraw, buy_from_goal,
}
use gsb_salak_backend.Http.Kapook.Movements.{
  IsShown, movements-data_iff, movements-inactive_product,
}
use gsb_salak_backend.Http.Router.{
  Wiring, deposit as deposit_route, settle_holding, serve_user, serve_admin, user_handler,
  admin_handler,
}
use gsb_salak_backend.Auth.{parse, parse_admin}
use gsb_salak_backend.Http.Replies.{IsAuthenticated}
use gsb_salak_backend.Http.Router.Guarded.{IsRefused, serve-data_iff, serve_admin-customer_token}
use gsb_salak_backend.Tests.{env, world, world_of, db, goal, product}
use gsb_salak_backend.Tests.Access.{
  bcrypt, signer, admin_signer, jwt, admin_jwt, admin_jwt-Refuses, secrets_differ, after_signing,
  signing_returns,
}

abbrev request : DepositRequest
request = record { kapook_account_id = 11; savings_account_id = 10; amount = baht 50 }

movements-data_iff_example :
    ((req : DepositRequest) (a : GoalResponse)
      → (deposit (λ _. "") 0 (some 1) (valid req) env world ≡ (ok (data_response 200 a), world))
        ↔ IsShown 0
            (Deposit.deposit 1 req.kapook_account_id req.savings_account_id req.amount)
            (λ g. g)
            (λ _. to_goal_response)
            env
            world
            a
            world)
    × ((req : WithdrawRequest) (a : WithdrawResponse)
        → (withdraw (λ _. "") 0 (some 1) (valid req) env world ≡ (ok (data_response 200 a), world))
          ↔ IsShown 0
              (Withdraw.withdraw 1 req.kapook_account_id req.amount)
              (λ r. r.goal)
              to_withdraw_response
              env
              world
              a
              world)
    × ((req : BuyFromGoalRequest) (a : BuyFromGoalResponse)
        → (buy_from_goal (λ _. "") 0 (some 1) (valid req) env world
            ≡ (ok (data_response 201 a), world))
          ↔ IsShown 0
              (Buy.buy_from_goal 1 req.kapook_account_id req.salak_account_id req.amount)
              (λ r. r.goal)
              to_buy_from_goal_response
              env
              world
              a
              world)
movements-data_iff_example = movements-data_iff (λ _. "") 0 1 env world world

abbrev closed : Product
closed = record product { is_active = false }

abbrev closed_world : World
closed_world = world_of (record db { products = closed ∷ [] })

abbrev after_deposit : World
after_deposit = (Deposit.deposit 1 11 10 (baht 50) env closed_world).1

abbrev deposited_goal : Goal
deposited_goal = record goal { saving_amount = baht 150 }

deposit_returns :
    Deposit.deposit 1 11 10 (baht 50) env closed_world ≡ (ok deposited_goal, after_deposit)
unfolding Deposit.deposit Deposit.deposit_body Deposit.stamp_reached Service.lock_active_goal
    Service.kapook_account Service.record_kapook_ledger_pair Purchase.create_entry
    Goals.find_active_for_update Goals.update_saving_amount Goals.update_goal
    Goals.mark_goal_reached Transactions.create_transaction Account.get_by_id Account.find_by_id
    Account.find_for_update Account.lock_for_update Account.debit Account.credit
    Account.update_balance Store.pure Store.raise_if Store.map_err Store.read Store.first
    Store.write Store.now Store.fresh_id Store.transaction Store.execute Store.or_not_found
    Store.◌>>=◌ round2 ◌+ℤ◌ ◌-ℤ◌
deposit_returns = refl

closed_found : product_at 20 after_deposit.committed ≡ some closed
unfolding Deposit.deposit Deposit.deposit_body Deposit.stamp_reached Service.lock_active_goal
    Service.kapook_account Service.record_kapook_ledger_pair Purchase.create_entry
    Goals.find_active_for_update Goals.update_saving_amount Goals.update_goal
    Goals.mark_goal_reached Transactions.create_transaction Account.get_by_id Account.find_by_id
    Account.find_for_update Account.lock_for_update Account.debit Account.credit
    Account.update_balance Store.pure Store.raise_if Store.map_err Store.read Store.first
    Store.write Store.now Store.fresh_id Store.transaction Store.execute Store.or_not_found
    Store.◌>>=◌ round2 ◌+ℤ◌ ◌-ℤ◌
closed_found = refl

movements-inactive_product_example :
    deposit (λ _. "") 0 (some 1) (valid request) env closed_world ≡ (
      ok (error_response 400 "salak product is not available for purchase" ""),
      Store.counted after_deposit,
    )
movements-inactive_product_example =
    (movements-inactive_product (λ _. "") 0 1 env closed_world after_deposit closed (λ n. refl)
        refl).0
      request deposited_goal deposit_returns closed_found

abbrev wiring : Wiring
wiring = record {
  error_text = λ _. "";
  bcrypt = bcrypt;
  jwt = jwt;
  admin_jwt = admin_jwt;
  signer = signer;
  admin_signer = admin_signer;
  savings_starting_balance = baht 1000;
  countdown = 0;
}

serve-data_iff_example :
    ((serve_user wiring (deposit_route (valid request)) "Bearer token" env world
        ≡ (ok (data_response 200 tt), after_deposit))
      ↔ IsAuthenticated
          (parse jwt signer)
          "Bearer token"
          (λ user. user_handler wiring (deposit_route (valid request)) (some user))
          env
          world
          (data_response 200 tt)
          after_deposit)
    × ((serve_admin wiring (settle_holding (some 40)) "Bearer token" env world
          ≡ (ok (data_response 200 tt), after_deposit))
        ↔ IsAuthenticated
            (parse_admin admin_jwt admin_signer)
            "Bearer token"
            (λ _. admin_handler wiring (settle_holding (some 40)))
            env
            world
            (data_response 200 tt)
            after_deposit)
serve-data_iff_example =
    serve-data_iff wiring (deposit_route (valid request)) (settle_holding (some 40)) "Bearer token"
      env world after_deposit 200

serve_admin-customer_token_example :
    IsRefused
      (serve_admin wiring (settle_holding (some 40)) "Bearer token" env world)
      world
      "invalid or expired token"
serve_admin-customer_token_example =
    serve_admin-customer_token wiring (settle_holding (some 40)) 1 "token" "Bearer token" env env
      world after_signing world admin_jwt-Refuses secrets_differ signing_returns (refl, refl, refl)
