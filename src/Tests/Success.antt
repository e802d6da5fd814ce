-- ===== src/Tests/Success.antt =====
-- The theorems that say when a method returns, on the small bank.
use gsb_salak_backend.Prelude.{[], ◌∷◌, inl, ◌≡◌, ◌↔◌, refl, false, arith}
use gsb_salak_backend.Prelude.Int.{◌+ℤ◌, ◌-ℤ◌}
use gsb_salak_backend.Prelude.Decimal.{baht}
use gsb_salak_backend.Calendar.{
  Time, date, next_day, normalise, instant, ordinal, days_before_year, days_before_month,
  days_in_month, is_leap,
}
use gsb_salak_backend.Domain.{Goal}
use gsb_salak_backend.Store.{World, Db, ok}
use gsb_salak_backend.Store.Returns.{IsHealthy}
use gsb_salak_backend.Salak.Service.{validate_purchase, truncate_to_date, next_available_date}
use gsb_salak_backend.Salak.Service.Rules.{
  IsSold, IsFirstFree, days_after, validate_purchase_iff, next_available_date-IsFirstFree,
}
use gsb_salak_backend.Salak.Repository.{draw_day_in, TicketRange, reserve_ticket_range}
use gsb_salak_backend.Salak.Repository.Rules.{Reserved}
use gsb_salak_backend.Salak.Repository.Returns.{reserve_ticket_range-returns}
use gsb_salak_backend.Kapook.Service.Deposit.{deposit}
use gsb_salak_backend.Kapook.Service.Deposit.Rules.{DepositOutcome}
use gsb_salak_backend.Kapook.Service.Deposit.Returns.{IsAllowed, deposit-returns}
use gsb_salak_backend.Kapook.Service.Withdraw.{WithdrawResult, withdraw}
use gsb_salak_backend.Kapook.Service.Withdraw.Rules.{WithdrawOutcome}
use gsb_salak_backend.Kapook.Service.Withdraw.Returns
use gsb_salak_backend.Kapook.Service.Withdraw.Returns.{withdraw-returns}
use gsb_salak_backend.Tests.{
  today, env, world, world_of, db, sequence, goal, product, savings, kapook,
}

env-IsHealthy : IsHealthy env
env-IsHealthy n = refl

deposit-IsAllowed : IsAllowed 1 11 10 (baht 50) db
unfolding ◌+ℤ◌ ◌-ℤ◌
deposit-IsAllowed = record {
  goal = goal;
  from = savings;
  to = kapook;
  differ = omega arith;
  active = refl;
  by_id = refl;
  from_row = refl;
  from_own = refl;
  from_type = refl;
  to_row = refl;
  to_own = refl;
  to_type = refl;
  positive = omega arith;
  whole = (refl, refl);
  saving_whole = (refl, refl);
  enough = omega arith;
  to_pos = omega arith;
  salak_pos = omega arith;
  salak_le = omega arith;
  within_goal = omega arith;
}

deposit-returns_example :
    (g' : Goal) × (w' : World) × (deposit 1 11 10 (baht 50) env world ≡ (ok g', w'))
    × DepositOutcome 1 11 10 (baht 50) db g' w'.committed
deposit-returns_example =
    deposit-returns env world 1 11 10 (baht 50) env-IsHealthy refl deposit-IsAllowed

withdrawal-IsAllowed : Returns.IsAllowed 1 11 (baht 50) db
unfolding ◌-ℤ◌
withdrawal-IsAllowed = record {
  goal = goal;
  from = kapook;
  primary = savings;
  differ = omega arith;
  active = refl;
  by_id = refl;
  from_row = refl;
  from_own = refl;
  from_type = refl;
  primary_row = refl;
  by_primary_id = refl;
  positive = omega arith;
  whole = (refl, refl);
  saving_whole = (refl, refl);
  enough = omega arith;
  primary_pos = omega arith;
  goal_pos = omega arith;
  salak_pos = omega arith;
  saving_le = omega arith;
  within_available = omega arith;
  full_once_reached = refl;
}

withdraw-returns_example :
    (r : WithdrawResult) × (w' : World) × (withdraw 1 11 (baht 50) env world ≡ (ok r, w'))
    × WithdrawOutcome 1 11 (baht 50) today db r w'.committed
withdraw-returns_example =
    withdraw-returns env world 1 11 (baht 50) env-IsHealthy refl withdrawal-IsAllowed

validate_purchase_iff_example :
    (validate_purchase product (baht 60) ≡ ok tt) ↔ IsSold product (baht 60)
validate_purchase_iff_example = validate_purchase_iff product (baht 60)

abbrev draw_db : Db
draw_db = record db {
  draw_dates =
      record { id = 50; product_id = 20; draw_date = date 2026 3 2; created_at = date 2025 1 1 }
      ∷ [];
}

after_the_draw :
    draw_day_in 20
      (days_after (next_day (truncate_to_date (env.clock (world_of draw_db).readings))) 1)
      draw_db
    ≡ false
unfolding next_day normalise instant ordinal days_before_year days_before_month days_in_month
    is_leap
after_the_draw = refl

next_available_date-IsFirstFree_example :
    (u : Time) × (w' : World) × (next_available_date product env (world_of draw_db) ≡ (ok u, w'))
    × IsFirstFree product (truncate_to_date (env.clock (world_of draw_db).readings)) draw_db u
next_available_date-IsFirstFree_example =
    next_available_date-IsFirstFree env (world_of draw_db) product 1 env-IsHealthy refl
      (omega arith) after_the_draw

reserve_ticket_range-returns_example :
    (r : TicketRange) × (w' : World) × (reserve_ticket_range 20 3 env world ≡ (ok r, w'))
    × Reserved 20 3 world.working r w'.working
reserve_ticket_range-returns_example =
    reserve_ticket_range-returns env world 20 3 sequence (0x0E01 ∷ []) 2 env-IsHealthy refl
      (omega arith) refl (inl (refl, refl, omega arith)) (omega arith)
