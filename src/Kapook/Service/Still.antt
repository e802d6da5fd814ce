-- ===== src/Kapook/Service/Still.antt =====
-- Steps of the Kapook service that do not read the clock.
use gsb_salak_backend.Prelude.Decimal.{Decimal}
use gsb_salak_backend.Domain.{Uuid}
use gsb_salak_backend.Store.Frames.{Still, still}
use gsb_salak_backend.Account.Still.{get_by_id-Still}
use gsb_salak_backend.Kapook.Goals.{find_active_for_update}
use gsb_salak_backend.Kapook.Service.{kapook_account, lock_active_goal}
use gsb_salak_backend.Kapook.Service.Buy.{validate_buy_from_goal_accounts}

pub kapook_account-Still : (user i : Uuid) → Still (kapook_account user i)
unfolding kapook_account
kapook_account-Still user i = search (still, get_by_id-Still) depth 10

pub lock_active_goal-Still : (i : Uuid) → Still (lock_active_goal i)
unfolding lock_active_goal find_active_for_update
lock_active_goal-Still i = search still depth 8

pub validate_buy_from_goal_accounts-Still :
    (user kapook salak : Uuid) (amount : Decimal)
    → Still (validate_buy_from_goal_accounts user kapook salak amount)
unfolding validate_buy_from_goal_accounts
validate_buy_from_goal_accounts-Still user kapook salak amount =
    search (still, get_by_id-Still, kapook_account-Still) depth 16
