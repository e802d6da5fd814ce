-- ===== src/Kapook/Worker/Quiet.antt =====
-- The lookups that the worker makes change nothing.
use gsb_salak_backend.Prelude.{ℕ, zero, suc}
use gsb_salak_backend.Calendar.{Time, next_day}
use gsb_salak_backend.Domain.{Uuid, Product}
use gsb_salak_backend.Store.Quiet.{
  Quiet, quiet, Quiet-bind, Quiet-map_err, Quiet-read, Quiet-if, Quiet-pure,
}
use gsb_salak_backend.Account.{
  get_by_id, get_by_id_unscoped, list_by_user, find_by_id, find_by_user_id,
}
use gsb_salak_backend.Salak.Repository.{find_product, is_draw_day}
use gsb_salak_backend.Salak.Service.{get_product, search_date, next_available_date}
use gsb_salak_backend.Kapook.Service.{kapook_account}
use gsb_salak_backend.Kapook.Service.Buy.{validate_buy_from_goal_accounts}

pub get_by_id-Quiet : (user i : Uuid) → Quiet (get_by_id user i)
unfolding get_by_id find_by_id
get_by_id-Quiet user i = search quiet

pub get_by_id_unscoped-Quiet : (i : Uuid) → Quiet (get_by_id_unscoped i)
unfolding get_by_id_unscoped find_by_id
get_by_id_unscoped-Quiet i = search quiet

pub list_by_user-Quiet : (user : Uuid) → Quiet (list_by_user user)
unfolding list_by_user find_by_user_id
list_by_user-Quiet user = search quiet

pub get_product-Quiet : (i : Uuid) → Quiet (get_product i)
unfolding get_product find_product
get_product-Quiet i = search quiet

pub search_date-Quiet : (n : ℕ) (p : Product) (t : Time) → Quiet (search_date n p t)
unfolding search_date is_draw_day
search_date-Quiet zero p t = search quiet
search_date-Quiet (suc n) p t =
    Quiet-bind _ _ (Quiet-map_err _ _ (Quiet-read _ _))
      λ drawn. Quiet-if drawn _ _ (search_date-Quiet n p (next_day t)) (Quiet-pure t)

pub next_available_date-Quiet : (p : Product) → Quiet (next_available_date p)
unfolding next_available_date
next_available_date-Quiet p = search (quiet, search_date-Quiet)

pub validate_buy_from_goal_accounts-Quiet :
    (user kapook salak : Uuid) (amount : _)
    → Quiet (validate_buy_from_goal_accounts user kapook salak amount)
unfolding validate_buy_from_goal_accounts kapook_account
validate_buy_from_goal_accounts-Quiet user kapook salak amount =
    search (quiet, get_by_id-Quiet) depth 16
