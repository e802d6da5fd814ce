-- ===== src/Account/Still.antt =====
-- Calls of the account service that do not read the clock.
use gsb_salak_backend.Prelude.Decimal.{Decimal}
use gsb_salak_backend.Domain.{Uuid}
use gsb_salak_backend.Store.Frames.{Still, still}
use gsb_salak_backend.Account.{
  get_by_id, get_by_id_unscoped, get_primary_account, list_by_user, debit, find_by_id,
  find_by_user_id, find_for_update, find_primary_by_user_id, update_balance,
}

pub get_by_id-Still : (user i : Uuid) → Still (get_by_id user i)
unfolding get_by_id find_by_id
get_by_id-Still user i = search still depth 10

pub get_by_id_unscoped-Still : (i : Uuid) → Still (get_by_id_unscoped i)
unfolding get_by_id_unscoped find_by_id
get_by_id_unscoped-Still i = search still depth 8

pub list_by_user-Still : (user : Uuid) → Still (list_by_user user)
unfolding list_by_user find_by_user_id
list_by_user-Still user = search still depth 8

pub get_primary_account-Still : (user : Uuid) → Still (get_primary_account user)
unfolding get_primary_account find_primary_by_user_id
get_primary_account-Still user = search still depth 8

pub debit-Still : (i : Uuid) (amount : Decimal) → Still (debit i amount)
unfolding debit find_for_update update_balance
debit-Still i amount = search still depth 14
