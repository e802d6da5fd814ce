-- ===== src/Account/Atomic.antt =====
-- The account service commits nothing by itself.
use gsb_salak_backend.Prelude.Decimal.{Decimal}
use gsb_salak_backend.Domain.{Uuid}
use gsb_salak_backend.Store.Atomic.{CommitsNothing, commits_nothing}
use gsb_salak_backend.Account.{
  get_by_id, get_by_id_unscoped, get_primary_account, list_by_user, lock_for_update, debit, credit,
  find_by_id, find_by_user_id, find_for_update, find_primary_by_user_id, update_balance,
}

pub get_by_id-CommitsNothing : (user i : Uuid) → CommitsNothing (get_by_id user i)
unfolding get_by_id find_by_id
get_by_id-CommitsNothing user i = search commits_nothing

pub get_by_id_unscoped-CommitsNothing : (i : Uuid) → CommitsNothing (get_by_id_unscoped i)
unfolding get_by_id_unscoped find_by_id
get_by_id_unscoped-CommitsNothing i = search commits_nothing

pub get_primary_account-CommitsNothing : (user : Uuid) → CommitsNothing (get_primary_account user)
unfolding get_primary_account find_primary_by_user_id
get_primary_account-CommitsNothing user = search commits_nothing

pub list_by_user-CommitsNothing : (user : Uuid) → CommitsNothing (list_by_user user)
unfolding list_by_user find_by_user_id
list_by_user-CommitsNothing user = search commits_nothing

pub lock_for_update-CommitsNothing : (i : Uuid) → CommitsNothing (lock_for_update i)
unfolding lock_for_update find_for_update
lock_for_update-CommitsNothing i = search commits_nothing

pub debit-CommitsNothing : (i : Uuid) (amount : Decimal) → CommitsNothing (debit i amount)
unfolding debit find_for_update update_balance
debit-CommitsNothing i amount = search commits_nothing depth 12

pub credit-CommitsNothing : (i : Uuid) (amount : Decimal) → CommitsNothing (credit i amount)
unfolding credit find_for_update update_balance
credit-CommitsNothing i amount = search commits_nothing depth 12

pub ruleset account_commits_nothing = (
  get_by_id-CommitsNothing, get_by_id_unscoped-CommitsNothing, get_primary_account-CommitsNothing,
  list_by_user-CommitsNothing, lock_for_update-CommitsNothing, debit-CommitsNothing,
  credit-CommitsNothing,
)
