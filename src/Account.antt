-- ===== src/Account.antt =====
-- internal/account: repository/gorm_account_repo.go and service/account_service.go.
pub mod Still
pub mod Rules
pub mod Opening
pub mod Returns
pub mod Totals
pub mod Atomic
use gsb_salak_backend.Prelude.{
  ℕ, String, Bool, true, false, not, ◌&&◌, Option, none, some, List, ◌==◌, leb, find, select,
  update, sort_by, if◌then◌else◌,
}
use gsb_salak_backend.Prelude.Int.{pos, ◌+ℤ◌, ◌-ℤ◌, ltb_ℤ}
use gsb_salak_backend.Prelude.Decimal.{Decimal, round2}
use gsb_salak_backend.Apperror.{
  Error, check_violation, validation_error, not_found_error, internal_error, is_record_not_found,
}
use gsb_salak_backend.Calendar.{instant}
use gsb_salak_backend.Domain.{Uuid, Account, AccountType}
use gsb_salak_backend.Store.{
  Db, Exec, Handle, ambient, tx, pure, raise_if, map_err, read, first, write, ◌>>=◌, ◌>>◌,
}

-- The row with a primary key, and the tables with a new balance in it.
abbrev pub account_at : Uuid → Db → Option Account
account_at i d = find (λ a. a.id == i) d.accounts

abbrev pub set_balance : Uuid → Decimal → Db → Db
set_balance i b d = record d {
  accounts = update (λ a. a.id == i) (λ a. record a { balance = b }) d.accounts;
}

-- `errors.Is(err, gorm.ErrRecordNotFound)` in a service: not found, or an internal error.
abbrev pub lookup_error : String → String → Error → Error
lookup_error missing failed x =
    if is_record_not_found x then not_found_error missing else internal_error failed x

-- `FindByID`
unfoldable pub find_by_id : Uuid → Exec Account
find_by_id i = first ambient (account_at i)

-- `FindByUserID`
abbrev pub accounts_of : Uuid → Db → List Account
accounts_of user d =
    sort_by (λ a b. leb (instant a.created_at) (instant b.created_at))
      (select (λ a. a.user_id == user) d.accounts)

unfoldable pub find_by_user_id : Uuid → Exec (List Account)
find_by_user_id user = read ambient (accounts_of user)

-- `FindForUpdate`
unfoldable pub find_for_update : Uuid → Exec Account
find_for_update i = first tx (account_at i)

-- `FindPrimaryByUserID`
abbrev pub primary_of : Uuid → Db → Option Account
primary_of user d = find (λ a. (a.user_id == user) && a.is_primary_account) d.accounts

unfoldable pub find_primary_by_user_id : Uuid → Exec Account
find_primary_by_user_id user = first ambient (primary_of user)

-- CHECK (balance >= 0), on the row that is updated if there is one.
abbrev pub balance_check : Uuid → Decimal → Db → Option Error
balance_check i b d = elim (account_at i d) [
  | none ↦ none
  | some a ↦ if ltb_ℤ b (pos 0) then some check_violation else none
]

-- `UpdateBalance`. The column is numeric(18,2).
unfoldable pub update_balance : Uuid → Decimal → Exec (Unit {0})
update_balance i b = write tx (balance_check i (round2 b)) (set_balance i (round2 b))

unfoldable pub list_by_user : Uuid → Exec (List Account)
list_by_user user = map_err (internal_error "failed to list accounts") (find_by_user_id user)

unfoldable pub get_by_id_unscoped : Uuid → Exec Account
get_by_id_unscoped i =
    map_err (lookup_error "account not found" "failed to look up account") (find_by_id i)

unfoldable pub get_by_id : Uuid → Uuid → Exec Account
get_by_id user i = do
  a ← map_err (lookup_error "account not found" "failed to look up account") (find_by_id i)
  raise_if (not (a.user_id == user)) (not_found_error "account not found")
  pure a

unfoldable pub get_primary_account : Uuid → Exec Account
get_primary_account user =
    map_err (lookup_error "no primary account for this user" "failed to look up primary account")
      (find_primary_by_user_id user)

unfoldable pub lock_for_update : Uuid → Exec Account
lock_for_update i =
    map_err (lookup_error "account not found" "failed to lock account") (find_for_update i)

unfoldable pub debit : Uuid → Decimal → Exec Decimal
debit i amount = do
  a ← map_err (lookup_error "account not found" "failed to lock account") (find_for_update i)
  let new_balance = a.balance -ℤ amount
  raise_if (ltb_ℤ new_balance (pos 0)) (validation_error "insufficient funds")
  map_err (internal_error "failed to debit account") (update_balance i new_balance)
  pure new_balance

unfoldable pub credit : Uuid → Decimal → Exec Decimal
credit i amount = do
  a ← map_err (lookup_error "account not found" "failed to lock account") (find_for_update i)
  let new_balance = a.balance +ℤ amount
  map_err (internal_error "failed to credit account") (update_balance i new_balance)
  pure new_balance
