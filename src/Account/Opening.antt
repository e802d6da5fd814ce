-- ===== src/Account/Opening.antt =====
-- `NextAccountNumber` and `Create` of internal/account, and the constraints of account.accounts.
pub mod Rules
use gsb_salak_backend.Prelude.{
  ℕ, Bool, true, false, not, ◌&&◌, ◌||◌, Option, none, some, List, [], ◌∷◌, ◌++◌, ◌==◌, ltb, find,
  length, if◌then◌else◌,
}
use gsb_salak_backend.Prelude.Int.{pos, ltb_ℤ}
use gsb_salak_backend.Prelude.Decimal.{Decimal, round2}
use gsb_salak_backend.Prelude.Digits.{padded_to}
use gsb_salak_backend.Apperror.{
  Error, check_violation, unique_violation, foreign_key_violation, data_too_long, internal_error,
}
use gsb_salak_backend.Calendar.{Time}
use gsb_salak_backend.Domain.{Uuid, Runes, Account, AccountType, User, is_type}
use gsb_salak_backend.Account.{primary_of}
use gsb_salak_backend.Store.{
  Db, Exec, tx, pure, map_err, write, now, fresh_id, next_value, ◌>>=◌, ◌>>◌,
}

-- `accountNumberPrefixes`: "61", "62", "63".
abbrev pub prefix_of : AccountType → Runes
prefix_of AccountType.savings = b'6' ∷ b'1' ∷ []
prefix_of AccountType.salak = b'6' ∷ b'2' ∷ []
prefix_of AccountType.kapook = b'6' ∷ b'3' ∷ []

-- `fmt.Sprintf("%s%08d", prefix, next)`
unfoldable pub account_number : AccountType → ℕ → Runes
unfolding padded_to
account_number t n = prefix_of t ++ padded_to 8 n

-- `NextAccountNumber`. Every type has a sequence.
unfoldable pub next_account_number : AccountType → Exec Runes
next_account_number t = do n ← next_value tx t; pure (account_number t n)

abbrev same_text : Runes → Runes → Bool
same_text [] [] = true
same_text (r ∷ rs) (s ∷ ss) = (r == s) && same_text rs ss
same_text _ _ = false

abbrev pub has_number : Runes → Db → Option Account
has_number number d = find (λ a. same_text a.account_number number) d.accounts

abbrev pub user_at : Uuid → Db → Option User
user_at i d = find (λ u. u.id == i) d.users

abbrev exists : {A : Type 0} → Option A → Bool
exists none = false
exists (some _) = true

-- varchar(20), the CHECKs of a row, the unique number, the unique primary account of a user, and
-- the reference to the user.
abbrev pub account_check : Account → Db → Option Error
account_check a d =
    if ltb 20 (length a.account_number)
    then some data_too_long
    else if ltb_ℤ a.balance (pos 0)
        || (a.is_primary_account && not (is_type a.type AccountType.savings))
    then some check_violation
    else if exists (has_number a.account_number d)
        || (a.is_primary_account && exists (primary_of a.user_id d))
    then some unique_violation
    else if exists (user_at a.user_id d)
    then none
    else some foreign_key_violation

abbrev pub stored_account : Account → Account
stored_account a = record a { balance = round2 a.balance }

abbrev pub add_account : Account → Db → Db
add_account a d = record d { accounts = stored_account a ∷ d.accounts }

-- GormAccountRepository.Create: the ORM stamps the row.
unfoldable pub create_account : Account → Exec Account
create_account a = do
  t ← now
  let stamped : Account = record a { created_at = t }
  write tx (account_check (stored_account stamped)) (add_account stamped)
  pure stamped

-- The zero time.Time, which the ORM replaces.
abbrev pub zero_time : Time
zero_time = record { year = 1; month = 1; day = 1; nanos = 0 }

abbrev pub new_account : Uuid → Uuid → Runes → AccountType → Decimal → Bool → Time → Account
new_account i user number type balance is_primary t = record {
  id = i;
  user_id = user;
  account_number = number;
  type = type;
  balance = balance;
  currency = "THB";
  is_primary_account = is_primary;
  created_at = t;
}

-- `Create`
unfoldable pub create : Uuid → AccountType → Decimal → Bool → Exec Account
create user type starting_balance is_primary = do
  number ← map_err (internal_error "failed to generate account number") (next_account_number type)
  i ← fresh_id
  map_err (internal_error "failed to create account")
      (create_account (new_account i user number type starting_balance is_primary zero_time))
