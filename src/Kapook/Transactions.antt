-- ===== src/Kapook/Transactions.antt =====
-- internal/kapook/repository/gorm_transaction_repository.go.
use gsb_salak_backend.Prelude.{
  ℕ, suc, ◌+◌, Bool, true, false, ◌&&◌, Option, none, some, List, [], ◌∷◌, ltb, leb, ◌==◌, find,
  select, take, drop, sort_by, length, if◌then◌else◌,
}
use gsb_salak_backend.Prelude.Int.{pos, leb_ℤ}
use gsb_salak_backend.Prelude.Decimal.{round2}
use gsb_salak_backend.Apperror.{Error, check_violation}
use gsb_salak_backend.Calendar.{Time, instant}
use gsb_salak_backend.Domain.{
  Uuid, Transaction, TransactionType, withdraw, withdraw_with_fee, buy_salak,
}
use gsb_salak_backend.Store.{Db, Exec, Handle, ambient, tx, read, write, now, ◌>>=◌}
use gsb_salak_backend.Salak.Repository.{holding_at}

-- `CreatedAt` is left zero by the callers and set by the ORM.
abbrev pub transaction_check : Transaction → Option Error
transaction_check t = if leb_ℤ (round2 t.amount) (pos 0) then some check_violation else none

abbrev pub add_transaction : Transaction → Time → Db → Db
add_transaction t at d = record d {
  transactions = record t { amount = round2 t.amount; created_at = at } ∷ d.transactions;
}

unfoldable pub create_transaction : Transaction → Exec (Unit {0})
create_transaction t = do at ← now; write tx (λ _. transaction_check t) (add_transaction t at)

-- `type IN (withdraw, withdraw_with_fee)`
abbrev pub counts_as_withdrawal : TransactionType → Bool
counts_as_withdrawal withdraw = true
counts_as_withdrawal withdraw_with_fee = true
counts_as_withdrawal _ = false

abbrev in_window : Uuid → Time → Time → Transaction → Bool
in_window goal from to t =
    (t.goal_id == goal)
    && counts_as_withdrawal t.type
    && leb (instant from) (instant t.created_at)
    && ltb (instant t.created_at) (instant to)

abbrev pub withdrawals_in_window : Uuid → Time → Time → Db → ℕ
withdrawals_in_window goal from to d = length (select (in_window goal from to) d.transactions)

unfoldable pub count_by_goal_and_types_in_window : Handle → Uuid → Time → Time → Exec ℕ
count_by_goal_and_types_in_window h goal from to = read h (withdrawals_in_window goal from to)

unfoldable pub list_by_goal : Uuid → ℕ → ℕ → Exec (List Transaction)
list_by_goal goal limit offset = read ambient λ d. take limit (
    drop offset (
      sort_by (λ s t. leb (instant t.created_at) (instant s.created_at))
        (select (λ t. t.goal_id == goal) d.transactions)))

abbrev pub is_buy_salak : TransactionType → Bool
is_buy_salak buy_salak = true
is_buy_salak _ = false

abbrev pub id_matches : Option Uuid → Uuid → Bool
id_matches none i = false
id_matches (some j) i = j == i

abbrev pub purchase_of : Uuid → Db → Option Transaction
purchase_of holding d =
    find (λ t. id_matches t.holding_id holding && is_buy_salak t.type) d.transactions

-- `FindByHoldingID`: nil, and not an error, for a holding that no goal bought.
unfoldable pub find_by_holding_id : Uuid → Exec (Option Transaction)
find_by_holding_id holding = read ambient (purchase_of holding)

-- The rows of the join with salak.holdings, summed.
abbrev sum_purchases : Db → List Transaction → ℕ × ℕ
sum_purchases d [] = (0, 0)
sum_purchases d (t ∷ ts) =
    let (units, count) = sum_purchases d ts in
    elim t.holding_id [
      | none ↦ (units, count)
      | some i ↦ elim (holding_at i d) [
        | none ↦ (units, count)
        | some h ↦ (units + h.units, suc count)
      ]
    ]

unfoldable pub sum_purchased_units_and_count : Handle → Uuid → Exec (ℕ × ℕ)
sum_purchased_units_and_count h goal =
    read h
      λ d. sum_purchases d (select (λ t. (t.goal_id == goal) && is_buy_salak t.type) d.transactions)
