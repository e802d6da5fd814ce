-- ===== src/Kapook/Service/Atomic.antt =====
-- Every movement of money of the Kapook service commits all of its work or none of it.
use gsb_salak_backend.Prelude.{Bool, Option, none, some}
use gsb_salak_backend.Prelude.Decimal.{Decimal}
use gsb_salak_backend.Calendar.{Time}
use gsb_salak_backend.Domain.{Uuid, Goal, Transaction}
use gsb_salak_backend.Store.{Handle}
use gsb_salak_backend.Store.Atomic.{
  CommitsNothing, IsAtomic, IsAtomic-bind, IsAtomic-transaction, commits_nothing,
}
use gsb_salak_backend.Account.Atomic.{account_commits_nothing}
use gsb_salak_backend.Salak.Service.Atomic.{salak_commits_nothing}
use gsb_salak_backend.Purchase.{SettlementReceipt}
use gsb_salak_backend.Purchase.Atomic.{
  create_entry-CommitsNothing, buy_salak_for_kapook-CommitsNothing,
  settle_matured_holding_in_tx-CommitsNothing,
}
use gsb_salak_backend.Kapook.Goals.{
  find_active_for_update, update_goal, update_saving_amount, mark_goal_reached,
  update_after_withdrawal, update_after_purchase, update_after_expiration, find_goal_by_id,
}
use gsb_salak_backend.Kapook.Transactions.{
  create_transaction, count_by_goal_and_types_in_window, find_by_holding_id,
}
use gsb_salak_backend.Kapook.Service.{
  kapook_account, lock_active_goal, LedgerPair, record_kapook_ledger_pair, withdrawal_allowance,
}
use gsb_salak_backend.Kapook.Service.Deposit.{stamp_reached, deposit_body, deposit}
use gsb_salak_backend.Kapook.Service.Withdraw.{withdraw_body, withdraw}
use gsb_salak_backend.Kapook.Service.Buy.{
  validate_buy_from_goal_accounts, buy_from_goal_core, buy_from_goal, buy_from_goal_in_tx,
}
use gsb_salak_backend.Kapook.Service.Settlement.{expire, settle_body, settle_matured_holding}

kapook_account-CommitsNothing : (user i : Uuid) → CommitsNothing (kapook_account user i)
unfolding kapook_account
kapook_account-CommitsNothing user i = search (commits_nothing, account_commits_nothing)

lock_active_goal-CommitsNothing : (i : Uuid) → CommitsNothing (lock_active_goal i)
unfolding lock_active_goal find_active_for_update
lock_active_goal-CommitsNothing i = search commits_nothing

pub update_goal-CommitsNothing : (i : Uuid) (f : Goal → Goal) → CommitsNothing (update_goal i f)
unfolding update_goal
update_goal-CommitsNothing i f = search commits_nothing

create_transaction-CommitsNothing : (t : Transaction) → CommitsNothing (create_transaction t)
unfolding create_transaction
create_transaction-CommitsNothing t = search commits_nothing

ruleset callees = (
  commits_nothing, account_commits_nothing, salak_commits_nothing, create_entry-CommitsNothing,
  kapook_account-CommitsNothing, lock_active_goal-CommitsNothing, update_goal-CommitsNothing,
  create_transaction-CommitsNothing, buy_salak_for_kapook-CommitsNothing,
  settle_matured_holding_in_tx-CommitsNothing,
)

record_kapook_ledger_pair-CommitsNothing :
    (p : LedgerPair) → CommitsNothing (record_kapook_ledger_pair p)
unfolding record_kapook_ledger_pair
record_kapook_ledger_pair-CommitsNothing p = search callees depth 16

withdrawal_allowance-CommitsNothing :
    (h : Handle) (g : Goal) → CommitsNothing (withdrawal_allowance h g)
unfolding withdrawal_allowance count_by_goal_and_types_in_window
withdrawal_allowance-CommitsNothing h g = search commits_nothing

stamp_reached-CommitsNothing :
    (g : Goal) (x : Decimal) (t : Time) → CommitsNothing (stamp_reached g x t)
unfolding stamp_reached mark_goal_reached
stamp_reached-CommitsNothing g x t = search callees depth 8

deposit_body-CommitsNothing :
    (kapook savings : Uuid) (amount : Decimal) → CommitsNothing (deposit_body kapook savings amount)
unfolding deposit_body update_saving_amount
deposit_body-CommitsNothing kapook savings amount =
    search (callees, record_kapook_ledger_pair-CommitsNothing, stamp_reached-CommitsNothing) depth
      24

withdraw_body-CommitsNothing :
    (kapook savings : Uuid) (amount : Decimal)
    → CommitsNothing (withdraw_body kapook savings amount)
unfolding withdraw_body update_after_withdrawal
withdraw_body-CommitsNothing kapook savings amount =
    search (callees, record_kapook_ledger_pair-CommitsNothing, withdrawal_allowance-CommitsNothing)
      depth 24

validate-CommitsNothing :
    (user kapook salak : Uuid) (amount : Decimal)
    → CommitsNothing (validate_buy_from_goal_accounts user kapook salak amount)
unfolding validate_buy_from_goal_accounts
validate-CommitsNothing user kapook salak amount = search callees depth 12

pub buy_from_goal_core-CommitsNothing :
    (user kapook salak : Uuid) (amount : Decimal) (is_automatic : Bool)
    → CommitsNothing (buy_from_goal_core user kapook salak amount is_automatic)
unfolding buy_from_goal_core update_after_purchase
buy_from_goal_core-CommitsNothing user kapook salak amount is_automatic = search callees depth 24

-- The worker's variant leaves the commit to the worker.
pub buy_from_goal_in_tx-CommitsNothing :
    (user kapook salak : Uuid) (amount : Decimal)
    → CommitsNothing (buy_from_goal_in_tx user kapook salak amount)
unfolding buy_from_goal_in_tx
buy_from_goal_in_tx-CommitsNothing user kapook salak amount =
    search (callees, validate-CommitsNothing, buy_from_goal_core-CommitsNothing)

expire-CommitsNothing :
    (holding : Uuid) (r : SettlementReceipt) (t : Option Transaction)
    → CommitsNothing (expire holding r t)
unfolding expire find_goal_by_id update_after_expiration
expire-CommitsNothing holding r none = search callees
expire-CommitsNothing holding r (some t) = search callees depth 16

settle_body-CommitsNothing : (holding : Uuid) → CommitsNothing (settle_body holding)
unfolding settle_body find_by_holding_id
settle_body-CommitsNothing holding = search (callees, expire-CommitsNothing) depth 8

ruleset atomic = (IsAtomic-bind, IsAtomic-transaction)

-- A deposit that fails, at whatever step or statement, leaves the committed tables as they were.
pub deposit-IsAtomic :
    (user kapook savings : Uuid) (amount : Decimal) → IsAtomic (deposit user kapook savings amount)
unfolding deposit
deposit-IsAtomic user kapook savings amount =
    search (atomic, callees, deposit_body-CommitsNothing) depth 12

-- A withdrawal that fails, at whatever step or statement, leaves the committed tables as they were.
pub withdraw-IsAtomic :
    (user kapook : Uuid) (amount : Decimal) → IsAtomic (withdraw user kapook amount)
unfolding withdraw
withdraw-IsAtomic user kapook amount =
    search (atomic, callees, withdraw_body-CommitsNothing) depth 12

-- A purchase from a goal that fails, at whatever step or statement, leaves the committed tables as they were.
pub buy_from_goal-IsAtomic :
    (user kapook salak : Uuid) (amount : Decimal)
    → IsAtomic (buy_from_goal user kapook salak amount)
unfolding buy_from_goal
buy_from_goal-IsAtomic user kapook salak amount =
    search (atomic, callees, validate-CommitsNothing, buy_from_goal_core-CommitsNothing)

-- A settlement of a holding, with its goal's part, that fails, at whatever step or statement, leaves the committed tables as they were.
pub settle_matured_holding-IsAtomic : (holding : Uuid) → IsAtomic (settle_matured_holding holding)
unfolding settle_matured_holding
settle_matured_holding-IsAtomic holding =
    IsAtomic-transaction _ (settle_body-CommitsNothing holding)
