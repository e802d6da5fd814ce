-- ===== src/Purchase/Atomic.antt =====
-- A purchase or a settlement that fails commits nothing.
use gsb_salak_backend.Prelude.{Option, none, some}
use gsb_salak_backend.Prelude.Decimal.{Decimal}
use gsb_salak_backend.Domain.{Uuid, LedgerEntry, Product}
use gsb_salak_backend.Store.Atomic.{
  CommitsNothing, IsAtomic, IsAtomic-bind, IsAtomic-transaction, commits_nothing,
}
use gsb_salak_backend.Account.Atomic.{account_commits_nothing}
use gsb_salak_backend.Salak.Service.Atomic.{salak_commits_nothing}
use gsb_salak_backend.Purchase.{
  create_entry, user_owns_badge, check_badge, validate_salak_side_and_product, mint_and_settle,
  buy_salak, buy_salak_for_kapook, settle_matured_holding_in_tx,
}

pub create_entry-CommitsNothing : (x : LedgerEntry) → CommitsNothing (create_entry x)
unfolding create_entry
create_entry-CommitsNothing x = search commits_nothing

ruleset callees =
    (commits_nothing, account_commits_nothing, salak_commits_nothing, create_entry-CommitsNothing)

check_badge-CommitsNothing : (user : Uuid) (b : Option Uuid) → CommitsNothing (check_badge user b)
unfolding check_badge user_owns_badge
check_badge-CommitsNothing user none = search commits_nothing
check_badge-CommitsNothing user (some b) = search commits_nothing

validate_salak_side_and_product-CommitsNothing :
    (user salak product : Uuid) (amount : Decimal)
    → CommitsNothing (validate_salak_side_and_product user salak product amount)
unfolding validate_salak_side_and_product
validate_salak_side_and_product-CommitsNothing user salak product amount = search callees depth 16

mint_and_settle-CommitsNothing :
    (f s i : Uuid) (amount : Decimal) (p : Product)
    → CommitsNothing (mint_and_settle f s i amount p)
unfolding mint_and_settle
mint_and_settle-CommitsNothing f s i amount p = search callees depth 24

pub buy_salak_for_kapook-CommitsNothing :
    (user kapook salak product : Uuid) (amount : Decimal)
    → CommitsNothing (buy_salak_for_kapook user kapook salak product amount)
unfolding buy_salak_for_kapook
buy_salak_for_kapook-CommitsNothing user kapook salak product amount =
    search (callees, validate_salak_side_and_product-CommitsNothing, mint_and_settle-CommitsNothing)
      depth 16

pub settle_matured_holding_in_tx-CommitsNothing :
    (holding : Uuid) → CommitsNothing (settle_matured_holding_in_tx holding)
unfolding settle_matured_holding_in_tx
settle_matured_holding_in_tx-CommitsNothing holding = search callees depth 40

-- A purchase that fails, at whatever step or statement, leaves the committed tables as they were.
pub buy_salak-IsAtomic :
    (user funding salak product : Uuid) (badge : Option Uuid) (amount : Decimal)
    → IsAtomic (buy_salak user funding salak product badge amount)
unfolding buy_salak
buy_salak-IsAtomic user funding salak product badge amount =
    search
      (
        callees, validate_salak_side_and_product-CommitsNothing, mint_and_settle-CommitsNothing,
        check_badge-CommitsNothing, IsAtomic-bind, IsAtomic-transaction,
      )
      depth 16
