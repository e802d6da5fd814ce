-- ===== src/Kapook/Service/Settlement.antt =====
-- `SettleMaturedHolding` of internal/kapook/service/kapook_service.go.
pub mod Rules
pub mod Backing
use gsb_salak_backend.Prelude.{Option, none, some, if◌then◌else◌}
use gsb_salak_backend.Prelude.Int.{pos, ◌-ℤ◌, leb_ℤ}
use gsb_salak_backend.Prelude.Decimal.{Decimal}
use gsb_salak_backend.Apperror.{internal_error}
use gsb_salak_backend.Calendar.{Time}
use gsb_salak_backend.Domain.{Uuid, Transaction, TransactionType}
use gsb_salak_backend.Store.{Exec, pure, map_err, fresh_id, transaction, ◌>>=◌, ◌>>◌}
use gsb_salak_backend.Purchase.{SettlementReceipt, settle_matured_holding_in_tx}
use gsb_salak_backend.Kapook.Goals.{find_goal_by_id, update_after_expiration}
use gsb_salak_backend.Kapook.Transactions.{find_by_holding_id, create_transaction}

-- `decimal.Max(decimal.Zero, d)`
abbrev pub max_zero : Decimal → Decimal
max_zero d = if leb_ℤ d (pos 0) then pos 0 else d

abbrev pub expiration_transaction : Uuid → Decimal → Uuid → Uuid → Uuid → Time → Transaction
expiration_transaction i amount kapook goal holding t = record {
  id = i;
  type = TransactionType.salak_expiration;
  amount = amount;
  kapook_account_id = kapook;
  goal_id = goal;
  savings_account_id = none;
  holding_id = some holding;
  is_automatic_purchase = none;
  created_at = t;
}

-- What follows the settlement, for a holding that a goal bought.
unfoldable pub expire : Uuid → SettlementReceipt → Option Transaction → Exec SettlementReceipt
expire holding receipt none = pure receipt
expire holding receipt (some bought) = do
  g ←
      map_err (internal_error "failed to look up goal for matured holding")
        (find_goal_by_id bought.goal_id)
  map_err (internal_error "failed to update goal after expiration")
      (update_after_expiration g.id (max_zero (g.salak_amount -ℤ receipt.principal)))
  i ← fresh_id
  map_err (internal_error "failed to record salak_expiration transaction") (
      create_transaction (
        expiration_transaction i receipt.principal bought.kapook_account_id g.id holding
          receipt.settled_at))
  pure receipt

unfoldable pub settle_body : Uuid → Exec SettlementReceipt
settle_body holding = do
  receipt ← settle_matured_holding_in_tx holding
  bought ←
      map_err (internal_error "failed to look up kapook transaction for holding")
        (find_by_holding_id holding)
  expire holding receipt bought

-- `SettleMaturedHolding`
unfoldable pub settle_matured_holding : Uuid → Exec SettlementReceipt
settle_matured_holding holding = transaction (settle_body holding)
