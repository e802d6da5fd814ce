-- ===== src/Purchase.antt =====
-- internal/transaction: buying a holding, settling it, and the ledger.
pub mod Rules
pub mod Bought
pub mod Outcome
pub mod Settlement
pub mod Once
pub mod Atomic
use gsb_salak_backend.Prelude.{
  ℕ, String, Bool, true, false, not, ◌&&◌, Option, none, some, List, ◌∷◌, ◌==◌, ltb, leb, take,
  drop, select, find, length, sort_by, if◌then◌else◌,
}
use Prim.Native.String.{◌++◌ as append}
use gsb_salak_backend.Prelude.Int.{ℤ, pos, ◌+ℤ◌, ◌*ℤ◌, leb_ℤ, ltb_ℤ, pos_part}
use gsb_salak_backend.Prelude.Decimal.{Decimal, round2}
use gsb_salak_backend.Apperror.{
  Error, check_violation, validation_error, not_found_error, forbidden_error, conflict_error,
  internal_error, with_code,
}
use gsb_salak_backend.Calendar.{Time, instant}
use gsb_salak_backend.Domain.{
  Uuid, Runes, Account, AccountType, Product, Holding, LedgerEntry, EntryType, debit, credit,
  is_type,
}
use gsb_salak_backend.Store.{
  Db, Exec, ambient, tx, pure, lift, raise_if, map_err, read, write, now, fresh_id, transaction,
  ◌>>=◌, ◌>>◌,
}
use gsb_salak_backend.Account
use gsb_salak_backend.Salak.Letters.{ticket_start_id, ticket_end_id}
use gsb_salak_backend.Salak.Service

-- GormLedgerRepository.Create: numeric(18,2) columns, CHECK (amount > 0).
abbrev pub entry_check : LedgerEntry → Option Error
entry_check x = if leb_ℤ (round2 x.amount) (pos 0) then some check_violation else none

abbrev pub stored_entry : LedgerEntry → LedgerEntry
stored_entry x = record x { amount = round2 x.amount; balance_after = round2 x.balance_after }

abbrev pub add_entry : LedgerEntry → Db → Db
add_entry x d = record d { ledger_entries = stored_entry x ∷ d.ledger_entries }

unfoldable pub create_entry : LedgerEntry → Exec (Unit {0})
create_entry x = write tx (λ _. entry_check x) (add_entry x)

-- GormLedgerRepository.FindByAccountID: latest first, a page of them.
unfoldable pub find_entries : Uuid → ℕ → ℕ → Exec (List LedgerEntry)
find_entries account limit offset = read ambient λ d. take limit (
    drop offset (
      sort_by (λ x y. leb (instant y.created_at) (instant x.created_at))
        (select (λ x. x.account_id == account) d.ledger_entries)))

-- badge/service: UserOwnsBadge
unfoldable pub user_owns_badge : Uuid → Uuid → Exec Bool
user_owns_badge user badge =
    read ambient
      λ d. ltb 0 (length (select (λ b. (b.user_id == user) && (b.badge_id == badge)) d.user_badges))

pub record BuySalakReceipt : Type 0 where
  pub reference_id : Uuid
  pub holding_id : Uuid
  pub product_name : String
  pub units : ℕ
  pub ticket_start : Runes
  pub ticket_end : Runes
  pub amount : Decimal
  pub funding_account_balance_after : Decimal
  pub salak_account_balance_after : Decimal
  pub purchase_date : Time
  pub maturity_date : Time

pub record SettlementReceipt : Type 0 where
  pub holding_id : Uuid
  pub principal : Decimal
  pub interest : Decimal
  pub total : Decimal
  pub primary_account_id : Uuid
  pub primary_balance_after : Decimal
  pub settled_at : Time

-- `validateSalakSideAndProduct`
unfoldable pub validate_salak_side_and_product :
    Uuid → Uuid → Uuid → Decimal → Exec (Account × Product)
validate_salak_side_and_product user salak_account product amount = do
  a ← Account.get_by_id user salak_account
  raise_if (not (is_type a.type AccountType.salak))
      (validation_error "salak_account_id must reference a salak-type account")
  p ← Service.get_product product
  lift (Service.validate_purchase p amount)
  Service.ensure_not_draw_day p
  pure (a, p)

-- What `mintAndSettle` writes into both entries.
abbrev pub buy_entry :
    Uuid → Uuid → Uuid → Uuid → EntryType → Decimal → Decimal → String → Time → LedgerEntry
buy_entry i reference account holding type amount balance_after description t = record {
  id = i;
  account_id = account;
  holding_id = some holding;
  type = type;
  amount = amount;
  balance_after = balance_after;
  reference_type = "buy_salak";
  reference_id = reference;
  description = description;
  created_at = t;
}

-- The receipt of `mintAndSettle`.
abbrev pub buy_receipt : Uuid → Holding → String → Decimal → Decimal → Decimal → BuySalakReceipt
buy_receipt reference holding name amount funding_balance salak_balance = record {
  reference_id = reference;
  holding_id = holding.id;
  product_name = name;
  units = holding.units;
  ticket_start = ticket_start_id holding;
  ticket_end = ticket_end_id holding;
  amount = amount;
  funding_account_balance_after = funding_balance;
  salak_account_balance_after = salak_balance;
  purchase_date = holding.purchase_date;
  maturity_date = holding.maturity_date;
}

-- `mintAndSettle`
unfoldable pub mint_and_settle : Uuid → Uuid → Uuid → Decimal → Product → Exec BuySalakReceipt
mint_and_settle funding salak product amount p = do
  funding_balance ← Account.debit funding amount
  holding ← Service.mint_holding salak product amount
  salak_balance ← Account.credit salak amount
  reference ← fresh_id
  t ← now
  let description = append "ซื้อ" p.name
  debit_id ← fresh_id
  credit_id ← fresh_id
  create_entry
      (buy_entry debit_id reference funding holding.id debit amount funding_balance description t)
  create_entry
      (buy_entry credit_id reference salak holding.id credit amount salak_balance description t)
  pure (buy_receipt reference holding p.name amount funding_balance salak_balance)

-- The test of `BuySalak` on an optional badge.
unfoldable pub check_badge : Uuid → Option Uuid → Exec (Unit {0})
check_badge user none = pure tt
check_badge user (some badge) = do
  owns ← map_err (internal_error "failed to check badge ownership") (user_owns_badge user badge)
  raise_if (not owns) (forbidden_error "you do not own the specified badge")

-- `BuySalak`
unfoldable pub buy_salak : Uuid → Uuid → Uuid → Uuid → Option Uuid → Decimal → Exec BuySalakReceipt
buy_salak user funding salak product badge amount = do
  raise_if (funding == salak)
      (validation_error "funding account and salak account must be different")
  f ← Account.get_by_id user funding
  raise_if (not (is_type f.type AccountType.savings))
      (validation_error "funding_account_id must reference a savings-type account")
  sp ← validate_salak_side_and_product user salak product amount
  check_badge user badge
  transaction (mint_and_settle funding sp.0.id product amount sp.1)

-- `BuySalakForKapook`
unfoldable pub buy_salak_for_kapook : Uuid → Uuid → Uuid → Uuid → Decimal → Exec BuySalakReceipt
buy_salak_for_kapook user kapook salak product amount = do
  raise_if (kapook == salak)
      (validation_error "funding account and salak account must be different")
  k ← Account.get_by_id user kapook
  raise_if (not (is_type k.type AccountType.kapook))
      (validation_error "funding_account_id must reference a kapook-type account")
  sp ← validate_salak_side_and_product user salak product amount
  mint_and_settle kapook sp.0.id product amount sp.1

-- The bounds of a page, in both history endpoints. `limit` and `offset` are Go ints.
abbrev pub page_limit : ℤ → ℕ
page_limit n = if leb_ℤ n (pos 0) then 20 else if ltb_ℤ (pos 100) n then 100 else pos_part n

abbrev pub page_offset : ℤ → ℕ
page_offset n = if ltb_ℤ n (pos 0) then 0 else pos_part n

-- `ListHistory`
unfoldable pub list_history : Uuid → Uuid → ℤ → ℤ → Exec (List LedgerEntry)
list_history user account limit offset = do
  Account.get_by_id user account
  map_err (internal_error "failed to list transaction history")
      (find_entries account (page_limit limit) (page_offset offset))

-- The error of `GetPrimaryAccount` is dropped for this one.
abbrev no_primary : Error → Error
no_primary _ =
    with_code (not_found_error "no primary account is on file for this customer")
      "transaction_no_primary_account"

abbrev pub is_settled : Holding → Bool
is_settled h = elim h.settled_at [ none ↦ false | some _ ↦ true ]

abbrev pub settlement_entry :
    Uuid → Uuid → Uuid → Uuid → EntryType → Decimal → Decimal → String → String → Time → LedgerEntry
settlement_entry i reference account holding type amount balance_after kind description t = record {
  id = i;
  account_id = account;
  holding_id = some holding;
  type = type;
  amount = amount;
  balance_after = balance_after;
  reference_type = kind;
  reference_id = reference;
  description = description;
  created_at = t;
}

-- `SettleMaturedHoldingInTx`
unfoldable pub settle_matured_holding_in_tx : Uuid → Exec SettlementReceipt
settle_matured_holding_in_tx holding_id = do
  h ← Service.find_holding_for_update holding_id
  raise_if (is_settled h) (
      with_code (conflict_error "holding has already been settled")
        "transaction_holding_already_settled")
  p ← Service.get_product h.product_id
  let interest = p.maturity_interest_per_unit *ℤ pos h.units
  a ← Account.get_by_id_unscoped h.account_id
  primary ← map_err no_primary (Account.get_primary_account a.user_id)
  salak_balance ← Account.debit h.account_id h.purchase_amount
  principal_balance ← Account.credit primary.id h.purchase_amount
  interest_balance ← Account.credit primary.id interest
  reference ← fresh_id
  t ← now
  i ← fresh_id
  j ← fresh_id
  k ← fresh_id
  create_entry (
      settlement_entry i reference h.account_id h.id debit h.purchase_amount salak_balance
        "salak_maturity" "สลากครบกำหนด - เงินต้น" t)
  create_entry (
      settlement_entry j reference primary.id h.id credit h.purchase_amount principal_balance
        "salak_maturity" "สลากครบกำหนด - เงินต้น" t)
  create_entry (
      settlement_entry k reference primary.id h.id credit interest interest_balance
        "salak_maturity_interest" "สลากครบกำหนด - ดอกเบี้ย" t)
  Service.mark_holding_settled h.id t
  pure (record {
    holding_id = h.id;
    principal = h.purchase_amount;
    interest = interest;
    total = h.purchase_amount +ℤ interest;
    primary_account_id = primary.id;
    primary_balance_after = interest_balance;
    settled_at = t;
  })

-- `SettleMaturedHolding`
unfoldable pub settle_matured_holding : Uuid → Exec SettlementReceipt
settle_matured_holding holding_id = transaction (settle_matured_holding_in_tx holding_id)
