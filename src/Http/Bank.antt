-- ===== src/Http/Bank.antt =====
-- internal/account/http, internal/salak/http and internal/transaction/http: the handlers and the
-- bodies of their requests and responses.
use gsb_salak_backend.Prelude.{
  ℕ, String, Bool, Option, none, some, List, [], ◌∷◌, ◌++◌, map, ◌==◌, find, if◌then◌else◌,
}
use gsb_salak_backend.Prelude.Int.{ℤ}
use gsb_salak_backend.Prelude.Decimal.{Decimal}
use gsb_salak_backend.Prelude.Digits.{padded_to}
use gsb_salak_backend.Apperror.{Error}
use gsb_salak_backend.Calendar.{Time}
use gsb_salak_backend.Domain.{
  Uuid, Runes, Account, AccountType, Product, Holding, LedgerEntry, EntryType,
}
use gsb_salak_backend.Store.{Exec}
use gsb_salak_backend.Account
use gsb_salak_backend.Salak.Letters.{ticket_start_id, ticket_end_id}
use gsb_salak_backend.Salak.Service
use gsb_salak_backend.Purchase
use gsb_salak_backend.Purchase.{BuySalakReceipt}
use gsb_salak_backend.Http.{
  Response, Decoded, ok_response, require_user_id, with_body, with_param, or_fail,
}

-- account/http/dto.go
pub record AccountResponse : Type 0 where
  pub id : Uuid
  pub account_number : Runes
  pub type : AccountType
  pub balance : Decimal
  pub currency : String
  pub is_primary_account : Bool
  pub created_at : Time

abbrev pub to_account_response : Account → AccountResponse
to_account_response a = record {
  id = a.id;
  account_number = a.account_number;
  type = a.type;
  balance = a.balance;
  currency = a.currency;
  is_primary_account = a.is_primary_account;
  created_at = a.created_at;
}

abbrev pub to_account_responses : List Account → List AccountResponse
to_account_responses = map to_account_response

-- salak/http/dto.go
pub record ProductResponse : Type 0 where
  pub id : Uuid
  pub code : String
  pub name : String
  pub term_months : ℕ
  pub unit_price : Decimal
  pub min_purchase : Decimal
  pub max_purchase : Decimal
  pub step_amount : Decimal

abbrev pub to_product_response : Product → ProductResponse
to_product_response p = record {
  id = p.id;
  code = p.code;
  name = p.name;
  term_months = p.term_months;
  unit_price = p.unit_price;
  min_purchase = p.min_purchase;
  max_purchase = p.max_purchase;
  step_amount = p.step_amount;
}

abbrev pub to_product_responses : List Product → List ProductResponse
to_product_responses = map to_product_response

pub record HoldingResponse : Type 0 where
  pub id : Uuid
  pub account_id : Uuid
  pub product_id : Uuid
  pub product_name : String
  pub units : ℕ
  pub ticket_start : Runes
  pub ticket_end : Runes
  pub purchase_amount : Decimal
  pub purchase_date : Runes
  pub maturity_date : Runes

-- `Format("2006-01-02")` of a year from 0 to 9999.
unfoldable pub format_date : Time → Runes
unfolding padded_to
format_date t = padded_to 4 t.year ++ b'-' ∷ padded_to 2 t.month ++ b'-' ∷ padded_to 2 t.day

-- A Go map from the ids of the products to their names, read: the last product with an id wins, and
-- a missing id gives the empty name.
abbrev pub product_name : List Product → Uuid → String
product_name [] i = ""
product_name (p ∷ ps) i = elim (find (λ q. q.id == i) ps) [
  | none ↦ if p.id == i then p.name else ""
  | some _ ↦ product_name ps i
]

unfoldable pub to_holding_response : List Product → Holding → HoldingResponse
unfolding ticket_start_id ticket_end_id format_date
to_holding_response products h = record {
  id = h.id;
  account_id = h.account_id;
  product_id = h.product_id;
  product_name = product_name products h.product_id;
  units = h.units;
  ticket_start = ticket_start_id h;
  ticket_end = ticket_end_id h;
  purchase_amount = h.purchase_amount;
  purchase_date = format_date h.purchase_date;
  maturity_date = format_date h.maturity_date;
}

-- transaction/http/dto.go
pub record BuySalakRequest : Type 0 where
  pub funding_account_id : Uuid
  pub salak_account_id : Uuid
  pub product_id : Uuid
  pub badge_id : Option Uuid
  pub amount : Decimal

pub record BuySalakResponse : Type 0 where
  pub reference_id : Uuid
  pub product_name : String
  pub units : ℕ
  pub ticket_start : Runes
  pub ticket_end : Runes
  pub amount : Decimal
  pub funding_account_balance_after : Decimal
  pub salak_account_balance_after : Decimal
  pub purchase_date : Time
  pub maturity_date : Time

abbrev pub to_buy_salak_response : BuySalakReceipt → BuySalakResponse
to_buy_salak_response r = record {
  reference_id = r.reference_id;
  product_name = r.product_name;
  units = r.units;
  ticket_start = r.ticket_start;
  ticket_end = r.ticket_end;
  amount = r.amount;
  funding_account_balance_after = r.funding_account_balance_after;
  salak_account_balance_after = r.salak_account_balance_after;
  purchase_date = r.purchase_date;
  maturity_date = r.maturity_date;
}

pub record LedgerEntryResponse : Type 0 where
  pub id : Uuid
  pub account_id : Uuid
  pub holding_id : Option Uuid
  pub type : EntryType
  pub amount : Decimal
  pub balance_after : Decimal
  pub reference_id : Uuid
  pub description : String
  pub created_at : Time

abbrev pub to_ledger_entry_response : LedgerEntry → LedgerEntryResponse
to_ledger_entry_response x = record {
  id = x.id;
  account_id = x.account_id;
  holding_id = x.holding_id;
  type = x.type;
  amount = x.amount;
  balance_after = x.balance_after;
  reference_id = x.reference_id;
  description = x.description;
  created_at = x.created_at;
}

abbrev pub to_ledger_entry_responses : List LedgerEntry → List LedgerEntryResponse
to_ledger_entry_responses = map to_ledger_entry_response

module _ (error_text : Error → String) where
  -- account/http/handler.go
  unfoldable pub list_mine : Option Uuid → Exec (Response (List AccountResponse))
  list_mine context = require_user_id context λ user.
      or_fail error_text (Account.list_by_user user)
        λ accounts. ok_response 200 (to_account_responses accounts)

  unfoldable pub get_by_id : Option Uuid → Option Uuid → Exec (Response AccountResponse)
  get_by_id context id = require_user_id context λ user.
      with_param "invalid account id" id λ account.
        or_fail error_text (Account.get_by_id user account)
          λ a. ok_response 200 (to_account_response a)

  -- salak/http/handler.go: the first two want no user.
  unfoldable pub list_products : Exec (Response (List ProductResponse))
  list_products =
      or_fail error_text Service.list_products
        λ products. ok_response 200 (to_product_responses products)

  unfoldable pub get_product : Option Uuid → Exec (Response ProductResponse)
  get_product id = with_param "invalid product id" id λ product.
      or_fail error_text (Service.get_product product) λ p. ok_response 200 (to_product_response p)

  unfoldable pub list_holdings : Option Uuid → Option Uuid → Exec (Response (List HoldingResponse))
  list_holdings context account_id = require_user_id context λ user.
      with_param "valid account_id query param is required" account_id λ account.
        or_fail error_text (Service.list_holdings_by_account user account) λ holdings.
          or_fail error_text Service.list_products
            λ products. ok_response 200 (map (to_holding_response products) holdings)

  -- transaction/http/handler.go
  unfoldable pub buy_salak :
      Option Uuid → Decoded BuySalakRequest → Exec (Response BuySalakResponse)
  buy_salak context body = require_user_id context λ user. with_body body λ req.
      or_fail error_text
        (Purchase.buy_salak user req.funding_account_id req.salak_account_id req.product_id
          req.badge_id req.amount)
        λ receipt. ok_response 201 (to_buy_salak_response receipt)

  unfoldable pub list_history :
      Option Uuid → Option Uuid → ℤ → ℤ → Exec (Response (List LedgerEntryResponse))
  list_history context account_id limit offset = require_user_id context λ user.
      with_param "valid account_id query param is required" account_id λ account.
        or_fail error_text (Purchase.list_history user account limit offset)
          λ entries. ok_response 200 (to_ledger_entry_responses entries)
