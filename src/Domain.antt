-- ===== src/Domain.antt =====
-- The rows of the tables: the structs of internal/*/domain. A uuid is a number that is only
-- compared. `UpdatedAt`, which the ORM sets and no code reads, is left out, and so are the
-- `TableName` methods.
use gsb_salak_backend.Prelude.{ℕ, String, Bool, true, false, Option, List}
use gsb_salak_backend.Prelude.Int.{◌-ℤ◌}
use gsb_salak_backend.Prelude.Decimal.{Decimal}
use gsb_salak_backend.Calendar.{Time}

abbrev pub Uuid : Type 0
Uuid = ℕ

-- A text that the code takes apart or builds, by its runes.
abbrev pub Runes : Type 0
Runes = List ℕ

-- account/domain/account.go
pub data AccountType : Type 0 where
  savings salak kapook : AccountType

abbrev pub is_type : AccountType → AccountType → Bool
is_type savings savings = true
is_type salak salak = true
is_type kapook kapook = true
is_type _ _ = false

pub record Account : Type 0 where
  pub id : Uuid
  pub user_id : Uuid
  pub account_number : Runes
  pub type : AccountType
  pub balance : Decimal
  pub currency : String
  pub is_primary_account : Bool
  pub created_at : Time

-- admin/domain/admin.go
pub record Admin : Type 0 where
  pub id : Uuid
  pub username : String
  pub password_hash : String
  pub created_at : Time

-- user/domain/user.go
pub record User : Type 0 where
  pub id : Uuid
  pub username : String
  pub password_hash : String
  pub full_name : String
  pub created_at : Time

-- badge/domain/badge.go
pub record UserBadge : Type 0 where
  pub id : Uuid
  pub user_id : Uuid
  pub badge_id : Uuid
  pub acquired_at : Time

-- salak/domain/product.go
pub record Product : Type 0 where
  pub id : Uuid
  pub code : String
  pub name : String
  pub term_months : ℕ
  pub unit_price : Decimal
  pub min_purchase : Decimal
  pub max_purchase : Decimal
  pub step_amount : Decimal
  pub is_active : Bool
  pub maturity_interest_per_unit : Decimal
  pub created_at : Time

-- salak/domain/draw_date.go
pub record DrawDate : Type 0 where
  pub id : Uuid
  pub product_id : Uuid
  pub draw_date : Time
  pub created_at : Time

-- salak/domain/holding.go
pub record Holding : Type 0 where
  pub id : Uuid
  pub account_id : Uuid
  pub product_id : Uuid
  pub units : ℕ
  pub ticket_letter : Runes
  pub ticket_start : ℕ
  pub ticket_end : ℕ
  pub purchase_amount : Decimal
  pub purchase_date : Time
  pub maturity_date : Time
  pub settled_at : Option Time
  pub created_at : Time

pub record TicketSequence : Type 0 where
  pub product_id : Uuid
  pub next_ticket_letter : Runes
  pub next_ticket_number : ℕ

-- transaction/domain/ledger_entry.go
pub data EntryType : Type 0 where
  debit credit : EntryType

pub record LedgerEntry : Type 0 where
  pub id : Uuid
  pub account_id : Uuid
  pub holding_id : Option Uuid
  pub type : EntryType
  pub amount : Decimal
  pub balance_after : Decimal
  pub reference_type : String
  pub reference_id : Uuid
  pub description : String
  pub created_at : Time

-- kapook/domain/terms_acceptance.go
pub record TermsAcceptance : Type 0 where
  pub id : Uuid
  pub user_id : Uuid
  pub accepted_at : Time

-- kapook/domain/goal.go
pub record Goal : Type 0 where
  pub id : Uuid
  pub account_id : Uuid
  pub product_id : Uuid
  pub goal_amount : Decimal
  pub saving_amount : Decimal
  pub salak_amount : Decimal
  pub is_active : Bool
  pub goal_reached_at : Option Time
  pub auto_purchase_deferred_until : Option Time
  pub auto_purchase_attempts : ℕ
  pub auto_purchase_last_error : Option String
  pub auto_purchase_last_attempted_at : Option Time
  pub created_at : Time

-- `Goal.AvailableBalance`
abbrev pub available_balance : Goal → Decimal
available_balance g = g.saving_amount -ℤ g.salak_amount

-- kapook/domain/transaction.go
pub data TransactionType : Type 0 where
  deposit withdraw withdraw_with_fee buy_salak salak_expiration : TransactionType

pub record Transaction : Type 0 where
  pub id : Uuid
  pub type : TransactionType
  pub amount : Decimal
  pub kapook_account_id : Uuid
  pub goal_id : Uuid
  pub savings_account_id : Option Uuid
  pub holding_id : Option Uuid
  pub is_automatic_purchase : Option Bool
  pub created_at : Time
