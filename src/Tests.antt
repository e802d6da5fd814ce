-- ===== src/Tests.antt =====
-- A small bank on which the theorems are applied: one customer with a savings, a kapook and a salak account, a
-- goal, a product and a holding.
mod Money
mod Tickets
mod Guards
mod Success
mod Pass
mod Purchases
mod Access
mod Customers
mod Web
mod Seeding
mod Expiry
use gsb_salak_backend.Prelude.{ℕ, ◌+◌, Bool, true, false, none, some, List, [], ◌∷◌}
use gsb_salak_backend.Prelude.Int.{pos}
use gsb_salak_backend.Prelude.Decimal.{baht}
use gsb_salak_backend.Calendar.{Time, date}
use gsb_salak_backend.Domain.{Account, AccountType, Product, Holding, TicketSequence, Goal}
use gsb_salak_backend.Store.{Db, Env, World}

abbrev pub today : Time
today = date 2026 3 1

abbrev pub env : Env
env = record { fails = λ _. false; new_id = λ n. 100 + n; clock = λ _. today }

abbrev pub savings : Account
savings = record {
  id = 10;
  user_id = 1;
  account_number = b'0' ∷ b'2' ∷ [];
  type = AccountType.savings;
  balance = baht 1000;
  currency = "THB";
  is_primary_account = true;
  created_at = date 2025 1 1;
}

abbrev pub kapook : Account
kapook = record savings {
  id = 11;
  type = AccountType.kapook;
  balance = baht 100;
  is_primary_account = false;
}

abbrev pub salak : Account
salak = record savings {
  id = 12;
  type = AccountType.salak;
  balance = baht 40;
  is_primary_account = false;
}

abbrev pub product : Product
product = record {
  id = 20;
  code = "S1";
  name = "Salak";
  term_months = 12;
  unit_price = baht 20;
  min_purchase = baht 40;
  max_purchase = baht 1000;
  step_amount = baht 20;
  is_active = true;
  maturity_interest_per_unit = baht 1;
  created_at = date 2025 1 1;
}

abbrev pub goal : Goal
goal = record {
  id = 30;
  account_id = 11;
  product_id = 20;
  goal_amount = baht 500;
  saving_amount = baht 100;
  salak_amount = pos 0;
  is_active = true;
  goal_reached_at = none;
  auto_purchase_deferred_until = none;
  auto_purchase_attempts = 0;
  auto_purchase_last_error = none;
  auto_purchase_last_attempted_at = none;
  created_at = date 2025 12 31;
}

abbrev pub holding : Holding
holding = record {
  id = 40;
  account_id = 12;
  product_id = 20;
  units = 2;
  ticket_letter = 0x0E01 ∷ [];
  ticket_start = 0;
  ticket_end = 1;
  purchase_amount = baht 40;
  purchase_date = date 2025 2 1;
  maturity_date = date 2026 1 31;
  settled_at = none;
  created_at = date 2025 2 1;
}

abbrev pub sequence : TicketSequence
sequence = record { product_id = 20; next_ticket_letter = 0x0E01 ∷ []; next_ticket_number = 2 }

abbrev pub db : Db
db = record {
  users = [];
  admins = [];
  accounts = savings ∷ kapook ∷ salak ∷ [];
  user_badges = [];
  products = product ∷ [];
  draw_dates = [];
  ticket_sequences = sequence ∷ [];
  holdings = holding ∷ [];
  ledger_entries = [];
  terms_acceptances = [];
  goals = goal ∷ [];
  transactions = [];
}

abbrev pub world_of : Db → World
world_of d = record {
  committed = d;
  working = d;
  aborted = false;
  statements = 0;
  issued = 0;
  readings = 0;
  numbers = λ _. 1;
}

abbrev pub world : World
world = world_of db
