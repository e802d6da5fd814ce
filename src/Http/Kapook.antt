-- ===== src/Http/Kapook.antt =====
-- internal/kapook/http: the handlers and the bodies of their requests and responses. Times are left
-- as they are in the bodies.
pub mod Movements
use gsb_salak_backend.Prelude.{ℕ, String, Bool, true, Option, none, some, List, map}
use gsb_salak_backend.Prelude.Int.{ℤ}
use gsb_salak_backend.Prelude.Decimal.{Decimal}
use gsb_salak_backend.Apperror.{Error}
use gsb_salak_backend.Calendar.{Time}
use gsb_salak_backend.Domain.{Uuid, Runes, Goal, TransactionType}
use gsb_salak_backend.Store.{Exec, Result, ok, pure, ◌>>=◌}
use gsb_salak_backend.Kapook.Service.Goals
use gsb_salak_backend.Kapook.Service.Goals.{GoalSnapshot, HistoryEntry}
use gsb_salak_backend.Kapook.Service.Deposit
use gsb_salak_backend.Kapook.Service.Withdraw
use gsb_salak_backend.Kapook.Service.Withdraw.{WithdrawResult, WithdrawalStatus, WithdrawalQuote}
use gsb_salak_backend.Kapook.Service.Buy
use gsb_salak_backend.Kapook.Service.Buy.{BuyFromGoalResult}
use gsb_salak_backend.Http.{
  Response, Decoded, ok_response, bad_request, require_user_id, with_body, with_param, or_fail,
}

-- dto.go
pub record TermsStatusResponse : Type 0 where
  pub accepted : Bool

pub record CreateGoalRequest : Type 0 where
  pub account_id : Uuid
  pub product_id : Uuid
  pub goal_amount : Decimal

pub record DepositRequest : Type 0 where
  pub kapook_account_id : Uuid
  pub savings_account_id : Uuid
  pub amount : Decimal

pub record GoalResponse : Type 0 where
  pub id : Uuid
  pub account_id : Uuid
  pub product_id : Uuid
  pub goal_amount : Decimal
  pub saving_amount : Decimal
  pub salak_amount : Decimal
  pub is_active : Bool
  pub goal_reached_at : Option Time
  pub auto_purchase_deferred_until : Option Time
  pub created_at : Time
  pub available_balance : Decimal
  pub target_reached : Bool
  pub countdown_remaining_seconds : Option ℕ
  pub purchased_units : ℕ
  pub purchased_count : ℕ
  pub buy_eligible : Bool
  pub auto_purchase_attempts : ℕ
  pub auto_purchase_last_error : String

abbrev pub to_goal_response : GoalSnapshot → GoalResponse
to_goal_response snap = record {
  id = snap.goal.id;
  account_id = snap.goal.account_id;
  product_id = snap.goal.product_id;
  goal_amount = snap.goal.goal_amount;
  saving_amount = snap.goal.saving_amount;
  salak_amount = snap.goal.salak_amount;
  is_active = snap.goal.is_active;
  goal_reached_at = snap.goal.goal_reached_at;
  auto_purchase_deferred_until = snap.goal.auto_purchase_deferred_until;
  created_at = snap.goal.created_at;
  available_balance = snap.available;
  target_reached = snap.target_reached;
  countdown_remaining_seconds = snap.countdown_remaining_seconds;
  purchased_units = snap.purchased_units;
  purchased_count = snap.purchased_count;
  buy_eligible = snap.buy_eligible;
  auto_purchase_attempts = snap.auto_purchase_attempts;
  auto_purchase_last_error = snap.auto_purchase_last_error;
}

pub record WithdrawRequest : Type 0 where
  pub kapook_account_id : Uuid
  pub amount : Decimal

pub record WithdrawResponse : Type 0 where
  pub goal : GoalResponse
  pub amount : Decimal
  pub fee_charged : Bool
  pub fee_amount : Decimal
  pub net_credited : Decimal

abbrev pub to_withdraw_response : WithdrawResult → GoalSnapshot → WithdrawResponse
to_withdraw_response r snap = record {
  goal = to_goal_response snap;
  amount = r.amount;
  fee_charged = r.fee_charged;
  fee_amount = r.fee_amount;
  net_credited = r.net_credited;
}

pub record WithdrawalStatusResponse : Type 0 where
  pub window_start : Time
  pub window_end : Time
  pub free_withdrawals_used : ℕ
  pub free_withdrawals_remaining : ℕ
  pub next_withdrawal_is_free : Bool
  pub quoted_fee_amount : Option Decimal
  pub quoted_net_amount : Option Decimal

abbrev quoted : (WithdrawalQuote → Decimal) → Option WithdrawalQuote → Option Decimal
quoted f none = none
quoted f (some q) = some (f q)

abbrev pub to_withdrawal_status_response : WithdrawalStatus → WithdrawalStatusResponse
to_withdrawal_status_response s = record {
  window_start = s.window_start;
  window_end = s.window_end;
  free_withdrawals_used = s.free_withdrawals_used;
  free_withdrawals_remaining = s.free_withdrawals_remaining;
  next_withdrawal_is_free = s.next_withdrawal_is_free;
  quoted_fee_amount = quoted (λ q. q.fee_amount) s.quote;
  quoted_net_amount = quoted (λ q. q.net_amount) s.quote;
}

pub record BuyFromGoalRequest : Type 0 where
  pub kapook_account_id : Uuid
  pub salak_account_id : Uuid
  pub amount : Decimal

pub record BuyFromGoalResponse : Type 0 where
  pub goal : GoalResponse
  pub goal_completed : Bool
  pub reference_id : Uuid
  pub product_name : String
  pub units : ℕ
  pub ticket_start : Runes
  pub ticket_end : Runes
  pub amount : Decimal
  pub purchase_date : Time
  pub maturity_date : Time

abbrev pub to_buy_from_goal_response : BuyFromGoalResult → GoalSnapshot → BuyFromGoalResponse
to_buy_from_goal_response r snap = record {
  goal = to_goal_response snap;
  goal_completed = r.goal_completed;
  reference_id = r.receipt.reference_id;
  product_name = r.receipt.product_name;
  units = r.receipt.units;
  ticket_start = r.receipt.ticket_start;
  ticket_end = r.receipt.ticket_end;
  amount = r.receipt.amount;
  purchase_date = r.receipt.purchase_date;
  maturity_date = r.receipt.maturity_date;
}

pub record KapookTransactionResponse : Type 0 where
  pub id : Uuid
  pub type : TransactionType
  pub amount : Decimal
  pub fee_amount : Decimal
  pub net_amount : Decimal
  pub is_automatic_purchase : Option Bool
  pub created_at : Time

abbrev pub to_kapook_transaction_response : HistoryEntry → KapookTransactionResponse
to_kapook_transaction_response x = record {
  id = x.transaction.id;
  type = x.transaction.type;
  amount = x.transaction.amount;
  fee_amount = x.fee;
  net_amount = x.net;
  is_automatic_purchase = x.transaction.is_automatic_purchase;
  created_at = x.transaction.created_at;
}

abbrev pub to_kapook_transaction_responses : List HistoryEntry → List KapookTransactionResponse
to_kapook_transaction_responses = map to_kapook_transaction_response

-- The `amount` of a query: left out or empty, no decimal, or a decimal.
pub data AmountParam : Type 0 where
  absent malformed : AmountParam
  given : Decimal → AmountParam

unfoldable pub with_amount :
    {A : Type 0} → AmountParam → (Option Decimal → Exec (Response A)) → Exec (Response A)
with_amount absent handle = handle none
with_amount malformed handle = bad_request "amount query param must be a valid decimal"
with_amount (given d) handle = handle (some d)

-- handler.go, with the text of the errors that are not the program's own, and the duration of the
-- countdown that the service was built with.
module _ (error_text : Error → String) (countdown : ℕ) where
  unfoldable pub accept_terms : Option Uuid → Exec (Response TermsStatusResponse)
  accept_terms context = require_user_id context λ user.
      or_fail error_text (Goals.accept user) λ _. ok_response 200 (record { accepted = true })

  unfoldable pub get_terms_status : Option Uuid → Exec (Response TermsStatusResponse)
  get_terms_status context = require_user_id context λ user.
      or_fail error_text (Goals.has_accepted user)
        λ accepted. ok_response 200 (record { accepted = accepted })

  unfoldable pub create_goal :
      Option Uuid → Decoded CreateGoalRequest → Exec (Response GoalResponse)
  create_goal context body = require_user_id context λ user. with_body body λ req.
      or_fail error_text (Goals.create_goal user req.account_id req.product_id req.goal_amount)
        λ goal.
          or_fail error_text (Goals.snapshot countdown goal)
            λ snap. ok_response 201 (to_goal_response snap)

  -- The data of a user without an active goal is null.
  abbrev show_goal : Option Goal → Exec (Response (Option GoalResponse))
  show_goal none = ok_response 200 none
  show_goal (some goal) =
      or_fail error_text (Goals.snapshot countdown goal)
        λ snap. ok_response 200 (some (to_goal_response snap))

  unfoldable pub get_active_goal : Option Uuid → Option Uuid → Exec (Response (Option GoalResponse))
  get_active_goal context account_id = require_user_id context λ user.
      with_param "valid account_id query param is required" account_id
        λ account. or_fail error_text (Goals.get_active_goal user account) show_goal

  unfoldable pub deposit : Option Uuid → Decoded DepositRequest → Exec (Response GoalResponse)
  deposit context body = require_user_id context λ user. with_body body λ req.
      or_fail error_text
        (Deposit.deposit user req.kapook_account_id req.savings_account_id req.amount)
        λ goal.
          or_fail error_text (Goals.snapshot countdown goal)
            λ snap. ok_response 200 (to_goal_response snap)

  unfoldable pub withdraw : Option Uuid → Decoded WithdrawRequest → Exec (Response WithdrawResponse)
  withdraw context body = require_user_id context λ user. with_body body λ req.
      or_fail error_text (Withdraw.withdraw user req.kapook_account_id req.amount) λ result.
        or_fail error_text (Goals.snapshot countdown result.goal)
          λ snap. ok_response 200 (to_withdraw_response result snap)

  unfoldable pub get_withdrawal_status :
      Option Uuid → Option Uuid → AmountParam → Exec (Response WithdrawalStatusResponse)
  get_withdrawal_status context kapook_account_id amount = require_user_id context λ user.
      with_param "valid kapook_account_id query param is required" kapook_account_id λ kapook.
        with_amount amount λ d.
          or_fail error_text (Withdraw.get_withdrawal_status user kapook d)
            λ status. ok_response 200 (to_withdrawal_status_response status)

  unfoldable pub buy_from_goal :
      Option Uuid → Decoded BuyFromGoalRequest → Exec (Response BuyFromGoalResponse)
  buy_from_goal context body = require_user_id context λ user. with_body body λ req.
      or_fail error_text
        (Buy.buy_from_goal user req.kapook_account_id req.salak_account_id req.amount)
        λ result.
          or_fail error_text (Goals.snapshot countdown result.goal)
            λ snap. ok_response 201 (to_buy_from_goal_response result snap)

  -- `limit` and `offset` are what strconv.Atoi returns beside its error, which is dropped.
  unfoldable pub get_goal_history :
      Option Uuid → Option Uuid → ℤ → ℤ → Exec (Response (List KapookTransactionResponse))
  get_goal_history context goal_id limit offset = require_user_id context λ user.
      with_param "valid goal_id query param is required" goal_id λ goal.
        or_fail error_text (Goals.get_goal_history user goal limit offset)
          λ entries. ok_response 200 (to_kapook_transaction_responses entries)
