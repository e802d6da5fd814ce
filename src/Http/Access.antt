-- ===== src/Http/Access.antt =====
-- internal/user/http and internal/admin/http: the handlers and the bodies of their requests and
-- responses.
use gsb_salak_backend.Prelude.{ℕ, String, Option, none, some, List, map}
use gsb_salak_backend.Prelude.Decimal.{Decimal}
use gsb_salak_backend.Apperror.{Error}
use gsb_salak_backend.Calendar.{Time}
use gsb_salak_backend.Domain.{Uuid, User, Goal}
use gsb_salak_backend.Store.{Exec}
use gsb_salak_backend.Auth.{Jwt, Claims, AdminClaims, Signer}
use gsb_salak_backend.Users
use gsb_salak_backend.Users.{Bcrypt}
use gsb_salak_backend.Purchase.{SettlementReceipt}
use gsb_salak_backend.Kapook.Service.Goals.{list_stuck_auto_purchase_goals}
use gsb_salak_backend.Kapook.Service.Settlement.{settle_matured_holding}
use gsb_salak_backend.Http.{Response, Decoded, ok_response, with_body, with_param, or_fail}

-- user/http/dto.go
pub record RegisterRequest : Type 0 where
  pub username : String
  pub password : String
  pub full_name : String

pub record LoginRequest : Type 0 where
  pub username : String
  pub password : String

pub record UserResponse : Type 0 where
  pub id : Uuid
  pub username : String
  pub full_name : String
  pub created_at : Time

-- The hash of the password is left out.
abbrev pub to_user_response : User → UserResponse
to_user_response u = record {
  id = u.id;
  username = u.username;
  full_name = u.full_name;
  created_at = u.created_at;
}

pub record LoginResponse : Type 0 where
  pub user : UserResponse
  pub token : String

-- admin/http/dto.go
pub record AdminLoginResponse : Type 0 where
  pub token : String

pub record SettlementResponse : Type 0 where
  pub holding_id : Uuid
  pub principal : Decimal
  pub interest : Decimal
  pub total : Decimal
  pub primary_account_id : Uuid
  pub primary_balance_after : Decimal
  pub settled_at : Time

abbrev pub to_settlement_response : SettlementReceipt → SettlementResponse
to_settlement_response r = record {
  holding_id = r.holding_id;
  principal = r.principal;
  interest = r.interest;
  total = r.total;
  primary_account_id = r.primary_account_id;
  primary_balance_after = r.primary_balance_after;
  settled_at = r.settled_at;
}

pub record StuckGoalResponse : Type 0 where
  pub goal_id : Uuid
  pub account_id : Uuid
  pub attempts : ℕ
  pub last_error : String
  pub last_attempted_at : Option Time
  pub goal_reached_at : Option Time

abbrev text_or_empty : Option String → String
text_or_empty none = ""
text_or_empty (some s) = s

abbrev pub to_stuck_goal_response : Goal → StuckGoalResponse
to_stuck_goal_response g = record {
  goal_id = g.id;
  account_id = g.account_id;
  attempts = g.auto_purchase_attempts;
  last_error = text_or_empty g.auto_purchase_last_error;
  last_attempted_at = g.auto_purchase_last_attempted_at;
  goal_reached_at = g.goal_reached_at;
}

abbrev pub to_stuck_goal_responses : List Goal → List StuckGoalResponse
to_stuck_goal_responses = map to_stuck_goal_response

module _ (error_text : Error → String) where
  module _ (bcrypt : Bcrypt) where
    -- user/http/handler.go
    unfoldable pub register : Decimal → Decoded RegisterRequest → Exec (Response UserResponse)
    register savings_starting_balance body = with_body body λ req.
        or_fail error_text
          (Users.register bcrypt savings_starting_balance req.username req.password req.full_name)
          λ u. ok_response 201 (to_user_response u)

    unfoldable pub login :
        Jwt Claims → Signer → Decoded LoginRequest → Exec (Response LoginResponse)
    login jwt signer body = with_body body λ req.
        or_fail error_text (Users.login bcrypt jwt signer req.username req.password)
          λ r. ok_response 200 (record { user = to_user_response r.0; token = r.1 })

    -- admin/http/handler.go
    unfoldable pub login_admin :
        Jwt AdminClaims → Signer → Decoded LoginRequest → Exec (Response AdminLoginResponse)
    login_admin jwt signer body = with_body body λ req.
        or_fail error_text (Users.login_admin bcrypt jwt signer req.username req.password)
          λ r. ok_response 200 (record { token = r.1 })

  unfoldable pub settle_holding : Option Uuid → Exec (Response SettlementResponse)
  settle_holding id = with_param "invalid holding id" id λ holding.
      or_fail error_text (settle_matured_holding holding)
        λ receipt. ok_response 200 (to_settlement_response receipt)

  unfoldable pub list_stuck_kapook_goals : Exec (Response (List StuckGoalResponse))
  list_stuck_kapook_goals =
      or_fail error_text list_stuck_auto_purchase_goals
        λ goals. ok_response 200 (to_stuck_goal_responses goals)
