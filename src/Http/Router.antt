-- ===== src/Http/Router.antt =====
-- The routes of cmd/api/main.go and of the `RegisterRoutes` methods, and the service that they make.
pub mod Guarded
use gsb_salak_backend.Prelude.{ℕ, String, Option, none, some, List}
use gsb_salak_backend.Prelude.Int.{ℤ}
use gsb_salak_backend.Prelude.Decimal.{Decimal}
use gsb_salak_backend.Apperror.{Error}
use gsb_salak_backend.Domain.{Uuid}
use gsb_salak_backend.Store.{Exec, Result, ok, err, panicked, pure, ◌>>=◌}
use gsb_salak_backend.Auth.{Jwt, Claims, AdminClaims, Signer, parse, parse_admin}
use gsb_salak_backend.Users.{Bcrypt}
use gsb_salak_backend.Http
use gsb_salak_backend.Http.{Response, Decoded, status_of, auth, recover}
use gsb_salak_backend.Http.Kapook
use gsb_salak_backend.Http.Kapook.{
  CreateGoalRequest, DepositRequest, WithdrawRequest, BuyFromGoalRequest, AmountParam,
}
use gsb_salak_backend.Http.Bank
use gsb_salak_backend.Http.Bank.{BuySalakRequest}
use gsb_salak_backend.Http.Access
use gsb_salak_backend.Http.Access.{RegisterRequest, LoginRequest}

-- The routes below /api/v1, with what the router and the decoders have made of the request: those that want no
-- token, those behind `Auth`, and those behind `AdminAuth`.
pub data PublicRoute : Type 0 where
  register : Decoded RegisterRequest → PublicRoute
  login admin_login : Decoded LoginRequest → PublicRoute

pub data UserRoute : Type 0 where
  list_accounts : UserRoute
  get_account : Option Uuid → UserRoute
  list_products : UserRoute
  get_product : Option Uuid → UserRoute
  list_holdings : Option Uuid → UserRoute
  buy_salak : Decoded BuySalakRequest → UserRoute
  list_transactions : Option Uuid → ℤ → ℤ → UserRoute
  accept_terms get_terms : UserRoute
  create_goal : Decoded CreateGoalRequest → UserRoute
  get_active_goal : Option Uuid → UserRoute
  deposit : Decoded DepositRequest → UserRoute
  withdraw : Decoded WithdrawRequest → UserRoute
  withdrawal_status : Option Uuid → AmountParam → UserRoute
  buy_from_goal : Decoded BuyFromGoalRequest → UserRoute
  goal_transactions : Option Uuid → ℤ → ℤ → UserRoute

pub data AdminRoute : Type 0 where
  settle_holding : Option Uuid → AdminRoute
  list_stuck_goals : AdminRoute

-- A response with its data left out, so that all handlers answer in one type.
abbrev without_data : {A : Type 0} → Response A → Response (Unit {0})
without_data (Http.data_response n a) = Http.data_response n tt
without_data (Http.error_response n m c) = Http.error_response n m c
without_data (Http.bare n) = Http.bare n

unfoldable pub reply : {A : Type 0} → Exec (Response A) → Exec (Response (Unit {0}))
reply handle = handle >>= λ r. pure (without_data r)

-- What `main` builds the handlers of: the libraries, and the values of the configuration.
pub record Wiring : Type 0 where
  pub error_text : Error → String
  pub bcrypt : Bcrypt
  pub jwt : Jwt Claims
  pub admin_jwt : Jwt AdminClaims
  pub signer : Signer
  pub admin_signer : Signer
  pub savings_starting_balance : Decimal
  pub countdown : ℕ

module _ (c : Wiring) where
  unfoldable pub serve_public : PublicRoute → Exec (Response (Unit {0}))
  serve_public (register body) =
      reply (Access.register c.error_text c.bcrypt c.savings_starting_balance body)
  serve_public (login body) = reply (Access.login c.error_text c.bcrypt c.jwt c.signer body)
  serve_public (admin_login body) =
      reply (Access.login_admin c.error_text c.bcrypt c.admin_jwt c.admin_signer body)

  -- The handler of a route, with the user that the context holds.
  unfoldable pub user_handler : UserRoute → Option Uuid → Exec (Response (Unit {0}))
  user_handler list_accounts context = reply (Bank.list_mine c.error_text context)
  user_handler (get_account id) context = reply (Bank.get_by_id c.error_text context id)
  user_handler list_products context = reply (Bank.list_products c.error_text)
  user_handler (get_product id) context = reply (Bank.get_product c.error_text id)
  user_handler (list_holdings account) context =
      reply (Bank.list_holdings c.error_text context account)
  user_handler (buy_salak body) context = reply (Bank.buy_salak c.error_text context body)
  user_handler (list_transactions account limit offset) context =
      reply (Bank.list_history c.error_text context account limit offset)
  user_handler accept_terms context = reply (Kapook.accept_terms c.error_text c.countdown context)
  user_handler get_terms context = reply (Kapook.get_terms_status c.error_text c.countdown context)
  user_handler (create_goal body) context =
      reply (Kapook.create_goal c.error_text c.countdown context body)
  user_handler (get_active_goal account) context =
      reply (Kapook.get_active_goal c.error_text c.countdown context account)
  user_handler (deposit body) context = reply (Kapook.deposit c.error_text c.countdown context body)
  user_handler (withdraw body) context =
      reply (Kapook.withdraw c.error_text c.countdown context body)
  user_handler (withdrawal_status account amount) context =
      reply (Kapook.get_withdrawal_status c.error_text c.countdown context account amount)
  user_handler (buy_from_goal body) context =
      reply (Kapook.buy_from_goal c.error_text c.countdown context body)
  user_handler (goal_transactions goal limit offset) context =
      reply (Kapook.get_goal_history c.error_text c.countdown context goal limit offset)

  unfoldable pub admin_handler : AdminRoute → Exec (Response (Unit {0}))
  admin_handler (settle_holding id) = reply (Access.settle_holding c.error_text id)
  admin_handler list_stuck_goals = reply (Access.list_stuck_kapook_goals c.error_text)

  -- The three groups, inside middleware.Recover, with the Authorization header.
  unfoldable pub serve_user : UserRoute → String → Exec (Response (Unit {0}))
  serve_user route header =
      recover (auth (parse c.jwt c.signer) header λ user. user_handler route (some user))

  unfoldable pub serve_admin : AdminRoute → String → Exec (Response (Unit {0}))
  serve_admin route header =
      recover (auth (parse_admin c.admin_jwt c.admin_signer) header λ _. admin_handler route)

  unfoldable pub serve : PublicRoute → Exec (Response (Unit {0}))
  serve route = recover (serve_public route)
