-- ===== src/Http/Kapook/Movements.antt =====
-- What the responses of the three handlers that move money say of the movement.
use gsb_salak_backend.Prelude.{ℕ, String, false, ◌≡◌, ◌↔◌, refl, some}
use gsb_salak_backend.Apperror.{Error, new, http_status}
use gsb_salak_backend.Domain.{Uuid, Goal, Product}
use gsb_salak_backend.Store
use gsb_salak_backend.Store.{Env, World, Exec, Result, ok, err, panicked, pure, attempt}
use gsb_salak_backend.Store.Returns.{IsHealthy}
use gsb_salak_backend.Salak.Repository.{product_at, find_product}
use gsb_salak_backend.Salak.Service.{get_product}
use gsb_salak_backend.Kapook.Service.Goals.{GoalSnapshot, snapshot}
use gsb_salak_backend.Kapook.Service.Deposit
use gsb_salak_backend.Kapook.Service.Withdraw
use gsb_salak_backend.Kapook.Service.Withdraw.{WithdrawResult}
use gsb_salak_backend.Kapook.Service.Buy
use gsb_salak_backend.Kapook.Service.Buy.{BuyFromGoalResult}
use gsb_salak_backend.Http.{
  Response, data_response, error_response, valid, ok_response, or_fail, require_user_id, with_body,
}
use gsb_salak_backend.Http.Replies.{or_fail-data_iff}
use gsb_salak_backend.Http.Kapook.{
  DepositRequest, GoalResponse, WithdrawRequest, WithdrawResponse, BuyFromGoalRequest,
  BuyFromGoalResponse, to_goal_response, to_withdraw_response, to_buy_from_goal_response, deposit,
  withdraw, buy_from_goal,
}

-- A call, then the snapshot of the goal that it returned, then data.
abbrev Shown :
    {A B : Type 0}
    → (Error → String)
    → ℕ
    → Exec B
    → (B → Goal)
    → ℕ
    → (B → GoalSnapshot → A)
    → Exec (Response A)
Shown error_text countdown call goal_of status to =
    or_fail error_text call λ b.
      or_fail error_text (snapshot countdown (goal_of b)) λ snap. ok_response status (to b snap)

-- The call returned a value, the snapshot of its goal did too, and the data is made of both.
abbrev pub IsShown :
    {A B : Type 0}
    → ℕ
    → Exec B
    → (B → Goal)
    → (B → GoalSnapshot → A)
    → Env
    → World
    → A
    → World
    → Type 0
IsShown {A} {B} countdown call goal_of to e w a w' =
    (b : B) × (w₁ : World) × (snap : GoalSnapshot) × (call e w ≡ (ok b, w₁))
    × (snapshot countdown (goal_of b) e w₁ ≡ (ok snap, w'))
    × (a ≡ to b snap)

module _ {A B : Type 0} (error_text : Error → String) (countdown : ℕ) (call : Exec B)
    (goal_of : B → Goal) (status : ℕ) (to : B → GoalSnapshot → A) where
  Shown-data_iff :
      (e : Env) (w w' : World) (a : A)
      → (Shown error_text countdown call goal_of status to e w ≡ (ok (data_response status a), w'))
        ↔ IsShown countdown call goal_of to e w a w'
  unfolding pure
  Shown-data_iff e w w' a = (
    λ h.
        let (b, w₁, called, h₁) = (or_fail-data_iff error_text call _ e w w' status a).0 h in
        let (snap, w₂, taken, h₂) =
          (or_fail-data_iff error_text (snapshot countdown (goal_of b)) _ e w₁ w' status a).0 h₁ in
        let same : w₂ ≡ w' = cc in (b, w₁, snap, called, rw same at taken, cc),
    λ (b, w₁, snap, called, taken, made). (or_fail-data_iff error_text call _ e w w' status a).1 (
      b,
      w₁,
      called,
      (or_fail-data_iff error_text (snapshot countdown (goal_of b)) _ e w₁ w' status a).1
          (snap, w', taken, rw made refl),
    ),
  )

  -- The product of the goal is no longer for sale.
  Shown-inactive :
      (e : Env) (w w₁ : World) (b : B) (p : Product)
      → IsHealthy e
      → call e w ≡ (ok b, w₁)
      → product_at (goal_of b).product_id w₁.committed ≡ some p
      → p.is_active ≡ false
      → Shown error_text countdown call goal_of status to e w ≡ (
        ok (error_response 400 "salak product is not available for purchase" ""),
        Store.counted w₁,
      )
  unfolding or_fail attempt snapshot get_product find_product Store.first Store.read Store.execute
      Store.or_not_found Store.◌>>=◌ Store.map_err Store.raise_if pure new http_status
  Shown-inactive e w w₁ b p healthy called found inactive =
      rw called (rw (healthy w₁.statements) (rw found (rw inactive refl)))

module _ (error_text : Error → String) (countdown : ℕ) (user : Uuid) (e : Env) (w w' : World) where
  -- The handlers of a deposit, a withdrawal and a purchase from a goal, called by a user with a body that was decoded, give
  -- data exactly when the service's call returns and so does the snapshot of the goal that it
  -- returned, and the data is made of both.
  pub movements-data_iff :
      ((req : DepositRequest) (a : GoalResponse)
        → (deposit error_text countdown (some user) (valid req) e w
            ≡ (ok (data_response 200 a), w'))
          ↔ IsShown countdown
              (Deposit.deposit user req.kapook_account_id req.savings_account_id req.amount)
              (λ g. g)
              (λ _. to_goal_response)
              e
              w
              a
              w')
      × ((req : WithdrawRequest) (a : WithdrawResponse)
          → (withdraw error_text countdown (some user) (valid req) e w
              ≡ (ok (data_response 200 a), w'))
            ↔ IsShown countdown
                (Withdraw.withdraw user req.kapook_account_id req.amount)
                (λ r. r.goal)
                to_withdraw_response
                e
                w
                a
                w')
      × ((req : BuyFromGoalRequest) (a : BuyFromGoalResponse)
          → (buy_from_goal error_text countdown (some user) (valid req) e w
              ≡ (ok (data_response 201 a), w'))
            ↔ IsShown countdown
                (Buy.buy_from_goal user req.kapook_account_id req.salak_account_id req.amount)
                (λ r. r.goal)
                to_buy_from_goal_response
                e
                w
                a
                w')
  unfolding deposit withdraw buy_from_goal require_user_id with_body
  movements-data_iff = (
    λ req a. Shown-data_iff error_text countdown _ (λ g. g) 200 (λ _. to_goal_response) e w w' a,
    λ req a. Shown-data_iff error_text countdown _ (λ r. r.goal) 200 to_withdraw_response e w w' a,
    λ req a.
        Shown-data_iff error_text countdown _ (λ r. r.goal) 201 to_buy_from_goal_response e w w' a,
  )

  -- If no statement fails, a deposit that the service has committed, and a withdrawal, are answered with the error 400 where
  -- the goal's product is no longer for sale: the response refuses what was done.
  pub movements-inactive_product :
      (p : Product)
      → IsHealthy e
      → p.is_active ≡ false
      → ((req : DepositRequest) (g : Goal)
          → Deposit.deposit user req.kapook_account_id req.savings_account_id req.amount e w
            ≡ (ok g, w')
          → product_at g.product_id w'.committed ≡ some p
          → deposit error_text countdown (some user) (valid req) e w ≡ (
            ok (error_response 400 "salak product is not available for purchase" ""),
            Store.counted w',
          ))
        × ((req : WithdrawRequest) (r : WithdrawResult)
            → Withdraw.withdraw user req.kapook_account_id req.amount e w ≡ (ok r, w')
            → product_at r.goal.product_id w'.committed ≡ some p
            → withdraw error_text countdown (some user) (valid req) e w ≡ (
              ok (error_response 400 "salak product is not available for purchase" ""),
              Store.counted w',
            ))
  unfolding deposit withdraw require_user_id with_body
  movements-inactive_product p healthy inactive = (
    λ req g returned found.
        Shown-inactive error_text countdown _ (λ g. g) 200 (λ _. to_goal_response) e w w' g p
          healthy returned found inactive,
    λ req r returned found.
        Shown-inactive error_text countdown _ (λ r. r.goal) 200 to_withdraw_response e w w' r p
          healthy returned found inactive,
  )
