-- ===== src/Kapook/Worker/Steps.antt =====
-- What the worker does for one goal: the steps of a pass.
use gsb_salak_backend.Prelude.{suc, ◌≡◌, true, false, none, some}
use gsb_salak_backend.Apperror.{Error, annotated, text, is_draw_day_error}
use gsb_salak_backend.Calendar.{Time}
use gsb_salak_backend.Domain.{Uuid, Goal, Product, Account, available_balance}
use gsb_salak_backend.Store.{Env, World, err}
use gsb_salak_backend.Store.Rules.{Same}
use gsb_salak_backend.Account.{get_by_id_unscoped, list_by_user, account_at, accounts_of}
use gsb_salak_backend.Salak.Repository.{product_at}
use gsb_salak_backend.Salak.Service.{truncate_to_date, get_product, next_available_date}
use gsb_salak_backend.Salak.Service.Rules.{IsFirstFree}
use gsb_salak_backend.Kapook.Goals.{set_goal, deferred, failed_attempt}
use gsb_salak_backend.Kapook.Service.Buy.{BuyFromGoalResult, buy_from_goal_in_tx}
use gsb_salak_backend.Kapook.Service.Buy.Rules.{BoughtFromGoal}
use gsb_salak_backend.Kapook.Worker
use gsb_salak_backend.Kapook.Worker.{
  GoalOutcome, Summary, purchased, failed, error_text, fail, or_fail, defer_goal, conclude, buy_all,
  process_goal, process_all, is_claimable, run_body, run_once, find_salak_account,
}

-- Of the environment `e`, a goal, and the world `s` in which the worker turns to it.
module _ (e : Env) (g : Goal) (s : World) where
  -- The owner of the goal's account, and the first of their salak accounts.
  abbrev pub IsBuyer : Account → Uuid → Type 0
  IsBuyer k salak =
      (account_at g.account_id s.committed ≡ some k)
      × (find_salak_account (accounts_of k.user_id s.committed) ≡ some salak)

  -- The tables and the clock are as in `s`.
  abbrev pub IsUntouched : World → Type 0
  IsUntouched w = Same s w × (w.readings ≡ s.readings)

  -- The purchase of all that the goal has available was tried in the owner's name, and refused with
  -- `y`, in the world `after`.
  pub record PurchaseRefused (y : Error) (after : World) : Type 0 where
    pub owner : Account
    pub salak : Uuid
    pub buyer : IsBuyer owner salak
    pub before : World
    pub untouched : IsUntouched before
    pub ran :
        buy_from_goal_in_tx owner.user_id g.account_id salak (available_balance g) e before
        ≡ (err y, after)

  -- Why the worker fails, with which error, and in which world: the purchase was refused on another ground
  -- than a draw day; or on a draw day, but its product or a free date was not found; or the goal's
  -- account or its owner's accounts were not found; or none of these is a salak account.
  pub data Blocked : Error → World → Type 0 where
    refused :
        (x : Error) (w : World) → PurchaseRefused x w → is_draw_day_error x ≡ false → Blocked x w
    no_product :
        (y z : Error) (w₁ w : World)
        → PurchaseRefused y w₁
        → is_draw_day_error y ≡ true
        → get_product g.product_id e w₁ ≡ (err z, w)
        → Blocked (annotated "resolve product for draw-day deferral" z) w
    no_free_date :
        (y z : Error) (p : Product) (w₁ w₂ w : World)
        → PurchaseRefused y w₁
        → is_draw_day_error y ≡ true
        → product_at g.product_id s.committed ≡ some p
        → Same s w₂
        → w₂.readings ≡ w₁.readings
        → next_available_date p e w₂ ≡ (err z, w)
        → Blocked (annotated "compute next available date" z) w
    no_account :
        (z : Error) (w : World)
        → get_by_id_unscoped g.account_id e s ≡ (err z, w)
        → Blocked (annotated "resolve kapook account" z) w
    no_accounts :
        (k : Account) (z : Error) (w₁ w : World)
        → IsUntouched w₁
        → account_at g.account_id s.committed ≡ some k
        → list_by_user k.user_id e w₁ ≡ (err z, w)
        → Blocked (annotated "resolve salak account" z) w
    no_salak_account :
        (k : Account) (w : World)
        → IsUntouched w
        → account_at g.account_id s.committed ≡ some k
        → find_salak_account (accounts_of k.user_id s.committed) ≡ none
        → Blocked (text "no salak account found for user") w

  -- What the pass does for one goal, and the world that it leaves: it buys for all that the goal has
  -- available, in the owner's name, with the clock's next two readings; or the purchase was refused
  -- because of a draw day, and the goal is put off to the first day after the next reading that is
  -- none; or the worker is blocked, and notes the error and the time of the next reading on the goal.
  pub data GoalStep : GoalOutcome → World → Type 0 where
    bought :
        (owner : Account) (salak : Uuid) (r : BuyFromGoalResult) (w : World)
        → IsBuyer owner salak
        → BoughtFromGoal owner.user_id g.account_id salak
            (available_balance g)
            true
            (e.clock s.readings)
            (e.clock (suc s.readings))
            s.committed
            s.working
            r
            w.working
        → w.committed ≡ s.committed
        → GoalStep
            (record {
              goal_id = g.id;
              account_id = g.account_id;
              outcome = purchased;
              error = none;
            })
            w
    put_off :
        (y : Error) (p : Product) (until : Time) (w₁ w : World)
        → PurchaseRefused y w₁
        → is_draw_day_error y ≡ true
        → product_at g.product_id s.committed ≡ some p
        → IsFirstFree p (truncate_to_date (e.clock w₁.readings)) s.committed until
        → w.committed ≡ s.committed
        → w.working ≡ set_goal g.id (deferred until) s.working
        → GoalStep
            (record {
              goal_id = g.id;
              account_id = g.account_id;
              outcome = Worker.deferred;
              error = none;
            })
            w
    noted :
        (x : Error) (w₁ w : World)
        → Blocked x w₁
        → w.committed ≡ s.committed
        → w.working ≡ set_goal g.id (failed_attempt (error_text x) (e.clock w₁.readings)) s.working
        → GoalStep
            (record { goal_id = g.id; account_id = g.account_id; outcome = failed; error = some x })
            w
