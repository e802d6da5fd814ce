-- ===== src/Kapook/Worker/Atomic.antt =====
-- A pass of the worker commits all of its work or none of it.
use gsb_salak_backend.Prelude.{
  ℕ, refl, Bool, true, false, Option, none, some, List, [], ◌∷◌, if◌then◌else◌,
}
use gsb_salak_backend.Apperror.{Error, is_draw_day_error}
use gsb_salak_backend.Calendar.{Time}
use gsb_salak_backend.Domain.{Uuid, Goal}
use gsb_salak_backend.Store.{Result, ok, err, panicked, Exec}
use gsb_salak_backend.Store.Atomic.{
  CommitsNothing, IsAtomic, IsAtomic-bind, IsAtomic-transaction, commits_nothing,
  CommitsNothing-bind, CommitsNothing-pure, CommitsNothing-if,
}
use gsb_salak_backend.Account.Atomic.{account_commits_nothing}
use gsb_salak_backend.Salak.Service.Atomic.{salak_commits_nothing}
use gsb_salak_backend.Kapook.Goals.{
  set_auto_purchase_deferral, record_auto_purchase_failure, claim_due_goals,
}
use gsb_salak_backend.Kapook.Service.Atomic.{
  update_goal-CommitsNothing, buy_from_goal_in_tx-CommitsNothing,
}
use gsb_salak_backend.Kapook.Worker.{
  GoalOutcome, fail, or_fail, defer_goal, conclude, buy_all, process_goal, process_all,
  is_claimable, run_body, run_once,
}

ruleset callees = (
  commits_nothing, account_commits_nothing, salak_commits_nothing, update_goal-CommitsNothing,
  buy_from_goal_in_tx-CommitsNothing,
)

fail-CommitsNothing : (g : Goal) (x : Error) → CommitsNothing (fail g x)
unfolding fail record_auto_purchase_failure
fail-CommitsNothing g x = search callees depth 12

or_fail-CommitsNothing :
    {A : Type 0} (g : Goal) (r : Result A) (k : A → Exec GoalOutcome)
    → ((a : A) → CommitsNothing (k a))
    → CommitsNothing (or_fail g r k)
unfolding or_fail
or_fail-CommitsNothing g (ok a) k h = h a
or_fail-CommitsNothing g (err x) k h = fail-CommitsNothing g x
or_fail-CommitsNothing g panicked k h = record { at = λ e w. refl }

defer_goal-CommitsNothing : (g : Goal) → CommitsNothing (defer_goal g)
unfolding defer_goal set_auto_purchase_deferral
defer_goal-CommitsNothing g = search (callees, or_fail-CommitsNothing) depth 24

conclude-CommitsNothing : {A : Type 0} (g : Goal) (r : Result A) → CommitsNothing (conclude g r)
unfolding conclude
conclude-CommitsNothing g (ok a) = search callees
conclude-CommitsNothing g (err x) = go (is_draw_day_error x)
  where
    go : (b : Bool) → CommitsNothing (if b then defer_goal g else fail g x)
    go true = defer_goal-CommitsNothing g
    go false = fail-CommitsNothing g x
conclude-CommitsNothing g panicked = record { at = λ e w. refl }

buy_all-CommitsNothing :
    (g : Goal) (user : Uuid) (salak : Option Uuid) → CommitsNothing (buy_all g user salak)
unfolding buy_all
buy_all-CommitsNothing g user none = fail-CommitsNothing g _
buy_all-CommitsNothing g user (some salak) = search (callees, conclude-CommitsNothing) depth 12

process_goal-CommitsNothing : (g : Goal) → CommitsNothing (process_goal g)
unfolding process_goal
process_goal-CommitsNothing g =
    search (callees, or_fail-CommitsNothing, buy_all-CommitsNothing) depth 16

process_all-CommitsNothing : (gs : List Goal) → CommitsNothing (process_all gs)
unfolding process_all
process_all-CommitsNothing [] = CommitsNothing-pure []
process_all-CommitsNothing (g ∷ gs) =
    CommitsNothing-if (is_claimable g) _ _
      (CommitsNothing-bind _ _ (process_goal-CommitsNothing g)
        λ o. CommitsNothing-bind _ _ (process_all-CommitsNothing gs) λ os. CommitsNothing-pure _)
      (process_all-CommitsNothing gs)

run_body-CommitsNothing : (countdown : ℕ) (t : Time) → CommitsNothing (run_body countdown t)
unfolding run_body claim_due_goals
run_body-CommitsNothing countdown t = search (commits_nothing, process_all-CommitsNothing) depth 8

-- A pass that ends in an error or a panic, at whatever goal or statement, leaves the committed tables
-- as they were.
pub run_once-IsAtomic : (countdown : ℕ) → IsAtomic (run_once countdown)
unfolding run_once
run_once-IsAtomic countdown =
    search (IsAtomic-bind, IsAtomic-transaction, commits_nothing, run_body-CommitsNothing) depth 8
