-- ===== src/Kapook/Worker/Process.antt =====
-- Each goal that the worker processes has one of the steps.
use gsb_salak_backend.Prelude.{
  suc, ◌≡◌, ◌∙◌, sym, ap, Bool-cases, inl, inr, true, Option, none, some,
}
use gsb_salak_backend.Apperror.{is_draw_day_error}
use gsb_salak_backend.Domain.{Uuid, Goal, Account, available_balance}
use gsb_salak_backend.Store.{Env, World, Result, ok, err, panicked, ambient, attempt}
use gsb_salak_backend.Store.Rules.{
  Same, Same-refl, Ensures, Ensures-map_err, Ensures-mono, Ensures-read,
}
use gsb_salak_backend.Store.Survives.{
  Survives, Alive, Survives-pure, Survives-bind, Survives-attempt_ran,
}
use gsb_salak_backend.Store.Savepoints.{Survives-attempt_guarded, Undone}
use gsb_salak_backend.Store.Frames.{Ensures-Keeps}
use gsb_salak_backend.Account.Still.{get_by_id_unscoped-Still, list_by_user-Still}
use gsb_salak_backend.Kapook.Service.Still.{validate_buy_from_goal_accounts-Still}
use gsb_salak_backend.Account.{list_by_user, find_by_user_id, account_at, accounts_of}
use gsb_salak_backend.Account.Rules.{get_by_id_unscoped-Ensures}
use gsb_salak_backend.Kapook.Service.Buy.{
  BuyFromGoalResult, buy_from_goal_core, buy_from_goal_in_tx,
}
use gsb_salak_backend.Kapook.Service.Buy.Rules.{BoughtFromGoal, buy_from_goal_core-Ensures}
use gsb_salak_backend.Kapook.Service.Atomic.{buy_from_goal_core-CommitsNothing}
use gsb_salak_backend.Kapook.Worker.Quiet.{
  get_by_id_unscoped-Quiet, list_by_user-Quiet, validate_buy_from_goal_accounts-Quiet,
}
use gsb_salak_backend.Kapook.Worker.Steps.{
  IsBuyer, IsUntouched, PurchaseRefused, refused, no_account, no_accounts, no_salak_account,
  GoalStep, bought,
}
use gsb_salak_backend.Kapook.Worker.{conclude, buy_all, process_goal, find_salak_account}
use gsb_salak_backend.Kapook.Worker.Deferral.{fail-Survives, try-Survives, defer_goal-Survives}

list_by_user-Ensures :
    (e : Env) (w : World) (user : Uuid)
    → Ensures (λ found _. found ≡ accounts_of user w.committed) (list_by_user user) e w
unfolding list_by_user find_by_user_id
list_by_user-Ensures e w user =
    Ensures-map_err _ _ (Ensures-mono (Ensures-read e w ambient _) λ found w' (eq, _). eq)

-- The purchase for a goal that is tried in the world `w`.
Bought : Env → Goal → World → Uuid → Uuid → BuyFromGoalResult → World → Type 0
Bought e g w user salak r w' =
    BoughtFromGoal user g.account_id salak (available_balance g) true (e.clock w.readings)
      (e.clock (suc w.readings)) w.committed w.working r w'.working

buy-Survives :
    (e : Env) (g : Goal) (w : World) (user salak : Uuid)
    → Survives
        (λ r w'. (w'.committed ≡ w.committed) × Undone (Bought e g w user salak) w r w')
        (attempt (buy_from_goal_in_tx user g.account_id salak (available_balance g)))
        e
        w
unfolding buy_from_goal_in_tx Bought
buy-Survives e g w user salak =
    Survives-attempt_guarded _
      (buy_from_goal_core user g.account_id salak (available_balance g) true) e w _
      (validate_buy_from_goal_accounts-Quiet user g.account_id salak (available_balance g))
      (validate_buy_from_goal_accounts-Still user g.account_id salak (available_balance g))
      (λ w₀ s t.
        Ensures-mono
          (buy_from_goal_core-Ensures e w₀ user g.account_id salak (available_balance g) true)
          λ r w' h. rw t at (rw s.working at (rw s.committed at h)))
      (buy_from_goal_core-CommitsNothing user g.account_id salak (available_balance g) true)

module _ (g : Goal) (e : Env) (s : World) where
  -- What is known of the attempt of the purchase, which left the world `w`.
  Purchased : Account → Uuid → Result BuyFromGoalResult → World → Type 0
  Purchased owner salak r w =
      IsBuyer e g s owner salak
      × ((w₀ : World) × IsUntouched e g s w₀
          × (w.committed ≡ w₀.committed)
          × Undone (Bought e g s owner.user_id salak) w₀ r w
          × (buy_from_goal_in_tx owner.user_id g.account_id salak (available_balance g) e w₀
              ≡ (r, w)))

  conclude-Survives :
      (w : World) (owner : Account) (salak : Uuid) (r : Result BuyFromGoalResult)
      → Alive w (Purchased owner salak r w)
      → Survives (GoalStep e g s) (conclude g r) e w
  unfolding conclude Bought Purchased
  conclude-Survives w owner salak (ok r) h = Survives-pure _ λ alive.
      let (buyer, (w₀, (kept, _), same, buying, _)) = h alive in
      bought owner salak r w buyer buying (same ∙ kept.committed)
  conclude-Survives w owner salak (err x) h = elim (Bool-cases (is_draw_day_error x)) [
    | inl drawn ↦ rw drawn (defer_goal-Survives g e s w x start why drawn)
    | inr clear ↦ rw clear (fail-Survives g e s w x start λ alive. refused x w (why alive) clear)
  ]
    where
      start : Alive w (Same s w)
      start alive =
          let (_, (w₀, (kept, _), same, back, _)) = h alive in
          record { committed = same ∙ kept.committed; working = back ∙ kept.working }

      why : Alive w (PurchaseRefused e g s x w)
      why alive =
          let (buyer, (w₀, untouched, _, _, ran)) = h alive in
          record {
            owner = owner;
            salak = salak;
            buyer = buyer;
            before = w₀;
            untouched = untouched;
            ran = ran;
          }
  conclude-Survives w owner salak panicked h = record { post = λ alive. (alive, tt) }

  moved :
      (w w' : World) (user salak : Uuid)
      → IsUntouched e g s w
      → (r : Result BuyFromGoalResult) → Undone (Bought e g w user salak) w r w'
      → Undone (Bought e g s user salak) w r w'
  unfolding Bought
  moved w w' user salak (kept, unread) (ok r) p =
      rw unread at (rw kept.working at (rw kept.committed at p))
  moved w w' user salak untouched (err x) p = p
  moved w w' user salak untouched panicked p = tt

  buy_all-Survives :
      (w : World) (owner : Account) (salak : Option Uuid)
      → Alive w (
          IsUntouched e g s w
          × (account_at g.account_id s.committed ≡ some owner)
          × (find_salak_account (accounts_of owner.user_id s.committed) ≡ salak))
      → Survives (GoalStep e g s) (buy_all g owner.user_id salak) e w
  unfolding buy_all Purchased
  buy_all-Survives w owner none start =
      fail-Survives g e s w _ (λ alive. (start alive).0.0)
        λ alive.
          let (untouched, found, missing) = start alive in
          no_salak_account owner w untouched found missing
  buy_all-Survives w owner (some salak) start =
      Survives-bind (Survives-attempt_ran _ (buy-Survives e g w owner.user_id salak)) λ r w' q.
        conclude-Survives w' owner salak r λ alive.
          let (alive₀, ((same, p), ran)) = q alive in
          let (untouched, found, listed) = start alive₀ in
          ((found, listed), (w, untouched, same, moved w w' owner.user_id salak untouched r p, ran))

-- The step of a goal starts where the worker turns to it.
pub process_goal-Survives :
    (g : Goal) (e : Env) (w : World) → Survives (GoalStep e g w) (process_goal g) e w
unfolding process_goal
process_goal-Survives g e w =
    try-Survives g e w
      (λ k w'. (account_at g.account_id w.committed ≡ some k) × (w'.readings ≡ w.readings)) w _ _ _
      (get_by_id_unscoped-Quiet g.account_id)
      (Ensures-mono
        (Ensures-Keeps (get_by_id_unscoped-Still g.account_id)
          (get_by_id_unscoped-Ensures e w g.account_id))
        λ k w' ((found, _), unread). (found, unread))
      (λ alive. Same-refl w) (λ z w' ran alive. no_account z w' ran)
      λ k w₁ q₁.
        try-Survives g e w
          (λ found w'. (found ≡ accounts_of k.user_id w₁.committed) × (w'.readings ≡ w₁.readings))
          w₁ _ _ _ (list_by_user-Quiet k.user_id)
          (Ensures-Keeps (list_by_user-Still k.user_id) (list_by_user-Ensures e w₁ k.user_id))
          (λ alive. let (_, kept, _) = q₁ alive in kept)
          (λ z w' ran alive.
            let (_, kept, (row, unread)) = q₁ alive in no_accounts k z w₁ w' (kept, unread) row ran)
          λ found w₂ q₂. buy_all-Survives g e w w₂ k (find_salak_account found) λ alive.
            let (alive₁, kept₂, (listed, unread₂)) = q₂ alive in
            let (_, kept₁, (row, unread₁)) = q₁ alive₁ in
            (
              (kept₂, unread₂ ∙ unread₁),
              row,
              ap find_salak_account (sym (rw kept₁.committed at listed)),
            )
