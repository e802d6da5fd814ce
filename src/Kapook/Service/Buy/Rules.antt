-- ===== src/Kapook/Service/Buy/Rules.antt =====
-- What a purchase from a goal has written when it returns.
use gsb_salak_backend.Prelude.{suc, ◌≡◌, ◌∙◌, refl, Bool, false, not, some, arith}
use gsb_salak_backend.Prelude.Int.{pos, ◌+ℤ◌, ◌≤ℤ◌, ◌<ℤ◌, ltb_ℤ}
use gsb_salak_backend.Prelude.Decimal.{Decimal}
use gsb_salak_backend.Calendar.{Time}
use gsb_salak_backend.Domain.{Uuid, AccountType, Goal, Product, available_balance}
use gsb_salak_backend.Store.{Env, World, Db, ok}
use gsb_salak_backend.Store.Rules.{
  Ensures, Same, Same-then, Wrote-then, Ensures-bind, Ensures-pure, Ensures-map_err,
  Ensures-raise_if, Ensures-fresh_id, Ensures-mono, Ensures-ok, Ensures-Begun,
}
use gsb_salak_backend.Account.Rules.{get_by_id-Ensures}
use gsb_salak_backend.Salak.Repository.{product_at}
use gsb_salak_backend.Salak.Repository.Rules.{lift-Ensures}
use gsb_salak_backend.Purchase.Rules.{get_product-Ensures}
use gsb_salak_backend.Purchase.Outcome.{BuyOutcome, buy_salak_for_kapook-Ensures}
use gsb_salak_backend.Kapook.Goals.{active_goal, set_goal, after_purchase, update_after_purchase}
use gsb_salak_backend.Kapook.Transactions.{add_transaction}
use gsb_salak_backend.Kapook.Service.Rules.{
  kapook_account-Ensures, lock_active_goal-Ensures, update_goal-Ensures, create_transaction-Ensures,
}
use gsb_salak_backend.Store.Frames.{Ensures-Keeps, Still-raise_if, Still-lift}
use gsb_salak_backend.Purchase.Rules.{get_product-Still}
use gsb_salak_backend.Kapook.Service.Still.{
  lock_active_goal-Still, validate_buy_from_goal_accounts-Still,
}
use gsb_salak_backend.Kapook.Service.Buy.{
  BuyFromGoalResult, purchase_transaction, buy_from_goal_core, validate_buy_from_goal_accounts,
  buy_from_goal,
}

-- What a purchase from the active goal of the account `kapook` does to the tables `d` of the
-- transaction, where `committed` are the tables that its lookups outside the transaction read, and the draw calendar
-- is looked up at the time `checked`.
pub record BoughtFromGoal (user kapook salak : Uuid) (amount : Decimal) (is_automatic : Bool)
    (checked minted : Time) (committed d : Db) (r : BuyFromGoalResult) (d' : Db) : Type 0 where
  pub goal : Goal
  pub product : Product
  pub bought_tables : Db
  pub id : Uuid
  pub at : Time
  pub active : active_goal kapook d ≡ some goal
  pub product_row : product_at goal.product_id committed ≡ some product
  pub above_minimum : product.min_purchase ≤ℤ available_balance goal
  pub within_available : amount ≤ℤ available_balance goal
  pub bought :
      BuyOutcome AccountType.kapook user kapook salak goal.product_id amount checked minted
        committed d r.receipt bought_tables
  pub completed : r.goal_completed ≡ not (ltb_ℤ (goal.salak_amount +ℤ amount) goal.goal_amount)
  pub returned : r.goal ≡ record goal {
    salak_amount = goal.salak_amount +ℤ amount;
    is_active = ltb_ℤ (goal.salak_amount +ℤ amount) goal.goal_amount;
  }
  pub tables :
      d'
      ≡ add_transaction
          (purchase_transaction id amount kapook goal.id r.receipt.holding_id is_automatic
            r.receipt.purchase_date)
          at
          (set_goal goal.id
            (after_purchase
              (goal.salak_amount +ℤ amount)
              (ltb_ℤ (goal.salak_amount +ℤ amount) goal.goal_amount))
            bought_tables)

not-not : (b : Bool) → not (not b) ≡ b
not-not b = ground arith

pub buy_from_goal_core-Ensures :
    (e : Env) (w : World) (user kapook salak : Uuid) (amount : Decimal) (is_automatic : Bool)
    → Ensures
        (λ r w'.
          BoughtFromGoal user kapook salak amount is_automatic
            (e.clock w.readings)
            (e.clock (suc w.readings))
            w.committed
            w.working
            r
            w'.working)
        (buy_from_goal_core user kapook salak amount is_automatic)
        e
        w
unfolding buy_from_goal_core update_after_purchase
buy_from_goal_core-Ensures e w user kapook salak amount is_automatic =
    Ensures-bind
      (Ensures-Keeps (lock_active_goal-Still kapook) (lock_active_goal-Ensures e w kapook))
      λ g w₁ ((active, s₁), t₁).
        Ensures-bind
          (Ensures-Keeps (get_product-Still g.product_id) (get_product-Ensures e w₁ g.product_id))
          λ p w₂ ((row, _, s₂), t₂).
            Ensures-bind (Ensures-Keeps (Still-raise_if _ _) (Ensures-raise_if e w₂ _ _))
              λ _ w₃ ((minimum, s₃), t₃).
                Ensures-bind (Ensures-Keeps (Still-lift _) (lift-Ensures e w₃ _))
                  λ _ w₄ ((_, s₄), t₄).
                    Ensures-bind (Ensures-Keeps (Still-raise_if _ _) (Ensures-raise_if e w₄ _ _))
                      λ _ w₅ ((within, s₅), t₅).
                        Ensures-bind
                          (buy_salak_for_kapook-Ensures e w₅ user kapook salak g.product_id amount)
                          λ receipt w₆ bought.
                            let below = ltb_ℤ (g.salak_amount +ℤ amount) g.goal_amount in
                            Ensures-bind
                              (Ensures-map_err _ _ (
                                update_goal-Ensures e w₆ g.id
                                  (after_purchase (g.salak_amount +ℤ amount) (not (not below)))))
                              λ _ w₇ (_, s₇). Ensures-bind (Ensures-fresh_id e w₇) λ i w₈ (_, s₈).
                                Ensures-bind
                                  (Ensures-map_err _ _ (
                                    create_transaction-Ensures e w₈ (
                                      purchase_transaction i amount kapook g.id receipt.holding_id
                                        is_automatic receipt.purchase_date)))
                                  λ _ w₉ (at, _, s₉).
                                    let kept₅ =
                                      Same-then (Same-then (Same-then (Same-then s₁ s₂) s₃) s₄)
                                        s₅ in
                                    let kept₉ =
                                      Wrote-then
                                        (add_transaction
                                          (purchase_transaction i amount kapook g.id
                                            receipt.holding_id is_automatic receipt.purchase_date)
                                          at)
                                        (Same-then s₇ s₈) s₉ in
                                    Ensures-pure _ (record {
                                      goal = g;
                                      product = p;
                                      bought_tables = w₆.working;
                                      id = i;
                                      at = at;
                                      active = active;
                                      product_row = rw s₁.committed at row;
                                      above_minimum = ground arith;
                                      within_available = ground arith;
                                      bought =
                                          rw (t₅ ∙ t₄ ∙ t₃ ∙ t₂ ∙ t₁) at
                                            (rw kept₅.working at (rw kept₅.committed at bought));
                                      completed = refl;
                                      returned = rw (not-not below) refl;
                                      tables = rw (not-not below) at kept₉.working;
                                    })

validate_buy_from_goal_accounts-Ensures :
    (e : Env) (w : World) (user kapook salak : Uuid) (amount : Decimal)
    → Ensures
        (λ _ w'. (pos 0 <ℤ amount) × Same w w')
        (validate_buy_from_goal_accounts user kapook salak amount)
        e
        w
unfolding validate_buy_from_goal_accounts
validate_buy_from_goal_accounts-Ensures e w user kapook salak amount =
    Ensures-bind (Ensures-raise_if e w _ _) λ _ w₁ (_, s₁).
      Ensures-bind (kapook_account-Ensures e w₁ user kapook) λ _ w₂ (_, _, _, s₂).
        Ensures-bind (get_by_id-Ensures e w₂ user salak) λ _ w₃ (_, _, s₃).
          Ensures-bind (Ensures-raise_if e w₃ _ _) λ _ w₄ (_, s₄).
            Ensures-mono (Ensures-raise_if e w₄ _ _) λ _ w₅ (positive, s₅).
              (ground arith, Same-then (Same-then (Same-then (Same-then s₁ s₂) s₃) s₄) s₅)

-- If a purchase from a goal returns, its amount is positive, and the committed tables and the result are those
-- that `BoughtFromGoal` describes, from the tables before: the amount is at most the available
-- balance of the account's active goal, which is at least the product's minimum; the purchase is the
-- one that `BuyOutcome` describes, from the kapook account; the goal's certificates are higher by the
-- amount, and it is closed exactly when they are worth its target; one transaction is added.
pub buy_from_goal-BoughtFromGoal :
    (e : Env) (w w' : World) (user kapook salak : Uuid) (amount : Decimal) (r : BuyFromGoalResult)
    → buy_from_goal user kapook salak amount e w ≡ (ok r, w')
    → (pos 0 <ℤ amount)
      × BoughtFromGoal user kapook salak amount false
          (e.clock w.readings)
          (e.clock (suc w.readings))
          w.committed
          w.committed
          r
          w'.committed
unfolding buy_from_goal
buy_from_goal-BoughtFromGoal e w w' user kapook salak amount r returned =
    Ensures-ok
      {Q = λ r₁ w₁.
        (pos 0 <ℤ amount)
        × BoughtFromGoal user kapook salak amount false (e.clock w.readings)
            (e.clock (suc w.readings)) w.committed w.committed r₁ w₁.committed}
      (Ensures-bind
        (Ensures-Keeps (validate_buy_from_goal_accounts-Still user kapook salak amount)
          (validate_buy_from_goal_accounts-Ensures e w user kapook salak amount))
        λ _ w₁ ((positive, s₁), t₁).
          Ensures-Begun _
            (λ w₀ begun.
              Ensures-mono (buy_from_goal_core-Ensures e w₀ user kapook salak amount false)
                λ r₁ w₂ h.
                  rw (begun.readings ∙ t₁) at (
                    rw (begun.working ∙ s₁.committed) at
                      (rw (begun.committed ∙ s₁.committed) at h)))
            λ r₁ w₂ w₃ h committed. (positive, rw committed h))
      returned
