-- ===== src/Kapook/Service/Deposit/Returns.antt =====
-- When a deposit returns.
use gsb_salak_backend.Prelude.{
  ◌≡◌, ◌≢◌, ◌∙◌, refl, Bool, true, false, none, some, arith, if◌then◌else◌,
}
use gsb_salak_backend.Prelude.Int.{pos, ◌+ℤ◌, ◌-ℤ◌, ◌≤ℤ◌, ◌<ℤ◌, int_laws}
use gsb_salak_backend.Prelude.Decimal.{Decimal, IsCents, round2, round2-cents, add-IsCents}
use gsb_salak_backend.Apperror.{internal_error}
use gsb_salak_backend.Calendar.{Time}
use gsb_salak_backend.Domain.{Uuid, Account, AccountType, Goal, is_type}
use gsb_salak_backend.Store.{Env, World, Db, ok, map_err, pure, ◌>>◌}
use gsb_salak_backend.Store.Rules.{Same-then, Wrote-then}
use gsb_salak_backend.Store.Returns.{
  IsHealthy, Returns, Returns-bind, Returns-pure, Returns-map_err, Returns-raise_if, Returns-now,
  Returns-transaction,
}
use gsb_salak_backend.Account.{account_at, set_balance}
use gsb_salak_backend.Account.Returns.{
  account_at-set_balance, get_by_id-Returns, lock_for_update-Returns, debit-Returns, credit-Returns,
}
use gsb_salak_backend.Kapook.Goals.{
  active_goal, goal_at, goal_check, set_goal, with_saving_amount, reached, update_saving_amount,
  mark_goal_reached,
}
use gsb_salak_backend.Kapook.Service.Returns.{
  goal_at-set_goal, goal_check-none, kapook_account-Returns, lock_active_goal-Returns,
  update_goal-Returns, record_kapook_ledger_pair-Returns,
}
use gsb_salak_backend.Kapook.Service.Deposit.{stamp_reached, deposit_pair, deposit_body, deposit}
use gsb_salak_backend.Kapook.Service.Deposit.Rules.{
  is_reached_now, DepositOutcome, deposit-DepositOutcome,
}

-- The tables `d` allow the deposit: the accounts and the active goal are there, the goal's amounts are in order, all
-- amounts are whole satang, the money is there, and the target is not exceeded.
pub record IsAllowed (user kapook savings : Uuid) (amount : Decimal) (d : Db) : Type 0 where
  pub goal : Goal
  pub from : Account
  pub to : Account
  pub differ : kapook ≢ savings
  pub active : active_goal kapook d ≡ some goal
  pub by_id : goal_at goal.id d ≡ some goal
  pub from_row : account_at savings d ≡ some from
  pub from_own : from.user_id ≡ user
  pub from_type : is_type from.type AccountType.savings ≡ true
  pub to_row : account_at kapook d ≡ some to
  pub to_own : to.user_id ≡ user
  pub to_type : is_type to.type AccountType.kapook ≡ true
  pub positive : pos 0 <ℤ amount
  pub whole : IsCents amount
  pub saving_whole : IsCents goal.saving_amount
  pub enough : pos 0 ≤ℤ from.balance -ℤ amount
  pub to_pos : pos 0 ≤ℤ to.balance
  pub salak_pos : pos 0 ≤ℤ goal.salak_amount
  pub salak_le : goal.salak_amount ≤ℤ goal.saving_amount
  pub within_goal : goal.saving_amount +ℤ amount ≤ℤ goal.goal_amount

stamp_reached-Returns :
    (e : Env) (w : World) (g h : Goal) (x : Decimal) (t : Time)
    → IsHealthy e
    → w.aborted ≡ false
    → goal_at g.id w.working ≡ some h
    → goal_check h ≡ none
    → Returns (λ _ _. Unit) (stamp_reached g x t) e w
unfolding stamp_reached mark_goal_reached
stamp_reached-Returns e w g h x t healthy alive found valid = go (is_reached_now g x)
  where
    go :
        (b : Bool)
        → Returns
            (λ _ _. Unit)
            (if b
              then (map_err
                    (internal_error "failed to record goal reached")
                    (mark_goal_reached g.id t)
                  >> pure (record g { goal_reached_at = some t }))
              else pure g)
            e
            w
    go true =
        Returns-bind
          (Returns-map_err _ _
            (update_goal-Returns e w healthy alive g.id (reached t) h found valid))
          λ _ w₁ alive₁ _. Returns-pure _ alive₁ tt
    go false = Returns-pure _ alive tt

module _ (e : Env) (user kapook savings : Uuid) (amount : Decimal) (healthy : IsHealthy e) where
  deposit_body-Returns :
      (w : World)
      → w.aborted ≡ false
      → IsAllowed user kapook savings amount w.working
      → Returns (λ _ _. Unit) (deposit_body kapook savings amount) e w
  unfolding deposit_body update_saving_amount
  deposit_body-Returns w alive allowed =
      let g = allowed.goal in
      let x = g.saving_amount +ℤ amount in
      let k =
        account_at-set_balance kapook savings (round2 (allowed.from.balance -ℤ amount)) w.working
          allowed.differ
        ∙ allowed.to_row in
      let stored : round2 x ≡ x =
        round2-cents x (add-IsCents g.saving_amount amount allowed.saving_whole allowed.whole) in
      let stored' : round2 amount ≡ amount = round2-cents amount allowed.whole in
      let positive : pos 0 <ℤ round2 amount = rw stored' allowed.positive in
      let valid : goal_check (with_saving_amount x g) ≡ none =
        goal_check-none (with_saving_amount x g)
          (omega
            (int_laws, allowed.positive, allowed.salak_pos, allowed.salak_le, allowed.within_goal))
          allowed.salak_pos (rw stored (omega (int_laws, allowed.positive, allowed.salak_le)))
          (rw stored allowed.within_goal) in
      Returns-bind (lock_active_goal-Returns e w healthy alive kapook g allowed.active)
        λ g₁ w₁ alive₁ (q, s₁). rw q (
          Returns-bind
            (Returns-raise_if e w₁ healthy alive₁ _ _ (ground (arith, allowed.within_goal)))
            λ _ w₂ alive₂ s₂.
              let kept₂ = Same-then s₁ s₂ in
              Returns-bind
                (lock_for_update-Returns e w₂ healthy alive₂ kapook allowed.to
                  (rw kept₂.working allowed.to_row))
                λ _ w₃ alive₃ (_, s₃).
                  let kept₃ = Same-then kept₂ s₃ in
                  Returns-bind
                    (debit-Returns e w₃ healthy alive₃ savings amount allowed.from
                      (rw kept₃.working allowed.from_row) allowed.enough)
                    λ b w₄ alive₄ (p, s₄).
                      let kept₄ =
                        Wrote-then (set_balance savings (round2 (allowed.from.balance -ℤ amount)))
                          kept₃ s₄ in
                      Returns-bind
                        (credit-Returns e w₄ healthy alive₄ kapook amount allowed.to
                          (rw kept₄.working k) (omega (int_laws, allowed.to_pos, allowed.positive)))
                        λ c w₅ alive₅ (r, s₅).
                          let kept₅ =
                            Wrote-then (set_balance kapook (round2 (allowed.to.balance +ℤ amount)))
                              kept₄ s₅ in
                          Returns-bind
                            (Returns-map_err _ _ (
                              update_goal-Returns e w₅ healthy alive₅ g.id (with_saving_amount x) g
                                (rw kept₅.working allowed.by_id) valid))
                            λ _ w₆ alive₆ s₆.
                              let kept₆ =
                                Wrote-then (set_goal g.id (with_saving_amount x)) kept₅ s₆ in
                              Returns-bind (Returns-now e w₆ alive₆) λ t w₇ alive₇ (_, s₇).
                                let kept₇ = Same-then kept₆ s₇ in
                                Returns-bind
                                  (stamp_reached-Returns e w₇ g (with_saving_amount x g) x t healthy
                                    alive₇
                                    (rw kept₇.working (
                                      goal_at-set_goal g.id (with_saving_amount x) w.working g
                                        (λ h. refl) allowed.by_id))
                                    valid)
                                  λ g' w₈ alive₈ _.
                                    Returns-bind
                                      (record_kapook_ledger_pair-Returns e w₈
                                        (deposit_pair kapook savings g.id amount b c t) healthy
                                        alive₈ positive positive positive)
                                      λ _ w₉ alive₉ _. Returns-pure _ alive₉ tt)

  deposit-Returns :
      (w : World)
      → w.aborted ≡ false
      → IsAllowed user kapook savings amount w.committed
      → Returns (λ _ _. Unit) (deposit user kapook savings amount) e w
  unfolding deposit
  deposit-Returns w alive allowed =
      Returns-bind (Returns-raise_if e w healthy alive _ _ (ground (arith, allowed.differ)))
        λ _ w₁ alive₁ s₁.
          Returns-bind
            (kapook_account-Returns e w₁ healthy alive₁ user kapook allowed.to
              (rw s₁.committed allowed.to_row) allowed.to_own allowed.to_type)
            λ _ w₂ alive₂ (_, s₂).
              let same₂ = s₂.committed ∙ s₁.committed in
              Returns-bind
                (get_by_id-Returns e w₂ healthy alive₂ user savings allowed.from
                  (rw same₂ allowed.from_row) allowed.from_own)
                λ s w₃ alive₃ (q, s₃).
                  Returns-bind
                    (Returns-raise_if e w₃ healthy alive₃ _ _ (rw q (rw allowed.from_type refl)))
                    λ _ w₄ alive₄ s₄.
                      Returns-bind
                        (Returns-raise_if e w₄ healthy alive₄ _ _
                          (ground (arith, allowed.positive)))
                        λ _ w₅ alive₅ s₅.
                          let same₅ = s₅.committed ∙ s₄.committed ∙ s₃.committed ∙ same₂ in
                          Returns-transaction _ e w₅ healthy λ w₀ _ begun alive₀.
                            deposit_body-Returns w₀ alive₀ (rw (begun ∙ same₅) allowed)

-- If no statement fails and the committed tables allow it as `IsAllowed` says, a deposit
-- returns, and its outcome is that of `DepositOutcome`.
pub deposit-returns :
    (e : Env) (w : World) (user kapook savings : Uuid) (amount : Decimal)
    → IsHealthy e
    → w.aborted ≡ false
    → IsAllowed user kapook savings amount w.committed
    → (g' : Goal) × (w' : World) × (deposit user kapook savings amount e w ≡ (ok g', w'))
      × DepositOutcome user kapook savings amount w.committed g' w'.committed
deposit-returns e w user kapook savings amount healthy alive allowed =
    let r = deposit-Returns e user kapook savings amount healthy w alive allowed in
    (
      r.value,
      r.after,
      r.runs,
      deposit-DepositOutcome e w r.after user kapook savings amount r.value r.runs,
    )
