-- ===== src/Kapook/Service/Withdraw/Returns.antt =====
-- When a withdrawal returns.
use gsb_salak_backend.Prelude.{
  ◌≡◌, ◌≢◌, ◌∙◌, refl, Bool, true, false, not, none, some, leb, ◌&&◌, arith,
}
use gsb_salak_backend.Prelude.Int.{pos, negsuc, ◌+ℤ◌, ◌-ℤ◌, ◌≤ℤ◌, ◌<ℤ◌, ltb_ℤ, int_laws}
use gsb_salak_backend.Prelude.Decimal.{Decimal, IsCents, round2, round2-cents, sub-IsCents}
use gsb_salak_backend.Domain.{Uuid, Account, AccountType, Goal, available_balance, is_type}
use gsb_salak_backend.Store.{Env, World, Db, ok}
use gsb_salak_backend.Store.Rules.{Wrote, Same-then, Wrote-then}
use gsb_salak_backend.Store.Returns.{
  IsHealthy, Returns, Returns-bind, Returns-pure, Returns-map_err, Returns-raise_if, Returns-now,
  Returns-transaction,
}
use gsb_salak_backend.Account.{account_at, primary_of, set_balance}
use gsb_salak_backend.Account.Returns.{
  account_at-set_balance, get_primary_account-Returns, lock_for_update-Returns, debit-Returns,
  credit-Returns,
}
use gsb_salak_backend.Kapook.Goals.{
  active_goal, goal_at, goal_check, after_withdrawal, update_after_withdrawal,
}
use gsb_salak_backend.Kapook.Service.{compute_withdrawal_fee, free_withdrawals_per_window}
use gsb_salak_backend.Kapook.Service.Totals.{net-IsCents}
use gsb_salak_backend.Kapook.Service.Returns.{
  goal_check-none, kapook_account-Returns, lock_active_goal-Returns, update_goal-Returns,
  withdrawal_allowance-Returns, record_kapook_ledger_pair-Returns,
}
use gsb_salak_backend.Kapook.Service.Withdraw.{
  WithdrawResult, is_reached, withdraw_pair, withdraw_body, withdraw,
}
use gsb_salak_backend.Kapook.Service.Withdraw.Rules.{WithdrawOutcome, withdraw-WithdrawOutcome}

-- The tables `d` allow the withdrawal: the accounts and the active goal are there, the goal's amounts are in
-- order, the amounts are whole satang, the money is there, and the amount is at most the available balance, and
-- all of it once the goal is reached.
pub record IsAllowed (user kapook : Uuid) (amount : Decimal) (d : Db) : Type 0 where
  pub goal : Goal
  pub from : Account
  pub primary : Account
  pub differ : primary.id ≢ kapook
  pub active : active_goal kapook d ≡ some goal
  pub by_id : goal_at goal.id d ≡ some goal
  pub from_row : account_at kapook d ≡ some from
  pub from_own : from.user_id ≡ user
  pub from_type : is_type from.type AccountType.kapook ≡ true
  pub primary_row : primary_of user d ≡ some primary
  pub by_primary_id : account_at primary.id d ≡ some primary
  pub positive : pos 0 <ℤ amount
  pub whole : IsCents amount
  pub saving_whole : IsCents goal.saving_amount
  pub enough : pos 0 ≤ℤ from.balance -ℤ amount
  pub primary_pos : pos 0 ≤ℤ primary.balance
  pub goal_pos : pos 0 <ℤ goal.goal_amount
  pub salak_pos : pos 0 ≤ℤ goal.salak_amount
  pub saving_le : goal.saving_amount ≤ℤ goal.goal_amount
  pub within_available : amount ≤ℤ available_balance goal
  pub full_once_reached : (is_reached goal && ltb_ℤ amount (available_balance goal)) ≡ false

-- Of a positive amount in whole satang, something is left after the fee.
net_positive :
    (amount : Decimal) (charged : Bool)
    → pos 0 <ℤ amount
    → IsCents amount
    → pos 0 <ℤ (compute_withdrawal_fee amount charged).1
unfolding compute_withdrawal_fee
net_positive (pos n) true positive whole = omega (int_laws, positive, whole)
net_positive (negsuc n) true positive whole = absurd (omega (arith, positive))
net_positive amount false positive whole = positive

module _ (e : Env) (user kapook : Uuid) (amount : Decimal) (healthy : IsHealthy e) where
  withdraw_body-Returns :
      (w : World) (d : Db)
      → w.aborted ≡ false
      → w.working ≡ d
      → (allowed : IsAllowed user kapook amount d)
      → Returns (λ _ _. Unit) (withdraw_body kapook allowed.primary.id amount) e w
  unfolding withdraw_body update_after_withdrawal
  withdraw_body-Returns w d alive started allowed =
      let g = allowed.goal in
      let x = g.saving_amount -ℤ amount in
      let primary = allowed.primary in
      let to_row =
        account_at-set_balance primary.id kapook (round2 (allowed.from.balance -ℤ amount)) d
          allowed.differ
        ∙ allowed.by_primary_id in
      let stored : round2 x ≡ x =
        round2-cents x (sub-IsCents g.saving_amount amount allowed.saving_whole allowed.whole) in
      let positive : pos 0 <ℤ round2 amount =
        rw (round2-cents amount allowed.whole) allowed.positive in
      let f = after_withdrawal x (not (is_reached g)) in
      let valid : goal_check (f g) ≡ none =
        goal_check-none (f g) allowed.goal_pos allowed.salak_pos
          (rw stored (omega (int_laws, allowed.within_available)))
          (rw stored (omega (int_laws, allowed.saving_le, allowed.positive))) in
      Returns-bind (lock_active_goal-Returns e w healthy alive kapook g (rw started allowed.active))
        λ g₁ w₁ alive₁ (q, s₁). rw q (
          Returns-bind
            (Returns-raise_if e w₁ healthy alive₁ _ _ (ground (arith, allowed.within_available)))
            λ _ w₂ alive₂ s₂.
              Returns-bind (Returns-raise_if e w₂ healthy alive₂ _ _ allowed.full_once_reached)
                λ _ w₃ alive₃ s₃.
                  Returns-bind (withdrawal_allowance-Returns e w₃ g healthy alive₃)
                    λ allowance w₄ alive₄ s₄.
                      let start : Wrote w w d = record { committed = refl; working = started } in
                      let kept₄ = Same-then (Same-then (Same-then (Same-then start s₁) s₂) s₃) s₄ in
                      let charged = leb free_withdrawals_per_window allowance.0 in
                      let net = (compute_withdrawal_fee amount charged).1 in
                      let left = net_positive amount charged allowed.positive allowed.whole in
                      let stored_net : round2 net ≡ net =
                        round2-cents net (net-IsCents amount charged allowed.whole) in
                      Returns-bind
                        (lock_for_update-Returns e w₄ healthy alive₄ kapook allowed.from
                          (rw kept₄.working allowed.from_row))
                        λ _ w₅ alive₅ (_, s₅).
                          let kept₅ = Same-then kept₄ s₅ in
                          Returns-bind
                            (debit-Returns e w₅ healthy alive₅ kapook amount allowed.from
                              (rw kept₅.working allowed.from_row) allowed.enough)
                            λ b w₆ alive₆ (p, s₆).
                              let kept₆ =
                                Wrote-then
                                  (set_balance kapook (round2 (allowed.from.balance -ℤ amount)))
                                  kept₅ s₆ in
                              Returns-bind
                                (credit-Returns e w₆ healthy alive₆ primary.id net primary
                                  (rw kept₆.working to_row)
                                  (omega (int_laws, allowed.primary_pos, left)))
                                λ c w₇ alive₇ (r, s₇).
                                  let kept₇ =
                                    Wrote-then
                                      (set_balance primary.id (round2 (primary.balance +ℤ net)))
                                      kept₆ s₇ in
                                  Returns-bind
                                    (Returns-map_err _ _ (
                                      update_goal-Returns e w₇ healthy alive₇ g.id f g
                                        (rw kept₇.working allowed.by_id) valid))
                                    λ _ w₈ alive₈ _.
                                      Returns-bind (Returns-now e w₈ alive₈) λ t w₉ alive₉ _.
                                        Returns-bind
                                          (record_kapook_ledger_pair-Returns e w₉
                                            (withdraw_pair kapook primary.id g.id amount net charged
                                              b c t)
                                            healthy alive₉ positive positive (rw stored_net left))
                                          λ _ w₁₀ alive₁₀ _. Returns-pure _ alive₁₀ tt)

  withdraw-Returns :
      (w : World)
      → w.aborted ≡ false
      → IsAllowed user kapook amount w.committed
      → Returns (λ _ _. Unit) (withdraw user kapook amount) e w
  unfolding withdraw
  withdraw-Returns w alive allowed =
      Returns-bind
        (kapook_account-Returns e w healthy alive user kapook allowed.from allowed.from_row
          allowed.from_own allowed.from_type)
        λ _ w₁ alive₁ (_, s₁).
          Returns-bind
            (Returns-map_err _ _ (
              get_primary_account-Returns e w₁ healthy alive₁ user allowed.primary
                (rw s₁.committed allowed.primary_row)))
            λ primary w₂ alive₂ (q, s₂).
              Returns-bind
                (Returns-raise_if e w₂ healthy alive₂ _ _ (ground (arith, allowed.positive)))
                λ _ w₃ alive₃ s₃.
                  let same₃ = s₃.committed ∙ s₂.committed ∙ s₁.committed in
                  Returns-transaction {P = λ _ _. Unit} _ e w₃ healthy λ w₀ _ begun alive₀.
                    rw q (withdraw_body-Returns w₀ w.committed alive₀ (begun ∙ same₃) allowed)

-- If no statement fails and the committed tables allow it as `IsAllowed` says, a withdrawal
-- returns, and its outcome is that of `WithdrawOutcome`.
pub withdraw-returns :
    (e : Env) (w : World) (user kapook : Uuid) (amount : Decimal)
    → IsHealthy e
    → w.aborted ≡ false
    → IsAllowed user kapook amount w.committed
    → (r : WithdrawResult) × (w' : World) × (withdraw user kapook amount e w ≡ (ok r, w'))
      × WithdrawOutcome user kapook amount (e.clock w.readings) w.committed r w'.committed
withdraw-returns e w user kapook amount healthy alive allowed =
    let h = withdraw-Returns e user kapook amount healthy w alive allowed in
    (
      h.value,
      h.after,
      h.runs,
      withdraw-WithdrawOutcome e w h.after user kapook amount h.value h.runs,
    )
