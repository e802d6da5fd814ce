-- ===== src/Kapook/Service/Withdraw/Rules.antt =====
-- What a withdrawal that returns has written.
use gsb_salak_backend.Prelude.{◌≡◌, ◌∙◌, refl, sym, false, not, some, ℕ, leb, ◌&&◌, arith}
use gsb_salak_backend.Prelude.Int.{pos, ◌+ℤ◌, ◌-ℤ◌, ◌≤ℤ◌, ◌<ℤ◌, ltb_ℤ}
use gsb_salak_backend.Prelude.Decimal.{Decimal, round2}
use gsb_salak_backend.Calendar.{Time}
use gsb_salak_backend.Domain.{Uuid, Account, AccountType, Goal, available_balance}
use gsb_salak_backend.Store.{Env, World, Db, ok}
use gsb_salak_backend.Store.Rules.{
  Ensures, Wrote-then, Same-then, Ensures-bind, Ensures-pure, Ensures-map_err, Ensures-raise_if,
  Ensures-now, Ensures-mono, Ensures-ok, Ensures-Begun,
}
use gsb_salak_backend.Store.Frames.{Ensures-Keeps, Still-raise_if, Keeps-map_err}
use gsb_salak_backend.Account.Still.{get_primary_account-Still}
use gsb_salak_backend.Kapook.Service.Still.{kapook_account-Still, lock_active_goal-Still}
use gsb_salak_backend.Account.{account_at, primary_of, set_balance}
use gsb_salak_backend.Account.Rules.{
  get_primary_account-Ensures, lock_for_update-Ensures, debit-Ensures, credit-Ensures,
}
use gsb_salak_backend.Purchase.Rules.{Owns}
use gsb_salak_backend.Kapook.Goals.{active_goal, set_goal, after_withdrawal}
use gsb_salak_backend.Kapook.Goals
use gsb_salak_backend.Kapook.Service.{compute_withdrawal_fee, free_withdrawals_per_window}
use gsb_salak_backend.Kapook.Service.Rules.{
  Allowance, pair_rows, withdrawal_allowance-Ensures, kapook_account-Ensures,
  lock_active_goal-Ensures, update_goal-Ensures, record_kapook_ledger_pair-Ensures,
}
use gsb_salak_backend.Kapook.Service.Withdraw.{
  WithdrawResult, is_reached, withdraw_pair, withdraw_body, withdraw,
}

-- What a withdrawal at the time `now` to the account `savings` does to the tables `d`: the `used`
-- withdrawals of the goal's window at that time decide the fee.
pub record Withdrawn (kapook savings : Uuid) (amount : Decimal) (now : Time) (d : Db)
    (r : WithdrawResult) (d' : Db) : Type 0 where
  pub goal : Goal
  pub used : ℕ
  pub from : Account
  pub to : Account
  pub at : Time
  pub created_at : Time
  pub reference : Uuid
  pub debit_id : Uuid
  pub credit_id : Uuid
  pub active : active_goal kapook d ≡ some goal
  pub within_available : amount ≤ℤ available_balance goal
  pub full_once_reached : (is_reached goal && ltb_ℤ amount (available_balance goal)) ≡ false
  pub allowance : Allowance goal now d used
  pub from_row : account_at kapook d ≡ some from
  pub enough : pos 0 ≤ℤ from.balance -ℤ amount
  pub to_row : account_at savings (set_balance kapook (round2 (from.balance -ℤ amount)) d) ≡ some to
  pub returned :
      let charged = leb free_withdrawals_per_window used in
      let (fee, net) = compute_withdrawal_fee amount charged in
      r ≡ record {
        goal = record goal {
          saving_amount = goal.saving_amount -ℤ amount;
          is_active = not (is_reached goal);
        };
        amount = amount;
        fee_charged = charged;
        fee_amount = fee;
        net_credited = net;
        goal_closed = is_reached goal;
      }
  pub tables :
      let charged = leb free_withdrawals_per_window used in
      let net = (compute_withdrawal_fee amount charged).1 in
      d'
      ≡ pair_rows
          (withdraw_pair kapook savings goal.id amount net charged
            (from.balance -ℤ amount)
            (to.balance +ℤ net)
            at)
          reference
          debit_id
          credit_id
          created_at
          (set_goal goal.id
            (after_withdrawal (goal.saving_amount -ℤ amount) (not (is_reached goal)))
            (set_balance savings
              (round2 (to.balance +ℤ net))
              (set_balance kapook (round2 (from.balance -ℤ amount)) d)))

withdraw_body-Ensures :
    (e : Env) (w : World) (kapook savings : Uuid) (amount : Decimal)
    → Ensures
        (λ r w'. Withdrawn kapook savings amount (e.clock w.readings) w.working r w'.working)
        (withdraw_body kapook savings amount)
        e
        w
unfolding withdraw_body Goals.update_after_withdrawal
withdraw_body-Ensures e w kapook savings amount =
    Ensures-bind
      (Ensures-Keeps (lock_active_goal-Still kapook) (lock_active_goal-Ensures e w kapook))
      λ g w₁ ((active, s₁), t₁).
        Ensures-bind (Ensures-Keeps (Still-raise_if _ _) (Ensures-raise_if e w₁ _ _))
          λ _ w₂ ((within, s₂), t₂).
            Ensures-bind (Ensures-Keeps (Still-raise_if _ _) (Ensures-raise_if e w₂ _ _))
              λ _ w₃ ((full, s₃), t₃).
                Ensures-bind (withdrawal_allowance-Ensures e w₃ g) λ allowance w₄ (counted, s₄).
                  Ensures-bind (lock_for_update-Ensures e w₄ kapook) λ _ w₅ (_, s₅).
                    Ensures-bind (debit-Ensures e w₅ kapook amount)
                      λ b w₆ (from, from_row, p, enough, s₆).
                        Ensures-bind (credit-Ensures e w₆ savings _) λ c w₇ (to, to_row, q, s₇).
                          Ensures-bind
                            (Ensures-map_err _ _ (
                              update_goal-Ensures e w₇ g.id (
                                after_withdrawal (g.saving_amount -ℤ amount) (not (is_reached g)))))
                            λ _ w₈ (_, s₈). Ensures-bind (Ensures-now e w₈) λ t w₉ (_, s₉).
                              Ensures-bind (record_kapook_ledger_pair-Ensures e w₉ _)
                                λ _ w₁₀ (reference, i, j, at, s₁₀).
                                  let used = allowance.0 in
                                  let charged = leb free_withdrawals_per_window used in
                                  let net = (compute_withdrawal_fee amount charged).1 in
                                  let kept₃ = Same-then (Same-then s₁ s₂) s₃ in
                                  let kept₅ = Same-then (Same-then kept₃ s₄) s₅ in
                                  let kept₆ = Wrote-then (set_balance kapook (round2 b)) kept₅ s₆ in
                                  let kept₇ =
                                    Wrote-then (set_balance savings (round2 c)) kept₆ s₇ in
                                  let kept₈ =
                                    Wrote-then
                                      (set_goal g.id (
                                        after_withdrawal (g.saving_amount -ℤ amount)
                                          (not (is_reached g))))
                                      kept₇ s₈ in
                                  let kept₁₀ =
                                    Wrote-then
                                      (pair_rows
                                        (withdraw_pair kapook savings g.id amount net charged b c t)
                                        reference i j at)
                                      (Same-then kept₈ s₉) s₁₀ in
                                  Ensures-pure _ (record {
                                    goal = g;
                                    used = used;
                                    from = from;
                                    to = to;
                                    at = t;
                                    created_at = at;
                                    reference = reference;
                                    debit_id = i;
                                    credit_id = j;
                                    active = active;
                                    within_available = ground arith;
                                    full_once_reached = full;
                                    allowance = rw (t₃ ∙ t₂ ∙ t₁) at (rw kept₃.working at counted);
                                    from_row = rw kept₅.working at from_row;
                                    enough = rw (sym p) enough;
                                    to_row = rw (sym p) (rw kept₆.working at to_row);
                                    returned = refl;
                                    tables = rw (sym p) (rw (sym q) kept₁₀.working);
                                  })

abbrev pub WithdrawOutcome : Uuid → Uuid → Decimal → Time → Db → WithdrawResult → Db → Type 0
WithdrawOutcome user kapook amount now d r d' =
    (pos 0 <ℤ amount)
    × Owns user kapook AccountType.kapook d
    × ((primary : Account) × (primary_of user d ≡ some primary)
        × Withdrawn kapook primary.id amount now d r d')

-- If a withdrawal returns, its amount is positive, the kapook account is the user's and of that type, and
-- the committed tables and the result are exactly those that `Withdrawn` describes for the user's
-- primary account: the amount is at most the goal's available balance, and all of it once the goal
-- is reached, which closes the goal; the fee is charged if the withdrawals that the committed tables
-- have in the goal's window at the clock's reading are two or more.
pub withdraw-WithdrawOutcome :
    (e : Env) (w w' : World) (user kapook : Uuid) (amount : Decimal) (r : WithdrawResult)
    → withdraw user kapook amount e w ≡ (ok r, w')
    → WithdrawOutcome user kapook amount (e.clock w.readings) w.committed r w'.committed
unfolding withdraw
withdraw-WithdrawOutcome e w w' user kapook amount r returned =
    Ensures-ok
      {Q = λ r₁ w₁.
        WithdrawOutcome user kapook amount (e.clock w.readings) w.committed r₁ w₁.committed}
      (Ensures-bind
        (Ensures-Keeps (kapook_account-Still user kapook) (kapook_account-Ensures e w user kapook))
        λ k w₁ ((found_k, own_k, type_k, s₁), t₁).
          Ensures-bind
            (Ensures-Keeps (Keeps-map_err _ _ (get_primary_account-Still user))
              (Ensures-map_err _ _ (get_primary_account-Ensures e w₁ user)))
            λ primary w₂ ((found, s₂), t₂).
              Ensures-bind (Ensures-Keeps (Still-raise_if _ _) (Ensures-raise_if e w₂ _ _))
                λ _ w₃ ((positive, s₃), t₃).
                  let same₃ = s₃.committed ∙ s₂.committed ∙ s₁.committed in
                  Ensures-Begun _
                    (λ w₀ begun.
                      Ensures-mono (withdraw_body-Ensures e w₀ kapook primary.id amount) λ r₁ w₁ h.
                        rw (begun.readings ∙ t₃ ∙ t₂ ∙ t₁) at (rw (begun.working ∙ same₃) at h))
                    λ r₁ w₄ w₅ h committed. (
                      ground arith,
                      (k, found_k, own_k, type_k),
                      (primary, rw s₁.committed at found, rw committed h),
                    ))
      returned
