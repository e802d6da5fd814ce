-- ===== src/Kapook/Service/Deposit/Rules.antt =====
-- What a deposit that returns has written.
use gsb_salak_backend.Prelude.{
  ◌≡◌, ◌≢◌, ◌∙◌, refl, sym, ap, Bool, true, false, ◌&&◌, some, List, [], ◌∷◌, update, arith,
  if◌then◌else◌, ◌==◌,
}
use gsb_salak_backend.Prelude.Int.{pos, ◌+ℤ◌, ◌-ℤ◌, ◌≤ℤ◌, ◌<ℤ◌, eqb_ℤ}
use gsb_salak_backend.Prelude.Decimal.{Decimal, round2}
use gsb_salak_backend.Calendar.{Time}
use gsb_salak_backend.Domain.{Uuid, Account, AccountType, Goal}
use gsb_salak_backend.Apperror.{internal_error}
use gsb_salak_backend.Store.{Env, World, Db, ok, map_err, pure, ◌>>◌}
use gsb_salak_backend.Store.Rules.{
  Ensures, Wrote, Same-then, Wrote-then, Ensures-bind, Ensures-pure, Ensures-map_err,
  Ensures-raise_if, Ensures-now, Ensures-mono, Ensures-transaction, Ensures-ok,
}
use gsb_salak_backend.Account.{account_at, set_balance}
use gsb_salak_backend.Account.Rules.{
  get_by_id-Ensures, lock_for_update-Ensures, debit-Ensures, credit-Ensures,
}
use gsb_salak_backend.Purchase.Rules.{Owns}
use gsb_salak_backend.Kapook.Goals.{
  active_goal, set_goal, with_saving_amount, reached, update_saving_amount, mark_goal_reached,
}
use gsb_salak_backend.Kapook.Service.Rules.{
  pair_rows, kapook_account-Ensures, lock_active_goal-Ensures, update_goal-Ensures,
  record_kapook_ledger_pair-Ensures,
}
use gsb_salak_backend.Kapook.Service.Deposit.{
  is_none, stamp_reached, deposit_pair, deposit_body, deposit,
}

-- The stamp of a goal that has just been reached.
abbrev pub is_reached_now : Goal → Decimal → Bool
is_reached_now g x = is_none g.goal_reached_at && eqb_ℤ x g.goal_amount

abbrev pub stamp_if : Bool → Time → Goal → Goal
stamp_if true t h = reached t h
stamp_if false t h = h

abbrev pub stamp : Goal → Decimal → Time → Goal → Goal
stamp g x t = stamp_if (is_reached_now g x) t

update_self {ℓ} : {A : Type ℓ} (p : A → Bool) (xs : List A) → update p (λ x. x) xs ≡ xs
update_self p [] = refl
update_self p (x ∷ xs) = ground (arith, update_self p xs)

set_goal_self : (g : Goal) (d : Db) → set_goal g.id (λ h. h) d ≡ d
set_goal_self g d = ap (λ gs. record d { goals = gs }) (update_self (λ h. h.id == g.id) d.goals)

stamp_reached-Ensures :
    (e : Env) (w : World) (g : Goal) (x : Decimal) (t : Time)
    → Ensures
        (λ g' w'. (g' ≡ stamp g x t g) × Wrote w w' (set_goal g.id (stamp g x t) w.working))
        (stamp_reached g x t)
        e
        w
unfolding stamp_reached mark_goal_reached
stamp_reached-Ensures e w g x t = go (is_reached_now g x)
  where
    go :
        (b : Bool)
        → Ensures
            (λ g' w'. (g' ≡ stamp_if b t g) × Wrote w w' (set_goal g.id (stamp_if b t) w.working))
            (if b
              then (map_err
                    (internal_error "failed to record goal reached")
                    (mark_goal_reached g.id t)
                  >> pure (record g { goal_reached_at = some t }))
              else pure g)
            e
            w
    go true =
        Ensures-bind (Ensures-map_err _ _ (update_goal-Ensures e w g.id (reached t)))
          λ _ w₁ (_, wrote). Ensures-pure _ (refl, wrote)
    go false =
        Ensures-pure _
          (refl, record { committed = refl; working = sym (set_goal_self g w.working) })

-- What a deposit does to the tables `d`, where `g` is the active goal and the two accounts are those
-- of the ids: both balances, the goal's savings and stamp, and the three rows of the ledger pair.
pub record Deposited (kapook savings : Uuid) (amount : Decimal) (d : Db) (g' : Goal) (d' : Db)
    : Type 0 where
  pub goal : Goal
  pub from : Account
  pub to : Account
  pub active : active_goal kapook d ≡ some goal
  pub from_row : account_at savings d ≡ some from
  pub to_row : account_at kapook (set_balance savings (round2 (from.balance -ℤ amount)) d) ≡ some to
  pub within_goal : goal.saving_amount +ℤ amount ≤ℤ goal.goal_amount
  pub enough : pos 0 ≤ℤ from.balance -ℤ amount
  pub at : Time
  pub created_at : Time
  pub reference : Uuid
  pub debit_id : Uuid
  pub credit_id : Uuid
  pub returned : g' ≡ record (stamp goal (goal.saving_amount +ℤ amount) at goal) {
    saving_amount = goal.saving_amount +ℤ amount;
  }
  pub tables :
      d'
      ≡ pair_rows
          (deposit_pair kapook savings goal.id amount
            (from.balance -ℤ amount)
            (to.balance +ℤ amount)
            at)
          reference
          debit_id
          credit_id
          created_at
          (set_goal goal.id (stamp goal (goal.saving_amount +ℤ amount) at) (
            set_goal goal.id (with_saving_amount (goal.saving_amount +ℤ amount)) (
              set_balance kapook
                (round2 (to.balance +ℤ amount))
                (set_balance savings (round2 (from.balance -ℤ amount)) d))))

deposit_body-Ensures :
    (e : Env) (w : World) (kapook savings : Uuid) (amount : Decimal)
    → Ensures
        (λ g' w'. Deposited kapook savings amount w.working g' w'.working)
        (deposit_body kapook savings amount)
        e
        w
unfolding deposit_body update_saving_amount
deposit_body-Ensures e w kapook savings amount =
    Ensures-bind (lock_active_goal-Ensures e w kapook) λ g w₁ (active, s₁).
      Ensures-bind (Ensures-raise_if e w₁ _ _) λ _ w₂ (within, s₂).
        Ensures-bind (lock_for_update-Ensures e w₂ kapook) λ _ w₃ (_, s₃).
          Ensures-bind (debit-Ensures e w₃ savings amount) λ b w₄ (from, from_row, p, enough, s₄).
            Ensures-bind (credit-Ensures e w₄ kapook amount) λ c w₅ (to, to_row, q, s₅).
              Ensures-bind
                (Ensures-map_err _ _
                  (update_goal-Ensures e w₅ g.id (with_saving_amount (g.saving_amount +ℤ amount))))
                λ _ w₆ (_, s₆). Ensures-bind (Ensures-now e w₆) λ t w₇ (_, s₇).
                  Ensures-bind (stamp_reached-Ensures e w₇ g (g.saving_amount +ℤ amount) t)
                    λ g' w₈ (r, s₈).
                      Ensures-bind (record_kapook_ledger_pair-Ensures e w₈ _)
                        λ _ w₉ (reference, i, j, at, s₉).
                          let x = g.saving_amount +ℤ amount in
                          let kept₃ = Same-then (Same-then s₁ s₂) s₃ in
                          let kept₄ = Wrote-then (set_balance savings (round2 b)) kept₃ s₄ in
                          let kept₅ = Wrote-then (set_balance kapook (round2 c)) kept₄ s₅ in
                          let kept₆ =
                            Same-then (Wrote-then (set_goal g.id (with_saving_amount x)) kept₅ s₆)
                              s₇ in
                          let kept₈ = Wrote-then (set_goal g.id (stamp g x t)) kept₆ s₈ in
                          let kept₉ =
                            Wrote-then
                              (pair_rows (deposit_pair kapook savings g.id amount b c t) reference i
                                j at)
                              kept₈ s₉ in
                          Ensures-pure _ (record {
                            goal = g;
                            from = from;
                            to = to;
                            active = active;
                            from_row = rw kept₃.working at from_row;
                            to_row = rw (sym p) (rw kept₄.working at to_row);
                            within_goal = ground arith;
                            enough = rw (sym p) enough;
                            at = t;
                            created_at = at;
                            reference = reference;
                            debit_id = i;
                            credit_id = j;
                            returned = ap {A = Goal} (λ h. record h { saving_amount = x }) r;
                            tables = rw (sym p) (rw (sym q) kept₉.working);
                          })

abbrev pub DepositOutcome : Uuid → Uuid → Uuid → Decimal → Db → Goal → Db → Type 0
DepositOutcome user kapook savings amount d g' d' =
    (pos 0 <ℤ amount)
    × (kapook ≢ savings)
    × Owns user kapook AccountType.kapook d
    × Owns user savings AccountType.savings d
    × Deposited kapook savings amount d g' d'

-- If a deposit returns, its amount is positive, its two accounts differ, are the user's and have
-- their types, and the committed tables afterwards are exactly those that `Deposited` describes,
-- where the amount was in the savings account and the goal's target is not exceeded.
pub deposit-DepositOutcome :
    (e : Env) (w w' : World) (user kapook savings : Uuid) (amount : Decimal) (g' : Goal)
    → deposit user kapook savings amount e w ≡ (ok g', w')
    → DepositOutcome user kapook savings amount w.committed g' w'.committed
unfolding deposit
deposit-DepositOutcome e w w' user kapook savings amount g' returned =
    Ensures-ok {Q = λ g₁ w₁. DepositOutcome user kapook savings amount w.committed g₁ w₁.committed}
      (Ensures-bind (Ensures-raise_if e w _ _) λ _ w₁ (differ, s₁).
        Ensures-bind (kapook_account-Ensures e w₁ user kapook) λ k w₂ (found_k, own_k, type_k, s₂).
          Ensures-bind (get_by_id-Ensures e w₂ user savings) λ s w₃ (found_s, own_s, s₃).
            Ensures-bind (Ensures-raise_if e w₃ _ _) λ _ w₄ (type_s, s₄).
              Ensures-bind (Ensures-raise_if e w₄ _ _) λ _ w₅ (positive, s₅).
                let same₂ = s₂.committed ∙ s₁.committed in
                let same₅ = s₅.committed ∙ s₄.committed ∙ s₃.committed ∙ same₂ in
                Ensures-transaction _
                  (λ w₀ _ begun.
                    Ensures-mono (deposit_body-Ensures e w₀ kapook savings amount)
                      λ g₁ w₁ h. rw (begun ∙ same₅) at h)
                  λ g₁ w₆ w₇ h committed. (
                    ground arith,
                    ground arith,
                    (k, rw s₁.committed at found_k, own_k, type_k),
                    (s, rw same₂ at found_s, own_s, ground arith),
                    rw committed h,
                  ))
      returned
