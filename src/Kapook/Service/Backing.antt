-- ===== src/Kapook/Service/Backing.antt =====
-- The money behind a goal: the balance of its account and what the goal has available.
use gsb_salak_backend.Prelude.{
  suc, Bool, ◌≡◌, ◌≢◌, ◌∙◌, refl, sym, ap, some, ◌==◌, some-injective, find-update, true, false,
  not, leb, find, arith,
}
use mathlib.Core.Path.{subst}
use gsb_salak_backend.Prelude.Int.{◌+ℤ◌, ◌-ℤ◌, ltb_ℤ, int_laws}
use gsb_salak_backend.Prelude.Decimal.{
  Decimal, IsCents, round2, round2-cents, add-IsCents, sub-IsCents,
}
use gsb_salak_backend.Calendar.{Time}
use gsb_salak_backend.Domain.{Uuid, Account, Goal, available_balance}
use gsb_salak_backend.Store.{Env, World, Db, ok}
use gsb_salak_backend.Account.{account_at, primary_of, set_balance}
use gsb_salak_backend.Account.Returns.{account_at-set_balance}
use gsb_salak_backend.Kapook.Goals.{
  active_goal, goal_at, set_goal, with_saving_amount, after_withdrawal, after_purchase,
}
use gsb_salak_backend.Kapook.Service.Returns.{goal_at-set_goal}
use gsb_salak_backend.Kapook.Service.Deposit.{deposit}
use gsb_salak_backend.Kapook.Service.Deposit.Rules.{
  stamp, stamp_if, is_reached_now, Deposited, deposit-DepositOutcome,
}
use gsb_salak_backend.Kapook.Service.{compute_withdrawal_fee, free_withdrawals_per_window}
use gsb_salak_backend.Kapook.Service.Withdraw.{WithdrawResult, is_reached, withdraw}
use gsb_salak_backend.Kapook.Service.Withdraw.Rules.{Withdrawn, withdraw-WithdrawOutcome}
use gsb_salak_backend.Kapook.Service.Buy.{BuyFromGoalResult, buy_from_goal}
use gsb_salak_backend.Kapook.Service.Buy.Rules.{BoughtFromGoal, buy_from_goal-BoughtFromGoal}

-- The goal's row, and the balance of the account is what the goal has available, in whole satang.
abbrev pub IsBacked : Uuid → Uuid → Db → Goal → Type 0
IsBacked kapook i d g =
    (goal_at i d ≡ some g)
    × IsCents g.saving_amount
    × IsCents g.salak_amount
    × ((a : Account) × (account_at kapook d ≡ some a) × (a.balance ≡ available_balance g))

-- The row of an account with a new balance.
account_at-set_balance_same :
    (i : Uuid) (b : Decimal) (d : Db) (a : Account)
    → account_at i d ≡ some a
    → account_at i (set_balance i b d) ≡ some (record a { balance = b })
account_at-set_balance_same i b d a found =
    find-update (λ x. x.id == i) (λ x. record x { balance = b }) (λ x h. h) d.accounts a found

-- A goal and its account that move together stay together.
IsBacked-moved :
    (kapook i : Uuid) (g : Goal) (a : Account) (b : Decimal) (d : Db)
    → goal_at i d ≡ some g
    → account_at kapook d ≡ some (record a { balance = round2 b })
    → IsCents g.saving_amount
    → IsCents g.salak_amount
    → b ≡ available_balance g
    → IsBacked kapook i d g
IsBacked-moved kapook i g a b d row account saving salak same =
    let whole : IsCents b = rw same (sub-IsCents g.saving_amount g.salak_amount saving salak) in
    (row, saving, salak, (record a { balance = round2 b }, account, round2-cents b whole ∙ same))

-- The stamp changes neither the id nor the amounts.
stamp-keeps :
    (b : Bool) (t : Time) (h : Goal)
    → ((stamp_if b t h).id ≡ h.id)
      × ((stamp_if b t h).saving_amount ≡ h.saving_amount)
      × ((stamp_if b t h).salak_amount ≡ h.salak_amount)
stamp-keeps true t h = (refl, refl, refl)
stamp-keeps false t h = (refl, refl, refl)

-- The goal with this id is still backed.
abbrev pub StaysBacked : Uuid → Uuid → Db → Type 0
StaysBacked kapook i d = (g : Goal) × IsBacked kapook i d g

Deposited-backed :
    (kapook savings : Uuid) (amount : Decimal) (d : Db) (g' : Goal) (d' : Db)
    → kapook ≢ savings
    → (h : Deposited kapook savings amount d g' d') → IsBacked kapook h.goal.id d h.goal
    → IsCents amount
    → StaysBacked kapook h.goal.id d'
Deposited-backed kapook savings amount d g' d' differ h (row, saving, salak, (a, at, same)) whole =
    let g = h.goal in
    let x = g.saving_amount +ℤ amount in
    let x_whole : IsCents x = add-IsCents g.saving_amount amount saving whole in
    let stored : round2 x ≡ x = round2-cents x x_whole in
    let paid = set_balance savings (round2 (h.from.balance -ℤ amount)) d in
    let is_a : h.to ≡ a =
      some-injective (sym h.to_row ∙ account_at-set_balance kapook savings _ d differ ∙ at) in
    let f = stamp g x h.at in
    let b = is_reached_now g x in
    let saved = with_saving_amount x g in
    let (_, saving_same, salak_same) = stamp-keeps b h.at saved in
    let moved = h.to.balance +ℤ amount in
    let d₂ = set_goal g.id (with_saving_amount x) (set_balance kapook (round2 moved) paid) in
    let row₂ : goal_at g.id d₂ ≡ some saved =
      goal_at-set_goal g.id (with_saving_amount x) (set_balance kapook (round2 moved) paid) g
        (λ y. refl) row in
    (
      f saved,
      rw h.tables (
          IsBacked-moved kapook g.id (f saved) h.to moved (set_goal g.id f d₂)
            (goal_at-set_goal g.id f d₂ saved (λ y. (stamp-keeps b h.at y).0) row₂)
            (account_at-set_balance_same kapook (round2 moved) paid h.to h.to_row)
            (rw saving_same (rw stored x_whole)) (rw salak_same salak)
            (rw saving_same (rw salak_same (rw stored (rw is_a (rw same (omega int_laws))))))),
    )

Withdrawn-backed :
    (kapook savings : Uuid) (amount : Decimal) (now : Time) (d : Db) (r : WithdrawResult) (d' : Db)
    → kapook ≢ savings
    → (h : Withdrawn kapook savings amount now d r d') → IsBacked kapook h.goal.id d h.goal
    → IsCents amount
    → StaysBacked kapook h.goal.id d'
Withdrawn-backed kapook savings amount now d r d' differ h (row, saving, salak, (a, at, same))
      whole =
    let g = h.goal in
    let x = g.saving_amount -ℤ amount in
    let x_whole : IsCents x = sub-IsCents g.saving_amount amount saving whole in
    let stored : round2 x ≡ x = round2-cents x x_whole in
    let is_a : h.from ≡ a = some-injective (sym h.from_row ∙ at) in
    let moved = h.from.balance -ℤ amount in
    let net = (compute_withdrawal_fee amount (leb free_withdrawals_per_window h.used)).1 in
    let f = after_withdrawal x (not (is_reached g)) in
    let paid = set_balance kapook (round2 moved) d in
    let d₂ = set_balance savings (round2 (h.to.balance +ℤ net)) paid in
    (
      f g,
      rw h.tables (
          IsBacked-moved kapook g.id (f g) h.from moved (set_goal g.id f d₂)
            (goal_at-set_goal g.id f d₂ g (λ y. refl) row)
            (account_at-set_balance kapook savings _ paid differ
              ∙ account_at-set_balance_same kapook (round2 moved) d h.from h.from_row)
            (rw stored x_whole) salak (rw stored (rw is_a (rw same (omega int_laws))))),
    )

Bought-backed :
    (user kapook salak : Uuid) (amount : Decimal) (checked minted : Time) (d : Db)
    (r : BuyFromGoalResult) (d' : Db)
    → (h : BoughtFromGoal user kapook salak amount false checked minted d d r d')
    → IsBacked kapook h.goal.id d h.goal
    → IsCents amount
    → StaysBacked kapook h.goal.id d'
Bought-backed user kapook salak amount checked minted d r d' h
      (row, saving, certificates, (a, at, same)) whole =
    let (differ, _, _, (p, _, k)) = h.bought in
    let apart : kapook ≢ salak = ground arith in
    let g = h.goal in
    let x = g.salak_amount +ℤ amount in
    let x_whole : IsCents x = add-IsCents g.salak_amount amount certificates whole in
    let stored : round2 x ≡ x = round2-cents x x_whole in
    let is_a : k.from ≡ a = some-injective (sym k.from_row ∙ at) in
    let moved = k.from.balance -ℤ amount in
    let paid = set_balance kapook (round2 moved) d in
    let f = after_purchase x (ltb_ℤ x g.goal_amount) in
    let minted_accounts : k.minted_tables.accounts ≡ paid.accounts =
      rw k.minted.tables (ap (λ t. t.accounts) k.minted.reserved.tables) in
    let minted_goals : k.minted_tables.goals ≡ d.goals =
      rw k.minted.tables (ap (λ t. t.goals) k.minted.reserved.tables) in
    let d₂ = set_balance salak (round2 (k.to.balance +ℤ amount)) k.minted_tables in
    let row₂ : goal_at g.id d₂ ≡ some g = ap (find (λ y. y.id == g.id)) minted_goals ∙ row in
    let account₂ : account_at kapook d₂ ≡ some (record k.from { balance = round2 moved }) =
      account_at-set_balance kapook salak _ k.minted_tables apart
      ∙ ap (find (λ y. y.id == kapook)) minted_accounts
      ∙ account_at-set_balance_same kapook (round2 moved) d k.from k.from_row in
    (
      f g,
      rw h.tables (
          rw k.tables (
            IsBacked-moved kapook g.id (f g) k.from moved (set_goal g.id f d₂)
              (goal_at-set_goal g.id f d₂ g (λ y. refl) row₂) account₂ saving (rw stored x_whole)
              (rw stored (rw is_a (rw same (omega int_laws)))))),
    )

-- If the balance of an account is what its active goal has available, and all is in whole satang, then
-- after a deposit, a withdrawal to another account or a purchase that returns, the balance of the
-- account is what that goal has available then.
pub movements-StaysBacked :
    (e : Env) (w w' : World) (user kapook : Uuid) (amount : Decimal) (g : Goal)
    → active_goal kapook w.committed ≡ some g
    → IsBacked kapook g.id w.committed g
    → IsCents amount
    → ((savings : Uuid) (g' : Goal)
        → deposit user kapook savings amount e w ≡ (ok g', w')
        → StaysBacked kapook g.id w'.committed)
      × ((r : WithdrawResult)
          → ((p : Account) → primary_of user w.committed ≡ some p → kapook ≢ p.id)
          → withdraw user kapook amount e w ≡ (ok r, w')
          → StaysBacked kapook g.id w'.committed)
      × ((salak : Uuid) (r : BuyFromGoalResult)
          → buy_from_goal user kapook salak amount e w ≡ (ok r, w')
          → StaysBacked kapook g.id w'.committed)
movements-StaysBacked e w w' user kapook amount g active backed whole = (
  λ savings g' returned.
      let (_, differ, _, _, h) =
        deposit-DepositOutcome e w w' user kapook savings amount g' returned in
      let same : g ≡ h.goal = some-injective (sym active ∙ h.active) in
      let backed' = subst (λ x. IsBacked kapook x.id w.committed x) same backed in
      rw same
        (Deposited-backed kapook savings amount w.committed g' w'.committed differ h backed' whole),
  λ r apart returned.
      let (_, _, (p, primary, h)) = withdraw-WithdrawOutcome e w w' user kapook amount r returned in
      let same : g ≡ h.goal = some-injective (sym active ∙ h.active) in
      let backed' = subst (λ x. IsBacked kapook x.id w.committed x) same backed in
      rw same (
        Withdrawn-backed kapook p.id amount (e.clock w.readings) w.committed r w'.committed
          (apart p primary) h backed' whole),
  λ salak r returned.
      let (_, h) = buy_from_goal-BoughtFromGoal e w w' user kapook salak amount r returned in
      let same : g ≡ h.goal = some-injective (sym active ∙ h.active) in
      let backed' = subst (λ x. IsBacked kapook x.id w.committed x) same backed in
      rw same (
        Bought-backed user kapook salak amount (e.clock w.readings) (e.clock (suc w.readings))
          w.committed r w'.committed h backed' whole),
)
