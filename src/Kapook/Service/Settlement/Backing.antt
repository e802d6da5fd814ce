-- ===== src/Kapook/Service/Settlement/Backing.antt =====
-- A settlement and the money behind a goal.
use gsb_salak_backend.Prelude.{
  ◌≡◌, ◌≢◌, ◌∙◌, refl, sym, some, ◌==◌, find-passes, some-injective, arith,
}
use gsb_salak_backend.Prelude.Int.{pos, negsuc, ◌+ℤ◌, ◌-ℤ◌, ◌≤ℤ◌, int_laws}
use gsb_salak_backend.Prelude.Decimal.{Decimal, IsCents, round2, round2-cents, sub-IsCents}
use gsb_salak_backend.Domain.{Uuid, Account, Goal, Holding, Transaction, available_balance}
use gsb_salak_backend.Store.{Env, World, Db, ok}
use gsb_salak_backend.Account.{account_at, primary_of, set_balance}
use gsb_salak_backend.Account.Returns.{account_at-set_balance}
use gsb_salak_backend.Salak.Repository.{holding_at}
use gsb_salak_backend.Purchase.{SettlementReceipt}
use gsb_salak_backend.Purchase.Settlement.{Settled}
use gsb_salak_backend.Kapook.Goals.{goal_at, after_expiration}
use gsb_salak_backend.Kapook.Transactions.{purchase_of}
use gsb_salak_backend.Kapook.Service.Returns.{goal_at-set_goal}
use gsb_salak_backend.Kapook.Service.Settlement.{max_zero, settle_matured_holding}
use gsb_salak_backend.Kapook.Service.Settlement.Rules.{
  Expired, settle_matured_holding-SettlementOutcome,
}

max_zero_id : (a : Decimal) → pos 0 ≤ℤ a → max_zero a ≡ a
max_zero_id (pos n) h = ground arith
max_zero_id (negsuc n) h = absurd (omega (arith, h))

max_zero_pos : (a b : Decimal) → b ≤ℤ a → max_zero (a -ℤ b) ≡ a -ℤ b
max_zero_pos a b h = max_zero_id (a -ℤ b) (omega (int_laws, h))

-- The accounts that a settlement changes are the holding's and the owner's primary one.
Settled-others :
    (id : Uuid) (c d paid : Db) (r : SettlementReceipt) (h : Settled id c d r paid) (i : Uuid)
    → i ≢ h.holding.account_id
    → i ≢ h.primary.id
    → account_at i paid ≡ account_at i d
Settled-others id c d paid r h i k l =
    let d₁ =
      set_balance h.holding.account_id (round2 (h.from.balance -ℤ h.holding.purchase_amount)) d in
    let d₂ = set_balance h.primary.id (round2 (h.to.balance +ℤ h.holding.purchase_amount)) d₁ in
    rw h.tables.1 (
      account_at-set_balance i h.primary.id _ d₂ l
      ∙ account_at-set_balance i h.primary.id _ d₁ l
      ∙ account_at-set_balance i h.holding.account_id _ d k)

raised :
    (g : Goal) (p : Decimal)
    → IsCents g.salak_amount
    → IsCents p
    → p ≤ℤ g.salak_amount
    → available_balance (after_expiration (max_zero (g.salak_amount -ℤ p)) g)
      ≡ available_balance g +ℤ p
raised g p k l h =
    rw (max_zero_pos g.salak_amount p h)
      (rw (round2-cents (g.salak_amount -ℤ p) (sub-IsCents g.salak_amount p k l)) (omega int_laws))

-- If a settlement returns of a holding that a goal bought, with the goal's certificates covering the principal and
-- both in whole satang, then the goal's available balance is higher by the principal afterwards, whereas
-- every account but the holding's and the primary one of that account's owner is as it was: so is the goal's
-- own, where it is neither of the two.
pub settle_matured_holding-raises_available :
    (e : Env) (w w' : World) (holding : Uuid) (r : SettlementReceipt) (bought : Transaction)
    (g : Goal)
    → settle_matured_holding holding e w ≡ (ok r, w')
    → purchase_of holding w.committed ≡ some bought
    → goal_at bought.goal_id w.committed ≡ some g
    → IsCents g.salak_amount
    → IsCents r.principal
    → r.principal ≤ℤ g.salak_amount
    → ((g' : Goal) × (goal_at bought.goal_id w'.committed ≡ some g')
        × (available_balance g' ≡ available_balance g +ℤ r.principal))
      × ((h : Holding) × (a : Account) × (p : Account) × (holding_at holding w.committed ≡ some h)
          × (account_at h.account_id w.committed ≡ some a)
          × (primary_of a.user_id w.committed ≡ some p)
          × ((i : Uuid)
              → i ≢ h.account_id
              → i ≢ p.id
              → account_at i w'.committed ≡ account_at i w.committed))
settle_matured_holding-raises_available e w w' holding r bought g returned of_goal found k l
      covers =
    let (paid, h, expired) = settle_matured_holding-SettlementOutcome e w w' holding r returned in
    let (g₁, i, at, found₁, tables) : Expired holding r w.committed paid (some bought)
        w'.committed =
      rw of_goal at expired in
    let same : g₁ ≡ g = some-injective (sym found₁ ∙ found) in
    let named : g.id ≡ bought.goal_id =
      ground (arith, find-passes (λ x. x.id == bought.goal_id) w.committed.goals g found) in
    let tables' = rw named at (rw same at tables) in
    let f = after_expiration (max_zero (g.salak_amount -ℤ r.principal)) in
    let found_paid : goal_at bought.goal_id paid ≡ some g = rw h.tables.1 found in
    (
      (
        f g,
        rw tables' (goal_at-set_goal bought.goal_id f paid g (λ x. refl) found_paid),
        raised g r.principal k l covers,
      ),
      (
        h.holding,
        h.account,
        h.primary,
        h.found,
        h.account_row,
        h.primary_row,
        λ j p q. rw tables' (Settled-others holding w.committed w.committed paid r h j p q),
      ),
    )
