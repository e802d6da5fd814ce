-- ===== src/Kapook/Service/Buy/Totals.antt =====
-- What a purchase does to the sum of all balances, in whole satang.
use gsb_salak_backend.Prelude.{suc, String, Option, ◌≡◌, ◌∙◌, ap}
use gsb_salak_backend.Calendar.{Time}
use gsb_salak_backend.Prelude.Int.{◌+ℤ◌, ◌-ℤ◌}
use gsb_salak_backend.Prelude.Decimal.{Decimal, IsCents, round2}
use gsb_salak_backend.Domain.{Uuid}
use gsb_salak_backend.Store.{Env, World, Db, ok}
use gsb_salak_backend.Account.{set_balance}
use gsb_salak_backend.Account.Totals.{sum_balances, total, HasCents, total-debit, total-credit}
use gsb_salak_backend.Purchase.{BuySalakReceipt, buy_salak}
use gsb_salak_backend.Purchase.Bought.{Bought}
use gsb_salak_backend.Purchase.Outcome.{buy_salak-BuyOutcome}
use gsb_salak_backend.Kapook.Service.Buy.{BuyFromGoalResult, buy_from_goal}
use gsb_salak_backend.Kapook.Service.Buy.Rules.{buy_from_goal-BoughtFromGoal}

-- The holding that is created between the two movements leaves the accounts alone.
Bought-total :
    (funding salak product : Uuid) (amount : Decimal) (name : String) (minted : Time)
    (committed d : Db) (r : BuySalakReceipt) (d' : Db)
    → Bought funding salak product amount name minted committed d r d'
    → HasCents d
    → IsCents amount
    → (total d' ≡ total d) × HasCents d'
Bought-total funding salak product amount name minted committed d r d' h cents whole =
    let paid = set_balance funding (round2 (h.from.balance -ℤ amount)) d in
    let (p, cents₁) = total-debit funding amount d h.from h.from_row cents whole in
    let same : h.minted_tables.accounts ≡ paid.accounts =
      rw h.minted.tables (ap (λ x. x.accounts) h.minted.reserved.tables) in
    let cents₂ : HasCents h.minted_tables = rw same cents₁ in
    let same_total : total h.minted_tables ≡ total paid = ap sum_balances same in
    let (q, cents₃) = total-credit salak amount h.minted_tables h.to h.to_row cents₂ whole in
    rw h.tables (q ∙ ap (λ t. t +ℤ amount) same_total ∙ p, cents₃)

-- If all balances and the amount are whole satang, a purchase that returns leaves the sum of all balances as it
-- was, whether it is paid from a savings account or from a goal.
pub buy-total :
    (e : Env) (w w' : World) (user funding salak : Uuid) (amount : Decimal)
    → HasCents w.committed
    → IsCents amount
    → ((product : Uuid) (badge : Option Uuid) (r : BuySalakReceipt)
        → buy_salak user funding salak product badge amount e w ≡ (ok r, w')
        → (total w'.committed ≡ total w.committed) × HasCents w'.committed)
      × ((r : BuyFromGoalResult)
          → buy_from_goal user funding salak amount e w ≡ (ok r, w')
          → (total w'.committed ≡ total w.committed) × HasCents w'.committed)
buy-total e w w' user funding salak amount cents whole = (
  λ product badge r returned.
      let (_, _, _, (p, _, h)) =
        buy_salak-BuyOutcome e w w' user funding salak product badge amount r returned in
      Bought-total funding salak product amount p.name (e.clock (suc w.readings)) w.committed
        w.committed r w'.committed h cents whole,
  λ r returned.
      let (_, h) = buy_from_goal-BoughtFromGoal e w w' user funding salak amount r returned in
      let (_, _, _, (p, _, k)) = h.bought in
      let (same, cents') =
        Bought-total funding salak h.goal.product_id amount p.name (e.clock (suc w.readings))
          w.committed w.committed r.receipt h.bought_tables k cents whole in
      rw h.tables (same, cents'),
)
