-- ===== src/Kapook/Service/Totals.antt =====
-- What the movements of money do to the sum of all balances, in whole satang.
use gsb_salak_backend.Prelude.{
  ◌≤◌, ◌<◌, ◌/◌, ◌+◌, ℕ, ◌≡◌, ◌∙◌, ◌*◌, refl, sym, ap, Bool, true, false, arith, leb,
}
use gsb_salak_backend.Prelude.Int.{pos, negsuc, ◌+ℤ◌, ◌-ℤ◌, ◌*ℤ◌, ◌≤ℤ◌, int_laws}
use gsb_salak_backend.Prelude.Decimal.{Decimal, IsCents, round2, sub-IsCents}
use gsb_salak_backend.Calendar.{Time}
use gsb_salak_backend.Domain.{Uuid, Goal}
use gsb_salak_backend.Store.{Env, World, Db, ok}
use gsb_salak_backend.Account.{set_balance}
use gsb_salak_backend.Account.Totals.{total, HasCents, total-debit, total-credit}
use gsb_salak_backend.Purchase.{SettlementReceipt}
use gsb_salak_backend.Purchase
use gsb_salak_backend.Purchase.Once.{settle_matured_holding-Settled}
use gsb_salak_backend.Kapook.Service.{
  compute_withdrawal_fee, two_percent, free_withdrawals_per_window,
}
use gsb_salak_backend.Kapook.Service.Deposit.{deposit}
use gsb_salak_backend.Kapook.Service.Deposit.Rules.{Deposited, deposit-DepositOutcome}
use gsb_salak_backend.Kapook.Service.Withdraw.{WithdrawResult, withdraw}
use gsb_salak_backend.Kapook.Service.Withdraw.Rules.{Withdrawn, withdraw-WithdrawOutcome}

Deposited-total :
    (kapook savings : Uuid) (amount : Decimal) (d : Db) (g' : Goal) (d' : Db)
    → Deposited kapook savings amount d g' d'
    → HasCents d
    → IsCents amount
    → (total d' ≡ total d) × HasCents d'
Deposited-total kapook savings amount d g' d' h cents whole =
    let (p, cents₁) = total-debit savings amount d h.from h.from_row cents whole in
    let (q, cents₂) =
      total-credit kapook amount (set_balance savings (round2 (h.from.balance -ℤ amount)) d) h.to
        h.to_row cents₁ whole in
    rw h.tables (q ∙ p, cents₂)

-- If all balances and the amount are whole satang, a deposit that returns leaves the sum of all balances
-- as it was, and the balances whole satang.
pub deposit-total :
    (e : Env) (w w' : World) (user kapook savings : Uuid) (amount : Decimal) (g' : Goal)
    → HasCents w.committed
    → IsCents amount
    → deposit user kapook savings amount e w ≡ (ok g', w')
    → (total w'.committed ≡ total w.committed) × HasCents w'.committed
deposit-total e w w' user kapook savings amount g' cents whole returned =
    let (_, _, _, _, h) = deposit-DepositOutcome e w w' user kapook savings amount g' returned in
    Deposited-total kapook savings amount w.committed g' w'.committed h cents whole

two_percent-IsCents : (amount : Decimal) → IsCents (two_percent amount)
unfolding ◌-ℤ◌
two_percent-IsCents (pos n) = ground arith
two_percent-IsCents (negsuc n) = ground arith

-- The fee and the net amount add up to the amount, and the fee is whole satang; of a positive amount in
-- whole satang the fee is at most the amount.
pub compute_withdrawal_fee-splits :
    (amount : Decimal) (charged : Bool)
    → let (fee, net) = compute_withdrawal_fee amount charged in
      (fee +ℤ net ≡ amount)
      × IsCents fee
      × ((n : ℕ) → amount ≡ pos (n * 100) → (pos 0 ≤ℤ fee) × (fee ≤ℤ amount))
unfolding compute_withdrawal_fee
compute_withdrawal_fee-splits amount true =
    (omega int_laws, two_percent-IsCents amount, λ n p. rw p (omega arith, omega arith))
compute_withdrawal_fee-splits amount false =
    (omega int_laws, (omega arith, omega arith), λ n p. rw p (omega arith, omega arith))

-- A withdrawal of `n` satang that is not charged costs nothing. A charged one costs the whole number of satang that is
-- nearest to two percent of the amount, of two the larger: the fee is within half a satang of
-- `n` / 50. What is credited is the rest.
pub compute_withdrawal_fee-two_percent :
    (n : ℕ)
    → (compute_withdrawal_fee (pos (n * 100)) false ≡ (pos 0, pos (n * 100)))
      × ((m : ℕ) × (compute_withdrawal_fee (pos (n * 100)) true
            ≡ (pos (m * 100), pos (n * 100) -ℤ pos (m * 100)))
          × (m * 50 ≤ n + 25)
          × (n < m * 50 + 25))
unfolding compute_withdrawal_fee
compute_withdrawal_fee-two_percent n =
    (refl, ((n * 100 * 2 + 5000) / 10000, refl, omega arith, omega arith))

pub net-IsCents :
    (amount : Decimal) (charged : Bool)
    → IsCents amount
    → IsCents (compute_withdrawal_fee amount charged).1
unfolding compute_withdrawal_fee
net-IsCents amount true whole =
    sub-IsCents amount (two_percent amount) whole (two_percent-IsCents amount)
net-IsCents amount false whole = whole

less_fee :
    (t' t amount fee net s : Decimal)
    → fee +ℤ net ≡ amount
    → s +ℤ amount ≡ t
    → t' ≡ s +ℤ net
    → t' +ℤ fee ≡ t
less_fee t' t amount fee net s p q r = rw r (rw (sym q) (rw (sym p) (omega int_laws)))

Withdrawn-total :
    (kapook savings : Uuid) (amount : Decimal) (now : Time) (d : Db) (r : WithdrawResult) (d' : Db)
    → Withdrawn kapook savings amount now d r d'
    → HasCents d
    → IsCents amount
    → (total d' +ℤ r.fee_amount ≡ total d) × HasCents d'
Withdrawn-total kapook savings amount now d r d' h cents whole =
    let charged = leb free_withdrawals_per_window h.used in
    let fee = (compute_withdrawal_fee amount charged).0 in
    let net = (compute_withdrawal_fee amount charged).1 in
    let (sum, fee_whole, _) = compute_withdrawal_fee-splits amount charged in
    let net_whole : IsCents net = net-IsCents amount charged whole in
    let (p, cents₁) = total-debit kapook amount d h.from h.from_row cents whole in
    let (q, cents₂) =
      total-credit savings net (set_balance kapook (round2 (h.from.balance -ℤ amount)) d) h.to
        h.to_row cents₁ net_whole in
    rw h.returned (
      rw h.tables (
        less_fee _ _ amount fee net
            (total (set_balance kapook (round2 (h.from.balance -ℤ amount)) d)) sum p q,
        cents₂,
      ))

-- If all balances and the amount are whole satang, a withdrawal that returns takes exactly its fee from
-- the sum of all balances.
pub withdraw-total :
    (e : Env) (w w' : World) (user kapook : Uuid) (amount : Decimal) (r : WithdrawResult)
    → HasCents w.committed
    → IsCents amount
    → withdraw user kapook amount e w ≡ (ok r, w')
    → (total w'.committed +ℤ r.fee_amount ≡ total w.committed) × HasCents w'.committed
withdraw-total e w w' user kapook amount r cents whole returned =
    let (_, _, (primary, _, h)) = withdraw-WithdrawOutcome e w w' user kapook amount r returned in
    Withdrawn-total kapook primary.id amount (e.clock w.readings) w.committed r w'.committed h cents
      whole

-- If all balances, the principal and the interest are whole satang, a settlement that returns adds exactly the
-- interest to the sum of all balances.
pub settle_matured_holding-total :
    (e : Env) (w w' : World) (id : Uuid) (r : SettlementReceipt)
    → HasCents w.committed
    → IsCents r.principal
    → IsCents r.interest
    → Purchase.settle_matured_holding id e w ≡ (ok r, w')
    → (total w'.committed ≡ total w.committed +ℤ r.interest) × HasCents w'.committed
settle_matured_holding-total e w w' id r cents whole whole' returned =
    let h = settle_matured_holding-Settled e w w' id r returned in
    let principal_whole : IsCents h.holding.purchase_amount = rw h.returned at whole in
    let interest_whole : IsCents (h.product.maturity_interest_per_unit *ℤ pos h.holding.units) =
      rw h.returned at whole' in
    let d₁ =
      set_balance h.holding.account_id (round2 (h.from.balance -ℤ h.holding.purchase_amount))
        w.committed in
    let d₂ = set_balance h.primary.id (round2 (h.to.balance +ℤ h.holding.purchase_amount)) d₁ in
    let interest = h.product.maturity_interest_per_unit *ℤ pos h.holding.units in
    let (p, cents₁) =
      total-debit h.holding.account_id h.holding.purchase_amount w.committed h.from h.from_row cents
        principal_whole in
    let (q, cents₂) =
      total-credit h.primary.id h.holding.purchase_amount d₁ h.to h.to_row cents₁ principal_whole in
    let (s, cents₃) =
      total-credit h.primary.id interest d₂ h.to_again h.tables.0 cents₂ interest_whole in
    rw h.returned (rw h.tables.1 (s ∙ ap (λ t. t +ℤ interest) (q ∙ p), cents₃))
