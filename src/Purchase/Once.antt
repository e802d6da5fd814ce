-- ===== src/Purchase/Once.antt =====
-- A holding is settled at most once, and only while its product is for sale.
use gsb_salak_backend.Prelude.{
  ◌≡◌, ◌≢◌, ◌∙◌, sym, ap, true, false, some, find-passes, some-injective, find-update, ◌==◌, arith,
}
use gsb_salak_backend.Calendar.{Time}
use gsb_salak_backend.Domain.{Uuid, Holding, Product}
use gsb_salak_backend.Store.{Env, World, Db, ok}
use gsb_salak_backend.Store.Rules.{Ensures-mono, Ensures-ok, Ensures-transaction}
use gsb_salak_backend.Salak.Repository.{holding_at, product_at, settle_holding}
use gsb_salak_backend.Purchase.{SettlementReceipt, is_settled, settle_matured_holding}
use gsb_salak_backend.Purchase.Settlement.{Settled, settle_matured_holding_in_tx-Settled}

-- If `SettleMaturedHolding` returns, the committed tables afterwards are those that `Settled` describes, from
-- the committed tables before.
pub settle_matured_holding-Settled :
    (e : Env) (w w' : World) (id : Uuid) (r : SettlementReceipt)
    → settle_matured_holding id e w ≡ (ok r, w')
    → Settled id w.committed w.committed r w'.committed
unfolding settle_matured_holding
settle_matured_holding-Settled e w w' id r returned =
    Ensures-ok {Q = λ r₁ w₁. Settled id w.committed w.committed r₁ w₁.committed}
      (Ensures-transaction _
        (λ w₀ same begun.
          Ensures-mono (settle_matured_holding_in_tx-Settled e w₀ id)
            λ r₁ w₁ (h, _). rw begun at (rw same at h))
        λ r₁ w₁ w₂ h committed. rw committed h)
      returned

find-marked :
    (i j : Uuid) (t : Time) (d : Db) (h : Holding)
    → j ≡ i
    → holding_at i d ≡ some h
    → holding_at i (settle_holding j t d) ≡ some (record h { settled_at = some t })
find-marked i j t d h p found = rw p (
    find-update (λ k. k.id == i) (λ k. record k { settled_at = some t }) (λ k q. q) d.holdings h
      found)

-- The holding of a settlement is marked in the tables it leaves.
Settled-marked :
    (id : Uuid) (c d d' : Db) (r : SettlementReceipt) (h : Settled id c d r d')
    → holding_at id d' ≡ some (record h.holding { settled_at = some h.at })
Settled-marked id c d d' r h =
    let named : h.holding.id ≡ id =
      ground (arith, find-passes (λ k. k.id == id) d.holdings h.holding h.found) in
    rw h.tables.1 (find-marked id h.holding.id h.at d h.holding named h.found)

-- After a settlement that returns, no settlement of the same holding returns from the tables it has committed,
-- in whatever environment.
pub settle_matured_holding-once :
    (e e' : Env) (w₀ w₁ w₂ w₃ : World) (id : Uuid) (r r' : SettlementReceipt)
    → settle_matured_holding id e w₀ ≡ (ok r, w₁)
    → w₂.committed ≡ w₁.committed
    → settle_matured_holding id e' w₂ ≢ (ok r', w₃)
settle_matured_holding-once e e' w₀ w₁ w₂ w₃ id r r' first same second =
    let h = settle_matured_holding-Settled e w₀ w₁ id r first in
    let k = settle_matured_holding-Settled e' w₂ w₃ id r' second in
    let marked = Settled-marked id w₀.committed w₀.committed w₁.committed r h in
    let found : holding_at id w₁.committed ≡ some k.holding = rw same at k.found in
    let equal : k.holding ≡ record h.holding { settled_at = some h.at } =
      some-injective (sym found ∙ marked) in
    let settled : is_settled k.holding ≡ true = ap is_settled equal in
    ground (arith, settled, k.unsettled)

-- A holding whose product is not active is not settled: the lookup of the product is the one for
-- purchases, which refuses an inactive product.
pub settle_matured_holding-inactive_product :
    (e : Env) (w w' : World) (id : Uuid) (h : Holding) (p : Product) (r : SettlementReceipt)
    → holding_at id w.committed ≡ some h
    → product_at h.product_id w.committed ≡ some p
    → p.is_active ≡ false
    → settle_matured_holding id e w ≢ (ok r, w')
settle_matured_holding-inactive_product e w w' id h p r found listed inactive returned =
    let k = settle_matured_holding-Settled e w w' id r returned in
    let same : k.holding ≡ h = some-injective (sym k.found ∙ found) in
    let row : product_at h.product_id w.committed ≡ some k.product = rw same at k.product_row in
    let equal : k.product ≡ p = some-injective (sym row ∙ listed) in
    let active : p.is_active ≡ true = rw equal at k.product_active in
    ground (arith, active, inactive)
