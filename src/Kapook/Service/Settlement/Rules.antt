-- ===== src/Kapook/Service/Settlement/Rules.antt =====
-- What the settlement of a holding that a goal bought does to the goal.
use gsb_salak_backend.Prelude.{◌≡◌, ◌∙◌, refl, ap, Option, none, some}
use gsb_salak_backend.Prelude.Int.{◌-ℤ◌}
use gsb_salak_backend.Calendar.{Time}
use gsb_salak_backend.Domain.{Uuid, Goal, Transaction}
use gsb_salak_backend.Store.{Env, World, Db, ok}
use gsb_salak_backend.Store.Rules.{
  Ensures, Same-then, Wrote-then, Ensures-bind, Ensures-pure, Ensures-map_err, Ensures-first,
  Ensures-read, Ensures-mono, Ensures-ok, Ensures-fresh_id, Ensures-transaction,
}
use gsb_salak_backend.Purchase.{SettlementReceipt}
use gsb_salak_backend.Purchase.Settlement.{Settled, settle_matured_holding_in_tx-Settled}
use gsb_salak_backend.Kapook.Goals.{
  goal_at, set_goal, after_expiration, find_goal_by_id, update_after_expiration,
}
use gsb_salak_backend.Kapook.Transactions.{purchase_of, find_by_holding_id, add_transaction}
use gsb_salak_backend.Kapook.Service.Rules.{update_goal-Ensures, create_transaction-Ensures}
use gsb_salak_backend.Kapook.Service.Settlement.{
  max_zero, expiration_transaction, expire, settle_body, settle_matured_holding,
}

-- What follows the payment, from the tables `d` that it left: nothing for a holding that no goal bought; for
-- one that a goal bought, by the tables `committed`, the goal has the principal less in certificates, and an
-- expiration is recorded.
abbrev pub Expired : Uuid → SettlementReceipt → Db → Db → Option Transaction → Db → Type 0
Expired holding r committed d none d' = d' ≡ d
Expired holding r committed d (some bought) d' =
    (g : Goal) × (i : Uuid) × (at : Time) × (goal_at bought.goal_id committed ≡ some g)
    × (d'
        ≡ add_transaction
            (expiration_transaction i r.principal bought.kapook_account_id g.id holding
              r.settled_at)
            at (set_goal g.id (after_expiration (max_zero (g.salak_amount -ℤ r.principal))) d))

expire-Ensures :
    (e : Env) (w : World) (holding : Uuid) (r : SettlementReceipt) (t : Option Transaction)
    → Ensures
        (λ r' w'.
          (r' ≡ r)
          × (w'.committed ≡ w.committed)
          × Expired holding r w.committed w.working t w'.working)
        (expire holding r t)
        e
        w
unfolding expire find_goal_by_id update_after_expiration
expire-Ensures e w holding r none = Ensures-pure r (refl, refl, refl)
expire-Ensures e w holding r (some bought) =
    Ensures-bind (Ensures-map_err _ _ (Ensures-first e w _ _)) λ g w₁ (found, s₁).
      Ensures-bind
        (Ensures-map_err _ _ (
          update_goal-Ensures e w₁ g.id
            (after_expiration (max_zero (g.salak_amount -ℤ r.principal)))))
        λ _ w₂ (_, s₂).
          let kept₂ =
            Wrote-then (set_goal g.id (after_expiration (max_zero (g.salak_amount -ℤ r.principal))))
              s₁ s₂ in
          Ensures-bind (Ensures-fresh_id e w₂) λ i w₃ (_, s₃).
            Ensures-bind (Ensures-map_err _ _ (create_transaction-Ensures e w₃ _))
              λ _ w₄ (at, _, s₄).
                let kept₄ =
                  Wrote-then
                    (add_transaction
                      (expiration_transaction i r.principal bought.kapook_account_id g.id holding
                        r.settled_at)
                      at)
                    (Same-then kept₂ s₃) s₄ in
                Ensures-pure r (refl, kept₄.committed, (g, i, at, found, kept₄.working))

abbrev pub SettlementOutcome : Uuid → Db → SettlementReceipt → Db → Type 0
SettlementOutcome holding d r d' =
    (paid : Db) × Settled holding d d r paid × Expired holding r d paid (purchase_of holding d) d'

settle_body-Ensures :
    (e : Env) (w : World) (holding : Uuid)
    → Ensures
        (λ r w'.
          (paid : Db) × Settled holding w.committed w.working r paid
          × Expired holding r w.committed paid (purchase_of holding w.committed) w'.working)
        (settle_body holding)
        e
        w
unfolding settle_body find_by_holding_id
settle_body-Ensures e w holding =
    Ensures-bind (settle_matured_holding_in_tx-Settled e w holding) λ r w₁ (settled, c₁).
      Ensures-bind (Ensures-map_err _ _ (Ensures-read e w₁ _ (purchase_of holding)))
        λ bought w₂ (q, s₂).
          Ensures-mono (expire-Ensures e w₂ holding r bought) λ r' w₃ (same, _, expired).
            let found : bought ≡ purchase_of holding w.committed =
              q ∙ ap (purchase_of holding) c₁ in
            rw same (
              w₁.working,
              settled,
              rw (s₂.committed ∙ c₁) at (rw s₂.working at (rw found at expired)),
            )

-- If a settlement returns, the committed tables are those that `Settled` describes, and then, for a holding that a
-- goal bought, the goal's amount in certificates is lower by the principal (and not below zero) and an
-- expiration is recorded; the goal's savings stay as they were.
pub settle_matured_holding-SettlementOutcome :
    (e : Env) (w w' : World) (holding : Uuid) (r : SettlementReceipt)
    → settle_matured_holding holding e w ≡ (ok r, w')
    → SettlementOutcome holding w.committed r w'.committed
unfolding settle_matured_holding
settle_matured_holding-SettlementOutcome e w w' holding r returned =
    Ensures-ok {Q = λ r₁ w₁. SettlementOutcome holding w.committed r₁ w₁.committed}
      (Ensures-transaction _
        (λ w₀ same begun.
          Ensures-mono (settle_body-Ensures e w₀ holding) λ r₁ w₁ h. rw begun at (rw same at h))
        λ r₁ w₁ w₂ h committed. rw committed h)
      returned
