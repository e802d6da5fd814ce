-- ===== src/Purchase/Settlement.antt =====
-- What the settlement of a matured holding has written when it returns.
use gsb_salak_backend.Prelude.{◌≡◌, refl, sym, true, false, some}
use gsb_salak_backend.Prelude.Int.{pos, ◌+ℤ◌, ◌-ℤ◌, ◌*ℤ◌, ◌≤ℤ◌}
use gsb_salak_backend.Prelude.Decimal.{Decimal, round2}
use gsb_salak_backend.Calendar.{Time}
use gsb_salak_backend.Domain.{Uuid, Account, Product, Holding, debit, credit}
use gsb_salak_backend.Store.{Env, World, Db}
use gsb_salak_backend.Store.Rules.{
  Ensures, Same-then, Wrote-then, Ensures-bind, Ensures-pure, Ensures-map_err, Ensures-raise_if,
  Ensures-now, Ensures-first, Ensures-fresh_id, Ensures-write,
}
use gsb_salak_backend.Account.{account_at, primary_of, set_balance}
use gsb_salak_backend.Account.Rules.{
  get_primary_account-Ensures, get_by_id_unscoped-Ensures, debit-Ensures, credit-Ensures,
}
use gsb_salak_backend.Salak.Repository.{holding_at, product_at, find_product, settle_holding}
use gsb_salak_backend.Salak.Repository
use gsb_salak_backend.Salak.Service.{get_product}
use gsb_salak_backend.Salak.Service
use gsb_salak_backend.Purchase.{
  SettlementReceipt, is_settled, settlement_entry, add_entry, settle_matured_holding_in_tx,
}
use gsb_salak_backend.Purchase.Rules.{create_entry-Ensures, get_product-Ensures}

-- The three entries of a settlement, and the mark on the holding.
abbrev pub settlement_rows :
    Holding
    → Uuid
    → Decimal
    → Decimal
    → Decimal
    → Decimal
    → Uuid
    → Time
    → Uuid
    → Uuid
    → Uuid
    → Db
    → Db
settlement_rows h primary interest b c x reference t i j k d = settle_holding h.id t (
    add_entry
      (settlement_entry k reference primary h.id credit interest x "salak_maturity_interest"
        "สลากครบกำหนด - ดอกเบี้ย" t)
      (add_entry
        (settlement_entry j reference primary h.id credit h.purchase_amount c "salak_maturity"
          "สลากครบกำหนด - เงินต้น" t)
        (add_entry
          (settlement_entry i reference h.account_id h.id debit h.purchase_amount b "salak_maturity"
            "สลากครบกำหนด - เงินต้น" t)
          d)))

-- What the settlement of a holding does to the tables `d` of the transaction, where `committed` are the
-- tables that its lookups outside the transaction read.
pub record Settled (id : Uuid) (committed d : Db) (r : SettlementReceipt) (d' : Db) : Type 0 where
  pub holding : Holding
  pub product : Product
  pub account : Account
  pub primary : Account
  pub from : Account
  pub to : Account
  pub to_again : Account
  pub found : holding_at id d ≡ some holding
  pub unsettled : is_settled holding ≡ false
  pub product_row : product_at holding.product_id committed ≡ some product
  pub product_active : product.is_active ≡ true
  pub account_row : account_at holding.account_id committed ≡ some account
  pub primary_row : primary_of account.user_id committed ≡ some primary
  pub enough : pos 0 ≤ℤ from.balance -ℤ holding.purchase_amount
  pub from_row : account_at holding.account_id d ≡ some from
  pub to_row :
      account_at primary.id
        (set_balance holding.account_id (round2 (from.balance -ℤ holding.purchase_amount)) d)
      ≡ some to
  pub at : Time
  pub reference : Uuid
  pub debit_id : Uuid
  pub principal_id : Uuid
  pub interest_id : Uuid
  pub returned :
      let interest = product.maturity_interest_per_unit *ℤ pos holding.units in
      r ≡ record {
        holding_id = holding.id;
        principal = holding.purchase_amount;
        interest = interest;
        total = holding.purchase_amount +ℤ interest;
        primary_account_id = primary.id;
        primary_balance_after = to_again.balance +ℤ interest;
        settled_at = at;
      }
  pub tables :
      let interest = product.maturity_interest_per_unit *ℤ pos holding.units in
      let b = from.balance -ℤ holding.purchase_amount in
      let c = to.balance +ℤ holding.purchase_amount in
      let x = to_again.balance +ℤ interest in
      let paid = set_balance primary.id (round2 c) (set_balance holding.account_id (round2 b) d) in
      (account_at primary.id paid ≡ some to_again)
      × (d'
          ≡ settlement_rows holding primary.id interest b c x reference at debit_id principal_id
              interest_id
              (set_balance primary.id (round2 x) paid))

-- If the settlement of a holding returns inside a transaction, the holding was not settled, its product is active, and
-- the tables are exactly those that `Settled` describes: the principal moved from the holding's
-- account to its owner's primary account, the interest for its units was added there, and the holding
-- marked.
pub settle_matured_holding_in_tx-Settled :
    (e : Env) (w : World) (id : Uuid)
    → Ensures
        (λ r w'. Settled id w.committed w.working r w'.working × (w'.committed ≡ w.committed))
        (settle_matured_holding_in_tx id)
        e
        w
unfolding settle_matured_holding_in_tx Service.find_holding_for_update
    Repository.find_holding_for_update Service.mark_holding_settled Repository.mark_settled
settle_matured_holding_in_tx-Settled e w id =
    Ensures-bind (Ensures-map_err _ _ (Ensures-first e w _ _)) λ h w₁ (found, s₁).
      Ensures-bind (Ensures-raise_if e w₁ _ _) λ _ w₂ (unsettled, s₂).
        let kept₂ = Same-then s₁ s₂ in
        Ensures-bind (get_product-Ensures e w₂ h.product_id) λ p w₃ (product_row, active, s₃).
          let kept₃ = Same-then kept₂ s₃ in
          let interest = p.maturity_interest_per_unit *ℤ pos h.units in
          Ensures-bind (get_by_id_unscoped-Ensures e w₃ h.account_id) λ a w₄ (account_row, s₄).
            let kept₄ = Same-then kept₃ s₄ in
            Ensures-bind (Ensures-map_err _ _ (get_primary_account-Ensures e w₄ a.user_id))
              λ primary w₅ (primary_row, s₅).
                let kept₅ = Same-then kept₄ s₅ in
                Ensures-bind (debit-Ensures e w₅ h.account_id h.purchase_amount)
                  λ b w₆ (from, from_row, p₁, enough, s₆).
                    let kept₆ = Wrote-then (set_balance h.account_id (round2 b)) kept₅ s₆ in
                    Ensures-bind (credit-Ensures e w₆ primary.id h.purchase_amount)
                      λ c w₇ (to, to_row, p₂, s₇).
                        let kept₇ = Wrote-then (set_balance primary.id (round2 c)) kept₆ s₇ in
                        Ensures-bind (credit-Ensures e w₇ primary.id interest)
                          λ x w₈ (to_again, again_row, p₃, s₈).
                            let kept₈ = Wrote-then (set_balance primary.id (round2 x)) kept₇ s₈ in
                            Ensures-bind (Ensures-fresh_id e w₈) λ reference w₉ (_, s₉).
                              Ensures-bind (Ensures-now e w₉) λ t w₁₀ (_, s₁₀).
                                Ensures-bind (Ensures-fresh_id e w₁₀) λ i w₁₁ (_, s₁₁).
                                  Ensures-bind (Ensures-fresh_id e w₁₁) λ j w₁₂ (_, s₁₂).
                                    Ensures-bind (Ensures-fresh_id e w₁₂) λ k w₁₃ (_, s₁₃).
                                      let kept₁₃ =
                                        Same-then
                                          (Same-then
                                            (Same-then (Same-then (Same-then kept₈ s₉) s₁₀) s₁₁)
                                            s₁₂)
                                          s₁₃ in
                                      Ensures-bind (create_entry-Ensures e w₁₃ _) λ _ w₁₄ (_, s₁₄).
                                        let kept₁₄ =
                                          Wrote-then
                                            (add_entry (
                                              settlement_entry i reference h.account_id h.id debit
                                                h.purchase_amount b "salak_maturity"
                                                "สลากครบกำหนด - เงินต้น" t))
                                            kept₁₃ s₁₄ in
                                        Ensures-bind (create_entry-Ensures e w₁₄ _)
                                          λ _ w₁₅ (_, s₁₅).
                                            let kept₁₅ =
                                              Wrote-then
                                                (add_entry (
                                                  settlement_entry j reference primary.id h.id
                                                    credit h.purchase_amount c "salak_maturity"
                                                    "สลากครบกำหนด - เงินต้น" t))
                                                kept₁₄ s₁₅ in
                                            Ensures-bind (create_entry-Ensures e w₁₅ _)
                                              λ _ w₁₆ (_, s₁₆).
                                                let kept₁₆ =
                                                  Wrote-then
                                                    (add_entry (
                                                      settlement_entry k reference primary.id h.id
                                                        credit interest x "salak_maturity_interest"
                                                        "สลากครบกำหนด - ดอกเบี้ย" t))
                                                    kept₁₅ s₁₆ in
                                                Ensures-bind
                                                  (Ensures-map_err _ _
                                                    (Ensures-write e w₁₆ _ (settle_holding h.id t)))
                                                  λ _ w₁₇ (_, s₁₇).
                                                    let kept₁₇ =
                                                      Wrote-then (settle_holding h.id t) kept₁₆
                                                        s₁₇ in
                                                    Ensures-pure _ (
                                                      record {
                                                        holding = h;
                                                        product = p;
                                                        account = a;
                                                        primary = primary;
                                                        from = from;
                                                        to = to;
                                                        to_again = to_again;
                                                        found = found;
                                                        unsettled = unsettled;
                                                        product_row =
                                                            rw kept₂.committed at product_row;
                                                        product_active = active;
                                                        account_row =
                                                            rw kept₃.committed at account_row;
                                                        primary_row =
                                                            rw kept₄.committed at primary_row;
                                                        enough = rw (sym p₁) enough;
                                                        from_row = rw kept₅.working at from_row;
                                                        to_row =
                                                            rw (sym p₁)
                                                            (rw kept₆.working at to_row);
                                                        at = t;
                                                        reference = reference;
                                                        debit_id = i;
                                                        principal_id = j;
                                                        interest_id = k;
                                                        returned = rw p₃ refl;
                                                        tables = rw (sym p₁) (
                                                            rw (sym p₂) (
                                                            rw (sym p₃) (
                                                            rw kept₇.working at again_row,
                                                            kept₁₇.working,
                                                            )));
                                                      },
                                                      kept₁₇.committed,
                                                    )
