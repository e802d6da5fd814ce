-- ===== src/Purchase/Bought.antt =====
-- What a purchase has written when it returns.
use gsb_salak_backend.Prelude.{String, ◌≡◌, ◌∙◌, refl, sym, some}
use Prim.Native.String.{◌++◌ as append}
use gsb_salak_backend.Prelude.Int.{pos, ◌+ℤ◌, ◌-ℤ◌, ◌≤ℤ◌}
use gsb_salak_backend.Prelude.Decimal.{Decimal, round2}
use gsb_salak_backend.Calendar.{Time}
use gsb_salak_backend.Domain.{Uuid, Account, Product, Holding, debit, credit}
use gsb_salak_backend.Store.{Env, World, Db}
use gsb_salak_backend.Store.Rules.{
  Ensures, Same-then, Wrote-then, Ensures-bind, Ensures-pure, Ensures-now, Ensures-fresh_id,
}
use gsb_salak_backend.Store.Frames.{Ensures-Keeps}
use gsb_salak_backend.Account.Still.{debit-Still}
use gsb_salak_backend.Account.{account_at, set_balance}
use gsb_salak_backend.Account.Rules.{debit-Ensures, credit-Ensures}
use gsb_salak_backend.Salak.Service.Minting.{Minted, mint_holding-Ensures}
use gsb_salak_backend.Purchase.{BuySalakReceipt, buy_entry, buy_receipt, add_entry, mint_and_settle}
use gsb_salak_backend.Purchase.Rules.{create_entry-Ensures}

-- The two entries of a purchase.
abbrev pub purchase_rows :
    Uuid → Uuid → Uuid → Decimal → Decimal → Decimal → String → Uuid → Time → Uuid → Uuid → Db → Db
purchase_rows funding salak holding amount b c name reference t i j d =
    add_entry (buy_entry j reference salak holding credit amount c (append "ซื้อ" name) t)
      (add_entry (buy_entry i reference funding holding debit amount b (append "ซื้อ" name) t) d)

-- What a purchase does to the tables `d` of the transaction, where `committed` are the tables that
-- the product is looked up in, and the holding is of the time `minted_at`.
pub record Bought (funding salak product : Uuid) (amount : Decimal) (name : String)
    (minted_at : Time) (committed d : Db) (r : BuySalakReceipt) (d' : Db) : Type 0 where
  pub from : Account
  pub to : Account
  pub holding : Holding
  pub minted_tables : Db
  pub at : Time
  pub reference : Uuid
  pub debit_id : Uuid
  pub credit_id : Uuid
  pub from_row : account_at funding d ≡ some from
  pub enough : pos 0 ≤ℤ from.balance -ℤ amount
  pub minted :
      Minted salak product amount minted_at committed
        (set_balance funding (round2 (from.balance -ℤ amount)) d)
        holding
        minted_tables
  pub to_row : account_at salak minted_tables ≡ some to
  pub returned :
      r ≡ buy_receipt reference holding name amount (from.balance -ℤ amount) (to.balance +ℤ amount)
  pub tables :
      d'
      ≡ purchase_rows funding salak holding.id amount
          (from.balance -ℤ amount)
          (to.balance +ℤ amount)
          name
          reference
          at
          debit_id
          credit_id
          (set_balance salak (round2 (to.balance +ℤ amount)) minted_tables)

pub mint_and_settle-Ensures :
    (e : Env) (w : World) (funding salak product : Uuid) (amount : Decimal) (p : Product)
    → Ensures
        (λ r w'.
          Bought funding salak product amount p.name
            (e.clock w.readings)
            w.committed
            w.working
            r
            w'.working
          × (w'.committed ≡ w.committed))
        (mint_and_settle funding salak product amount p)
        e
        w
unfolding mint_and_settle
mint_and_settle-Ensures e w funding salak product amount p =
    Ensures-bind (Ensures-Keeps (debit-Still funding amount) (debit-Ensures e w funding amount))
      λ b w₁ ((from, from_row, q, enough, s₁), t₁).
        Ensures-bind (mint_holding-Ensures e w₁ salak product amount) λ h w₂ (minted, c₂).
          Ensures-bind (credit-Ensures e w₂ salak amount) λ c w₃ (to, to_row, q', s₃).
            Ensures-bind (Ensures-fresh_id e w₃) λ reference w₄ (_, s₄).
              Ensures-bind (Ensures-now e w₄) λ t w₅ (_, s₅).
                Ensures-bind (Ensures-fresh_id e w₅) λ i w₆ (_, s₆).
                  Ensures-bind (Ensures-fresh_id e w₆) λ j w₇ (_, s₇).
                    Ensures-bind (create_entry-Ensures e w₇ _) λ _ w₈ (_, s₈).
                      Ensures-bind (create_entry-Ensures e w₈ _) λ _ w₉ (_, s₉).
                        let name = append "ซื้อ" p.name in
                        let kept₇ = Same-then (Same-then (Same-then (Same-then s₃ s₄) s₅) s₆) s₇ in
                        let kept₈ =
                          Wrote-then
                            (add_entry (buy_entry i reference funding h.id debit amount b name t))
                            kept₇ s₈ in
                        let kept₉ =
                          Wrote-then
                            (add_entry (buy_entry j reference salak h.id credit amount c name t))
                            kept₈ s₉ in
                        Ensures-pure _ (
                          record {
                            from = from;
                            to = to;
                            holding = h;
                            minted_tables = w₂.working;
                            at = t;
                            reference = reference;
                            debit_id = i;
                            credit_id = j;
                            from_row = from_row;
                            enough = rw (sym q) enough;
                            minted =
                                rw (sym q)
                                  (rw t₁ at (rw s₁.working at (rw s₁.committed at minted)));
                            to_row = to_row;
                            returned = rw (sym q) (rw (sym q') refl);
                            tables = rw (sym q) (rw (sym q') kept₉.working);
                          },
                          kept₉.committed ∙ c₂ ∙ s₁.committed,
                        )
