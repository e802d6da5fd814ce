-- ===== src/Salak/Service/Minting.antt =====
-- What `MintHolding` has written when it returns.
use gsb_salak_backend.Prelude.{ℕ, ◌≡◌, ◌∙◌, refl, sym, ap, none, some, ◌<◌, arith}
use gsb_salak_backend.Prelude.Decimal.{Decimal}
use gsb_salak_backend.Calendar.{Time}
use gsb_salak_backend.Domain.{Uuid, Product, Holding}
use gsb_salak_backend.Store.{Env, World, Db}
use gsb_salak_backend.Store.Rules.{
  Ensures, Same-then, Wrote-then, Ensures-bind, Ensures-pure, Ensures-map_err, Ensures-raise_if,
  Ensures-now, Ensures-first, Ensures-fresh_id, Ensures-write,
}
use gsb_salak_backend.Store.Frames.{
  Still, still, Ensures-Keeps, Keeps-map_err, Still-first, Still-raise_if,
}
use gsb_salak_backend.Salak.Repository.{
  update_sequence, reserve_ticket_range, TicketRange, product_at, find_product, holding_check,
  stored_holding, add_holding, create_holding,
}
use gsb_salak_backend.Salak.Repository.Rules.{Reserved, reserve_ticket_range-Reserved}
use gsb_salak_backend.Salak.Service.{whole_units, minted_holding, mint_holding}

-- What the creation of a holding at the time `at` does to the tables `d` of the transaction, where `committed` are the
-- tables that the product is looked up in: a range of tickets is reserved, and a holding of them,
-- which meets the constraints of its table, is added.
pub record Minted (account product : Uuid) (amount : Decimal) (at : Time) (committed d : Db)
    (h : Holding) (d' : Db) : Type 0 where
  pub row : Product
  pub range : TicketRange
  pub reserved_tables : Db
  pub id : Uuid
  pub product_row : product_at product committed ≡ some row
  pub some_units : 0 < whole_units amount row.unit_price
  pub reserved : Reserved product (whole_units amount row.unit_price) d range reserved_tables
  pub minted :
      h
      ≡ minted_holding id account product amount
          (whole_units amount row.unit_price)
          range
          at
          row.term_months
  pub accepted : holding_check (stored_holding h) reserved_tables ≡ none
  pub tables : d' ≡ add_holding h reserved_tables

reserve_ticket_range-Still :
    (product : Uuid) (units : ℕ) → Still (reserve_ticket_range product units)
unfolding reserve_ticket_range update_sequence
reserve_ticket_range-Still product units = search still depth 14

pub mint_holding-Ensures :
    (e : Env) (w : World) (account product : Uuid) (amount : Decimal)
    → Ensures
        (λ h w'.
          Minted account product amount (e.clock w.readings) w.committed w.working h w'.working
          × (w'.committed ≡ w.committed))
        (mint_holding account product amount)
        e
        w
unfolding mint_holding find_product create_holding
mint_holding-Ensures e w account product amount =
    Ensures-bind
      (Ensures-Keeps (Keeps-map_err _ _ (Still-first _ _))
        (Ensures-map_err _ _ (Ensures-first e w _ (product_at product))))
      λ p w₁ ((found, s₁), t₁).
        Ensures-bind (Ensures-Keeps (Still-raise_if _ _) (Ensures-raise_if e w₁ _ _))
          λ _ w₂ ((counted, s₂), t₂).
            let units = whole_units amount p.unit_price in
            let some_units : 0 < units = ground arith in
            Ensures-bind
              (Ensures-Keeps (Keeps-map_err _ _ (reserve_ticket_range-Still product units))
                (Ensures-map_err _ _ (reserve_ticket_range-Reserved e w₂ product units some_units)))
              λ range w₃ ((reserved, c₃), t₃). Ensures-bind (Ensures-now e w₃) λ t w₄ (read_at, s₄).
                Ensures-bind (Ensures-fresh_id e w₄) λ i w₅ (_, s₅).
                  let h = minted_holding i account product amount units range t p.term_months in
                  Ensures-bind
                    (Ensures-map_err _ _
                      (Ensures-write e w₅ (holding_check (stored_holding h)) (add_holding h)))
                    λ _ w₆ (accepted, wrote).
                      let kept₂ = Same-then s₁ s₂ in
                      let kept₅ = Same-then s₄ s₅ in
                      let kept₆ = Wrote-then (add_holding h) kept₅ wrote in
                      Ensures-pure h (
                        record {
                          row = p;
                          range = range;
                          reserved_tables = w₃.working;
                          id = i;
                          product_row = found;
                          some_units = some_units;
                          reserved = rw kept₂.working at reserved;
                          minted = rw (sym (read_at ∙ ap e.clock (t₃ ∙ t₂ ∙ t₁))) refl;
                          accepted = rw kept₅.working at accepted;
                          tables = kept₆.working;
                        },
                        kept₆.committed ∙ c₃ ∙ kept₂.committed,
                      )
