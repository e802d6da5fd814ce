-- ===== src/Purchase/Rules.antt =====
-- What the steps of a purchase ensure.
use gsb_salak_backend.Prelude.{
  suc, ap, ◌≡◌, ◌∙◌, sym, true, false, none, some, ◌==◌, find-passes, arith,
}
use gsb_salak_backend.Prelude.Decimal.{Decimal}
use gsb_salak_backend.Calendar.{Time}
use gsb_salak_backend.Domain.{Uuid, Account, AccountType, Product, LedgerEntry, is_type}
use gsb_salak_backend.Store.{Env, World, Db}
use gsb_salak_backend.Store.Rules.{
  Ensures, Same, Wrote, Same-then, Ensures-write, Ensures-bind, Ensures-pure, Ensures-raise_if,
  Ensures-map_err, Ensures-first, Ensures-read, Ensures-mono,
}
use gsb_salak_backend.Store.Frames.{
  Still, still, Ensures-Keeps, Ensures-tick, Keeps-map_err, Still-read, Still-raise_if, Still-lift,
}
use gsb_salak_backend.Account.Still.{get_by_id-Still}
use gsb_salak_backend.Account.{account_at}
use gsb_salak_backend.Account.Rules.{get_by_id-Ensures}
use gsb_salak_backend.Salak.Repository.{product_at, draw_day_in, find_product, is_draw_day}
use gsb_salak_backend.Salak.Repository.Rules.{lift-Ensures}
use gsb_salak_backend.Salak.Service.{get_product, truncate_to_date, ensure_not_draw_day}
use gsb_salak_backend.Salak.Service.Rules.{IsSold, validate_purchase_iff}
use gsb_salak_backend.Purchase.{
  entry_check, add_entry, create_entry, validate_salak_side_and_product,
}

-- The account is in the tables, is the user's, and has the type.
abbrev pub Owns : Uuid → Uuid → AccountType → Db → Type 0
Owns user i type d =
    (a : Account) × (account_at i d ≡ some a) × (a.user_id ≡ user) × (is_type a.type type ≡ true)

-- The product is in the tables, is for sale, in that amount, and the day of the time `now` is no draw
-- day of it.
abbrev pub IsForSale : Uuid → Decimal → Time → Db → Product → Type 0
IsForSale product amount now d p =
    (product_at product d ≡ some p)
    × (p.is_active ≡ true)
    × IsSold p amount
    × (draw_day_in p.id (truncate_to_date now) d ≡ false)

pub create_entry-Ensures :
    (e : Env) (w : World) (x : LedgerEntry)
    → Ensures
        (λ _ w'. (entry_check x ≡ none) × Wrote w w' (add_entry x w.working))
        (create_entry x)
        e
        w
unfolding create_entry
create_entry-Ensures e w x = Ensures-write e w (λ _. entry_check x) (add_entry x)

pub get_product-Still : (i : Uuid) → Still (get_product i)
unfolding get_product find_product
get_product-Still i = search still depth 10

-- A product that is for sale, in the committed tables.
pub get_product-Ensures :
    (e : Env) (w : World) (i : Uuid)
    → Ensures
        (λ p w'. (product_at i w.committed ≡ some p) × (p.is_active ≡ true) × Same w w')
        (get_product i)
        e
        w
unfolding get_product find_product
get_product-Ensures e w i =
    Ensures-bind (Ensures-map_err _ _ (Ensures-first e w _ _)) λ p w₁ (found, s).
      Ensures-bind (Ensures-raise_if e w₁ _ _)
        λ _ w₂ (active, s'). Ensures-pure p (found, ground arith, Same-then s s')

-- The day of the clock's reading is no draw day in the committed tables.
ensure_not_draw_day-Ensures :
    (e : Env) (w : World) (p : Product)
    → Ensures
        (λ _ w'.
          (draw_day_in p.id (truncate_to_date (e.clock w.readings)) w.committed ≡ false)
          × Same w w'
          × (w'.readings ≡ suc w.readings))
        (ensure_not_draw_day p)
        e
        w
unfolding ensure_not_draw_day is_draw_day
ensure_not_draw_day-Ensures e w p = Ensures-bind (Ensures-tick e w) λ t w₁ ((r, s₁), t₁).
    Ensures-bind
      (Ensures-Keeps (Keeps-map_err _ _ (Still-read _ _))
        (Ensures-map_err _ _ (Ensures-read e w₁ _ _)))
      λ drawn w₂ ((q, s₂), t₂).
        Ensures-mono (Ensures-Keeps (Still-raise_if _ _) (Ensures-raise_if e w₂ _ _))
          λ _ w₃ ((clear, s₃), t₃). (
            rw r at (rw s₁.committed at (sym q ∙ clear)),
            Same-then (Same-then s₁ s₂) s₃,
            t₃ ∙ t₂ ∙ t₁,
          )

pub validate_salak_side_and_product-Ensures :
    (e : Env) (w : World) (user salak product : Uuid) (amount : Decimal)
    → Ensures
        (λ sp w'.
          (sp.0.id ≡ salak)
          × Owns user salak AccountType.salak w.committed
          × IsForSale product amount (e.clock w.readings) w.committed sp.1
          × Same w w'
          × (w'.readings ≡ suc w.readings))
        (validate_salak_side_and_product user salak product amount)
        e
        w
unfolding validate_salak_side_and_product
validate_salak_side_and_product-Ensures e w user salak product amount =
    Ensures-bind (Ensures-Keeps (get_by_id-Still user salak) (get_by_id-Ensures e w user salak))
      λ a w₁ ((found, own, s₁), t₁).
        Ensures-bind (Ensures-Keeps (Still-raise_if _ _) (Ensures-raise_if e w₁ _ _))
          λ _ w₂ ((typed, s₂), t₂).
            Ensures-bind
              (Ensures-Keeps (get_product-Still product) (get_product-Ensures e w₂ product))
              λ p w₃ ((row, active, s₃), t₃).
                Ensures-bind (Ensures-Keeps (Still-lift _) (lift-Ensures e w₃ _))
                  λ _ w₄ ((sold, s₄), t₄).
                    Ensures-bind (ensure_not_draw_day-Ensures e w₄ p) λ _ w₅ (clear, s₅, t₅).
                      let still₄ = t₄ ∙ t₃ ∙ t₂ ∙ t₁ in
                      let kept₂ = Same-then s₁ s₂ in
                      let kept₄ = Same-then (Same-then kept₂ s₃) s₄ in
                      Ensures-pure _ (
                        ground
                            (arith, find-passes (λ x. x.id == salak) w.committed.accounts a found),
                        (a, found, own, ground arith),
                        (
                          rw kept₂.committed at row,
                          active,
                          (validate_purchase_iff p amount).0 sold,
                          rw still₄ at (rw kept₄.committed at clear),
                        ),
                        Same-then kept₄ s₅,
                        t₅ ∙ ap suc still₄,
                      )
