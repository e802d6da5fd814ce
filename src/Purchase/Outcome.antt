-- ===== src/Purchase/Outcome.antt =====
-- What the two purchases have written when they return.
use gsb_salak_backend.Prelude.{suc, ap, ◌≡◌, ◌∙◌, Option, none, some, ◌==◌, false, arith}
use gsb_salak_backend.Prelude.Decimal.{Decimal}
use gsb_salak_backend.Calendar.{Time}
use gsb_salak_backend.Domain.{Uuid, AccountType, Product}
use gsb_salak_backend.Store.{Env, World, Db, ok}
use gsb_salak_backend.Store.Rules.{
  Ensures, Same, Same-then, Ensures-bind, Ensures-pure, Ensures-map_err, Ensures-raise_if,
  Ensures-read, Ensures-mono, Ensures-ok, Ensures-Begun, Same-refl,
}
use gsb_salak_backend.Store.Frames.{Still, still, Ensures-Keeps, Still-raise_if}
use gsb_salak_backend.Account.Still.{get_by_id-Still}
use gsb_salak_backend.Account.Rules.{get_by_id-Ensures}
use gsb_salak_backend.Purchase.{
  BuySalakReceipt, user_owns_badge, check_badge, buy_salak, buy_salak_for_kapook,
}
use gsb_salak_backend.Purchase.Rules.{Owns, IsForSale, validate_salak_side_and_product-Ensures}
use gsb_salak_backend.Purchase.Bought.{Bought, mint_and_settle-Ensures}

-- A purchase from an account of the user with the type `type`, with the draw calendar looked up at the time
-- `checked` and the holding of the time `minted`, with the lookups in the tables `committed` and
-- the movements in the tables `d`.
abbrev pub BuyOutcome :
    AccountType
    → Uuid
    → Uuid
    → Uuid
    → Uuid
    → Decimal
    → Time
    → Time
    → Db
    → Db
    → BuySalakReceipt
    → Db
    → Type 0
BuyOutcome type user funding salak product amount checked minted committed d r d' =
    ((funding == salak) ≡ false)
    × Owns user funding type committed
    × Owns user salak AccountType.salak committed
    × ((p : Product) × IsForSale product amount checked committed p
        × Bought funding salak product amount p.name minted committed d r d')

check_badge-Ensures :
    (e : Env) (w : World) (user : Uuid) (badge : Option Uuid)
    → Ensures (λ _ w'. Same w w') (check_badge user badge) e w
unfolding check_badge user_owns_badge
check_badge-Ensures e w user none = Ensures-pure tt (Same-refl w)
check_badge-Ensures e w user (some badge) =
    Ensures-bind (Ensures-map_err _ _ (Ensures-read e w _ _))
      λ owns w₁ (_, s₁). Ensures-mono (Ensures-raise_if e w₁ _ _) λ _ w₂ (_, s₂). Same-then s₁ s₂

check_badge-Still : (user : Uuid) (badge : Option Uuid) → Still (check_badge user badge)
unfolding check_badge user_owns_badge
check_badge-Still user none = search still depth 8
check_badge-Still user (some badge) = search still depth 10

-- If a purchase returns, its two accounts differ, are the user's and have their types, the product is for
-- sale in that amount, the day of the clock's first reading is no draw day of it, and the committed tables and the receipt are
-- exactly those that `Bought` describes, from the tables before: the amount is debited from an
-- account that covers it and credited to the other, a range of tickets behind the cursor is
-- reserved, and one holding of them, of the clock's second reading, and two ledger entries are added.
pub buy_salak-BuyOutcome :
    (e : Env) (w w' : World) (user funding salak product : Uuid) (badge : Option Uuid)
    (amount : Decimal) (r : BuySalakReceipt)
    → buy_salak user funding salak product badge amount e w ≡ (ok r, w')
    → BuyOutcome AccountType.savings user funding salak product amount
        (e.clock w.readings)
        (e.clock (suc w.readings))
        w.committed
        w.committed
        r
        w'.committed
unfolding buy_salak
buy_salak-BuyOutcome e w w' user funding salak product badge amount r returned =
    Ensures-ok
      {Q = λ r₁ w₁.
        BuyOutcome AccountType.savings user funding salak product amount (e.clock w.readings)
          (e.clock (suc w.readings)) w.committed w.committed r₁ w₁.committed}
      (Ensures-bind (Ensures-Keeps (Still-raise_if _ _) (Ensures-raise_if e w _ _))
        λ _ w₁ ((differ, s₁), t₁).
          Ensures-bind
            (Ensures-Keeps (get_by_id-Still user funding) (get_by_id-Ensures e w₁ user funding))
            λ f w₂ ((found, own, s₂), t₂).
              Ensures-bind (Ensures-Keeps (Still-raise_if _ _) (Ensures-raise_if e w₂ _ _))
                λ _ w₃ ((typed, s₃), t₃).
                  Ensures-bind
                    (validate_salak_side_and_product-Ensures e w₃ user salak product amount)
                    λ sp w₄ (named, owns, for_sale, s₄, t₄).
                      Ensures-bind
                        (Ensures-Keeps (check_badge-Still user badge)
                          (check_badge-Ensures e w₄ user badge))
                        λ _ w₅ (s₅, t₅).
                          let still₃ = t₃ ∙ t₂ ∙ t₁ in
                          let second = t₅ ∙ t₄ ∙ ap suc still₃ in
                          let kept₃ = Same-then (Same-then s₁ s₂) s₃ in
                          let kept₅ = Same-then (Same-then kept₃ s₄) s₅ in
                          Ensures-Begun _
                            (λ w₀ begun.
                              Ensures-mono
                                (mint_and_settle-Ensures e w₀ funding sp.0.id product amount sp.1)
                                λ r₁ w₆ (h, _). rw (begun.readings ∙ second) at (
                                  rw (begun.working ∙ kept₅.committed) at
                                    (rw (begun.committed ∙ kept₅.committed) at h)))
                            λ r₁ w₆ w₇ h committed. (
                              differ,
                              (f, rw s₁.committed at found, own, ground arith),
                              rw kept₃.committed at owns,
                              (
                                sp.1,
                                rw still₃ at (rw kept₃.committed at for_sale),
                                rw committed (rw named at h),
                              ),
                            ))
      returned

pub buy_salak_for_kapook-Ensures :
    (e : Env) (w : World) (user kapook salak product : Uuid) (amount : Decimal)
    → Ensures
        (λ r w'.
          BuyOutcome AccountType.kapook user kapook salak product amount
            (e.clock w.readings)
            (e.clock (suc w.readings))
            w.committed
            w.working
            r
            w'.working)
        (buy_salak_for_kapook user kapook salak product amount)
        e
        w
unfolding buy_salak_for_kapook
buy_salak_for_kapook-Ensures e w user kapook salak product amount =
    Ensures-bind (Ensures-Keeps (Still-raise_if _ _) (Ensures-raise_if e w _ _))
      λ _ w₁ ((differ, s₁), t₁).
        Ensures-bind
          (Ensures-Keeps (get_by_id-Still user kapook) (get_by_id-Ensures e w₁ user kapook))
          λ k w₂ ((found, own, s₂), t₂).
            Ensures-bind (Ensures-Keeps (Still-raise_if _ _) (Ensures-raise_if e w₂ _ _))
              λ _ w₃ ((typed, s₃), t₃).
                Ensures-bind
                  (validate_salak_side_and_product-Ensures e w₃ user salak product amount)
                  λ sp w₄ (named, owns, for_sale, s₄, t₄).
                    let still₃ = t₃ ∙ t₂ ∙ t₁ in
                    let second = t₄ ∙ ap suc still₃ in
                    let kept₃ = Same-then (Same-then s₁ s₂) s₃ in
                    let kept₄ = Same-then kept₃ s₄ in
                    Ensures-mono (mint_and_settle-Ensures e w₄ kapook sp.0.id product amount sp.1)
                      λ r w₅ (h, _). (
                        differ,
                        (k, rw s₁.committed at found, own, ground arith),
                        rw kept₃.committed at owns,
                        (
                          sp.1,
                          rw still₃ at (rw kept₃.committed at for_sale),
                          rw second at
                              (rw kept₄.working at (rw kept₄.committed at (rw named at h))),
                        ),
                      )
