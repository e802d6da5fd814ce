-- ===== src/Salak/Service/Rules.antt =====
-- What the checks before a purchase accept, and the date that the worker defers to.
use gsb_salak_backend.Prelude.{
  ◌↔◌, ℕ, zero, suc, ◌+◌, ◌%◌, ◌≡◌, ◌<◌, ◌∙◌, refl, sym, Bool, true, false, Bool-cases, inl, inr,
  arith, if◌then◌else◌,
}
use gsb_salak_backend.Prelude.Int.{pos, pos_part, neg_part, ◌<ℤ◌, ◌≤ℤ◌}
use gsb_salak_backend.Prelude.Decimal.{Decimal}
use gsb_salak_backend.Calendar.{Time, next_day}
use gsb_salak_backend.Domain.{Product}
use gsb_salak_backend.Store.{Env, World, Db, ok, pure}
use gsb_salak_backend.Store.Rules.{
  Ensures, Same, Same-then, Ensures-bind, Ensures-pure, Ensures-raise, Ensures-map_err,
  Ensures-mono, Ensures-now, Ensures-read, Ensures-ok,
}
use gsb_salak_backend.Store.Returns.{
  IsHealthy, Returns, Returns-bind, Returns-pure, Returns-map_err, Returns-read, Returns-now,
}
use gsb_salak_backend.Salak.Repository.{draw_day_in, is_draw_day}
use gsb_salak_backend.Salak.Service.{
  validate_purchase, truncate_to_date, search_date, next_available_date,
  next_available_date_search_limit,
}

-- The amounts that a product sells: positive, between its bounds, and a multiple of its step.
abbrev pub IsSold : Product → Decimal → Type 0
IsSold p amount =
    (pos 0 <ℤ amount)
    × (p.min_purchase ≤ℤ amount)
    × (amount ≤ℤ p.max_purchase)
    × (0 < pos_part p.step_amount + neg_part p.step_amount)
    × ((pos_part amount + neg_part amount) % (pos_part p.step_amount + neg_part p.step_amount) ≡ 0)

-- `ValidatePurchase` accepts exactly the amounts that are positive, between the product's bounds and a
-- multiple of its step, for a step that is not zero.
pub validate_purchase_iff :
    (p : Product) (amount : Decimal) → (validate_purchase p amount ≡ ok tt) ↔ IsSold p amount
unfolding validate_purchase
validate_purchase_iff p amount = ground arith

-- A day moved on by a number of days.
abbrev pub days_after : Time → ℕ → Time
days_after t zero = t
days_after t (suc n) = days_after (next_day t) n

all_drawn :
    (d : Db) (p : Product) (t : Time) (n : ℕ)
    → draw_day_in p.id t d ≡ true
    → ((k : ℕ) → k < n → draw_day_in p.id (days_after (next_day t) k) d ≡ true)
    → (k : ℕ) → k < suc n
    → draw_day_in p.id (days_after t k) d ≡ true
all_drawn d p t n here later zero h = here
all_drawn d p t n here later (suc k) h = later k (omega arith)

search_date-Ensures :
    (e : Env) (w : World) (left : ℕ) (p : Product) (t : Time)
    → Ensures
        (λ u w'.
          ((n : ℕ) × (n < left)
            × (u ≡ days_after t n)
            × (draw_day_in p.id u w.committed ≡ false)
            × ((k : ℕ) → k < n → draw_day_in p.id (days_after t k) w.committed ≡ true))
          × Same w w')
        (search_date left p t)
        e
        w
unfolding search_date is_draw_day
search_date-Ensures e w zero p t = Ensures-raise _
search_date-Ensures e w (suc left) p t =
    Ensures-bind (Ensures-map_err _ _ (Ensures-read e w _ (draw_day_in p.id t))) λ drawn w₁ (q, s).
      elim (Bool-cases drawn) [
        | inl later ↦ rw later (
            Ensures-mono (search_date-Ensures e w₁ left p (next_day t))
              λ u w₂ ((n, lt, eq, free, before), s'). (
                (
                  suc n,
                  omega arith,
                  eq,
                  rw s.committed at free,
                  all_drawn w.committed p t n (sym q ∙ later) λ k h. rw s.committed at before k h,
                ),
                Same-then s s',
              ))
        | inr free ↦
            rw free (
              Ensures-pure t ((0, omega arith, refl, sym q ∙ free, λ k h. absurd (omega arith)), s))
      ]

-- The date is the first after `today` that is no draw day of the product, and is at most 45 days later.
abbrev pub IsFirstFree : Product → Time → Db → Time → Type 0
IsFirstFree p today d u =
    (n : ℕ) × (n < 45)
    × (u ≡ days_after (next_day today) n)
    × (draw_day_in p.id u d ≡ false)
    × ((k : ℕ) → k < n → draw_day_in p.id (days_after (next_day today) k) d ≡ true)

pub next_available_date-Ensures :
    (e : Env) (w : World) (p : Product)
    → Ensures
        (λ u w'. IsFirstFree p (truncate_to_date (e.clock w.readings)) w.committed u)
        (next_available_date p)
        e
        w
unfolding next_available_date
next_available_date-Ensures e w p = Ensures-bind (Ensures-now e w) λ t w₁ (q, s).
    Ensures-mono
      (search_date-Ensures e w₁ next_available_date_search_limit p (next_day (truncate_to_date t)))
      λ u w₂ ((n, lt, eq, free, before), _).
        (n, lt, rw q at eq, rw s.committed at free, λ k h. rw q at (rw s.committed at before k h))

search_date-Returns :
    (e : Env) (w : World) (left : ℕ) (p : Product) (t : Time) (n : ℕ)
    → IsHealthy e
    → w.aborted ≡ false
    → n < left
    → draw_day_in p.id (days_after t n) w.committed ≡ false
    → Returns (λ _ _. Unit) (search_date left p t) e w
unfolding search_date is_draw_day
search_date-Returns e w zero p t n healthy alive lt free = absurd (omega arith)
search_date-Returns e w (suc left) p t n healthy alive lt free =
    Returns-bind (Returns-map_err _ _ (Returns-read e w healthy alive _ (draw_day_in p.id t)))
      λ drawn w₁ alive₁ (q, s).
        go
          (λ w₂ k alive₂ lt' free'.
            search_date-Returns e w₂ left p (next_day t) k healthy alive₂ lt' free')
          drawn w₁ n alive₁ q s.committed lt free
  where
    go :
        ((w₂ : World) (k : ℕ)
          → w₂.aborted ≡ false
          → k < left
          → draw_day_in p.id (days_after (next_day t) k) w₂.committed ≡ false
          → Returns (λ _ _. Unit) (search_date left p (next_day t)) e w₂)
        → (drawn : Bool) (w₁ : World) (n : ℕ) → w₁.aborted ≡ false
        → drawn ≡ draw_day_in p.id t w.committed
        → w₁.committed ≡ w.committed
        → n < suc left
        → draw_day_in p.id (days_after t n) w.committed ≡ false
        → Returns (λ _ _. Unit) (if drawn then search_date left p (next_day t) else pure t) e w₁
    go ih false w₁ n alive₁ q s lt free = Returns-pure t alive₁ tt
    go ih true w₁ zero alive₁ q s lt free = absurd (ground (arith, q, free))
    go ih true w₁ (suc n) alive₁ q s lt free = ih w₁ n alive₁ (omega arith) (rw s free)

next_available_date-Returns :
    (e : Env) (w : World) (p : Product) (n : ℕ)
    → IsHealthy e
    → w.aborted ≡ false
    → n < 45
    → draw_day_in p.id (days_after (next_day (truncate_to_date (e.clock w.readings))) n) w.committed
      ≡ false
    → Returns (λ _ _. Unit) (next_available_date p) e w
unfolding next_available_date
next_available_date-Returns e w p n healthy alive lt free =
    Returns-bind (Returns-now e w alive) λ t w₁ alive₁ (q, s).
      search_date-Returns e w₁ next_available_date_search_limit p (next_day (truncate_to_date t)) n
        healthy alive₁ lt (rw q (rw s.committed free))

-- If no statement fails and one of the 45 days after the day of the clock's reading is no draw day of the
-- product in the committed tables, `NextAvailableDate` returns the first such day.
pub next_available_date-IsFirstFree :
    (e : Env) (w : World) (p : Product) (n : ℕ)
    → IsHealthy e
    → w.aborted ≡ false
    → n < 45
    → draw_day_in p.id (days_after (next_day (truncate_to_date (e.clock w.readings))) n) w.committed
      ≡ false
    → (u : Time) × (w' : World) × (next_available_date p e w ≡ (ok u, w'))
      × IsFirstFree p (truncate_to_date (e.clock w.readings)) w.committed u
next_available_date-IsFirstFree e w p n healthy alive lt free =
    let r = next_available_date-Returns e w p n healthy alive lt free in
    (r.value, r.after, r.runs, Ensures-ok (next_available_date-Ensures e w p) r.runs)
