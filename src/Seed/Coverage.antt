-- ===== src/Seed/Coverage.antt =====
-- What the check of the draw calendar's coverage reports.
use gsb_salak_backend.Prelude.{
  ℕ, ◌+◌, ◌≤◌, Bool-cases, inl, inr, some-injective, true, ◌≡◌, ◌↔◌, refl, sym, Option, none, some,
  List, [], ◌∷◌, ltb, leb, ◌==◌, ◌&&◌, ◌||◌, ◌∙◌, ap, Bool, false, insert_by, sort_by, select,
  arith,
}
use gsb_salak_backend.Calendar.{Time, instant}
use gsb_salak_backend.Domain.{Uuid, Product, DrawDate}
use gsb_salak_backend.Store
use gsb_salak_backend.Store.{Env, World, Db, Result, ok, err, panicked, pure, attempt}
use gsb_salak_backend.Store.Returns.{IsHealthy}
use gsb_salak_backend.Salak.Catalogue.{furthest_in, furthest_draw_date}
use gsb_salak_backend.Seed.{
  Warning, runs_out, warning_on, with_warning, draw_date_coverage_warnings,
}

-- The warnings on the products, from the tables.
warnings_in : ℕ → Time → List Product → Db → List Warning
warnings_in within t [] d = []
warnings_in within t (p ∷ ps) d =
    with_warning (warning_on within t p (ok (furthest_in p.id d))) (warnings_in within t ps d)

warnings-run :
    (e : Env) (within : ℕ) (t : Time) (ps : List Product) (w : World)
    → IsHealthy e
    → (w' : World) × (draw_date_coverage_warnings within t ps e w
        ≡ (ok (warnings_in within t ps w.committed), w'))
unfolding draw_date_coverage_warnings furthest_draw_date warnings_in attempt pure Store.read
    Store.execute Store.◌>>=◌
warnings-run e within t [] w healthy = (w, refl)
warnings-run e within t (p ∷ ps) w healthy =
    let (w', ran) = warnings-run e within t ps (Store.counted w) healthy in
    (w', rw (healthy w.statements) (rw ran refl))

-- One of the rows is a draw day of the product, at the instant `n` or later.
abbrev pub is_ahead : Uuid → ℕ → List DrawDate → Bool
is_ahead product n [] = false
is_ahead product n (r ∷ rs) =
    ((r.product_id == product) && leb n (instant r.draw_date)) || is_ahead product n rs

-- Every product has a draw day at that distance or further.
abbrev pub IsCovered : ℕ → Time → List Product → Db → Type 0
IsCovered within t [] d = Unit
IsCovered within t (p ∷ ps) d =
    (is_ahead p.id (instant t + within) d.draw_dates ≡ true) × IsCovered within t ps d

-- The first row of a list is that late.
abbrev first_ahead : ℕ → List DrawDate → Bool
first_ahead n [] = false
first_ahead n (r ∷ rs) = leb n (instant r.draw_date)

latest_first : DrawDate → DrawDate → Bool
latest_first r s = leb (instant s.draw_date) (instant r.draw_date)

insert-ahead :
    (n : ℕ) (x : DrawDate) (rs : List DrawDate)
    → first_ahead n (insert_by latest_first x rs)
      ≡ (leb n (instant x.draw_date) || first_ahead n rs)
unfolding latest_first
insert-ahead n x [] = ground arith
insert-ahead n x (y ∷ ys) = ground arith

sort-ahead :
    (product : Uuid) (n : ℕ) (rs : List DrawDate)
    → first_ahead n (sort_by latest_first (select (λ r. r.product_id == product) rs))
      ≡ is_ahead product n rs
sort-ahead product n [] = refl
sort-ahead product n (r ∷ rs) = elim (Bool-cases (r.product_id == product)) [
  | inl own ↦ rw own (
      insert-ahead n r (sort_by latest_first (select (λ r. r.product_id == product) rs))
      ∙ ap (λ b. leb n (instant r.draw_date) || b) (sort-ahead product n rs))
  | inr other ↦ rw other (sort-ahead product n rs)
]

-- The row that the query gives is that late exactly when some row is.
furthest_in_iff :
    (product : Uuid) (n : ℕ) (d : Db)
    → ((f : Time) × (furthest_in product d ≡ some f) × (n ≤ instant f))
      ↔ (is_ahead product n d.draw_dates ≡ true)
unfolding latest_first
furthest_in_iff product n d =
    let rows = sort_by latest_first (select (λ r. r.product_id == product) d.draw_dates) in
    let (one, two) = go rows in
    (
      λ h. sym (sort-ahead product n d.draw_dates) ∙ one h,
      λ h. two (sort-ahead product n d.draw_dates ∙ h),
    )
  where
    go :
        (rows : List DrawDate)
        → ((f : Time) × ((elim rows [ [] ↦ none | r ∷ _ ↦ some r.draw_date ]) ≡ some f)
            × (n ≤ instant f))
          ↔ (first_ahead n rows ≡ true)
    go [] = (λ (f, p, _). cc, λ h. cc)
    go (r ∷ rs) = (
      λ (f, p, le).
          let same : r.draw_date ≡ f = some-injective p in
          let le' = rw (sym same) at le in ground arith,
      λ h. (r.draw_date, refl, ground arith),
    )

ltb_far : (a b : ℕ) → ltb a b ≡ true → b ≤ a → ⊥
ltb_far a b soon far = ground arith

covered_one :
    (within : ℕ) (t : Time) (p : Product) (o : Option Time) (ws : List Warning)
    → (with_warning (warning_on within t p (ok o)) ws ≡ [])
      ↔ (((f : Time) × (o ≡ some f) × (instant t + within ≤ instant f)) × (ws ≡ []))
covered_one within t p none ws = (λ h. cc, λ ((f, q, _), _). cc)
covered_one within t p (some f) ws = elim (Bool-cases (ltb (instant f) (instant t + within))) [
  | inl soon ↦ (
    λ h. absurd (let q : runs_out p.code f ∷ ws ≡ [] = rw soon at h in cc),
    λ ((g, q, far), _). absurd (
        let same : f ≡ g = some-injective q in
        let far' = rw (sym same) at far in ltb_far _ _ soon far'),
  )
  | inr later ↦ (λ h. ((f, refl, ground arith), rw later at h), λ (_, rest). rw later rest)
]

no_warnings :
    (within : ℕ) (t : Time) (ps : List Product) (d : Db)
    → (warnings_in within t ps d ≡ []) ↔ IsCovered within t ps d
unfolding warnings_in
no_warnings within t [] d = (λ _. tt, λ _. refl)
no_warnings within t (p ∷ ps) d =
    let one = covered_one within t p (furthest_in p.id d) (warnings_in within t ps d) in
    let rest = no_warnings within t ps d in
    let ahead = furthest_in_iff p.id (instant t + within) d in
    (
      λ h. let (far, none_left) = one.0 h in (ahead.0 far, rest.0 none_left),
      λ (far, covered). one.1 (ahead.1 far, rest.1 covered),
    )

-- If no statement fails, the check gives no warning exactly when each of the products has a row among its draw days that lies
-- at least the given time ahead.
pub draw_date_coverage_warnings_iff :
    (e : Env) (w : World) (within : ℕ) (t : Time) (ps : List Product)
    → IsHealthy e
    → ((draw_date_coverage_warnings within t ps e w).0 ≡ ok []) ↔ IsCovered within t ps w.committed
draw_date_coverage_warnings_iff e w within t ps healthy =
    let (w', ran) = warnings-run e within t ps w healthy in
    let spec = no_warnings within t ps w.committed in
    (
      λ h. let same : ok (warnings_in within t ps w.committed) ≡ ok [] = rw ran at h in spec.0 cc,
      λ covered. rw ran (rw (spec.1 covered) refl),
    )
