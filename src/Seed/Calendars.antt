-- ===== src/Seed/Calendars.antt =====
-- The draw days that are generated, and what their coverage check reports.
use gsb_salak_backend.Prelude.{
  ℕ, Bool, true, false, ◌&&◌, ◌||◌, Bool-cases, ◌≡◌, ◌≢◌, ◌⊎◌, inl, inr, some-injective, ◌≤◌, ◌↔◌,
  ◌∙◌, refl, ap, Option, none, some, List, [], ◌∷◌, ◌++◌, ◌==◌, arith,
}
use gsb_salak_backend.Calendar.{Time}
use gsb_salak_backend.Seed.{add_date, draw_day_for, draw_dates_in, months, generate_draw_dates}

-- The rule of the sales sheets: the 16th for a term of a year; for two years the 1st, but the 2nd of
-- January and of May.
abbrev pub IsRule : ℕ → ℕ → ℕ → Type 0
IsRule term month day =
    ((term ≡ 12) × (day ≡ 16))
    ⊎ ((term ≡ 24) × (day ≡ 2) × ((month ≡ 1) ⊎ (month ≡ 5)))
    ⊎ ((term ≡ 24) × (day ≡ 1) × (month ≢ 1) × (month ≢ 5))

-- The day is on a list of days.
abbrev pub is_listed : ℕ → ℕ → ℕ → List Time → Bool
is_listed y m d [] = false
is_listed y m d (t ∷ ts) = ((t.year == y) && (t.month == m) && (t.day == d)) || is_listed y m d ts

abbrev pub is_member : ℕ → List ℕ → Bool
is_member n [] = false
is_member n (k ∷ ks) = (k == n) || is_member n ks

distribute : (a b c d : Bool) → ((a && c && d) || (b && c && d)) ≡ ((a || b) && c && d)
distribute a b c d = ground arith

split_and : (a b c : Bool) → (a && b && c) ≡ true → (a ≡ true) × (b ≡ true) × (c ≡ true)
split_and a b c h = ground arith

join_and : (a b c : Bool) → a ≡ true → b ≡ true → c ≡ true → (a && b && c) ≡ true
join_and a b c h k l = ground arith

is_listed-append :
    (y m d : ℕ) (ts us : List Time)
    → is_listed y m d (ts ++ us) ≡ (is_listed y m d ts || is_listed y m d us)
is_listed-append y m d [] us = refl
is_listed-append y m d (t ∷ ts) us = rw (is_listed-append y m d ts us) (ground arith)

on_day : Option ℕ → ℕ → Bool
on_day none d = false
on_day (some k) d = k == d

is_listed-add_date :
    (year k y m d : ℕ) (o o' : Option ℕ) (rest : List Time) (b : Bool)
    → (k ≡ m → o ≡ o')
    → is_listed y m d rest ≡ ((year == y) && b && on_day o' d)
    → is_listed y m d (add_date year k o rest) ≡ ((year == y) && ((k == m) || b) && on_day o' d)
unfolding on_day
is_listed-add_date year k y m d none none rest b same ih = rw ih (ground arith)
is_listed-add_date year k y m d none (some j) rest b same ih = elim (Bool-cases (k == m)) [
  | inl here ↦ absurd (let p : k ≡ m = ground arith in let q = same p in cc)
  | inr away ↦ rw away ih
]
is_listed-add_date year k y m d (some i) none rest b same ih = elim (Bool-cases (k == m)) [
  | inl here ↦ absurd (let p : k ≡ m = ground arith in let q = same p in cc)
  | inr away ↦ rw away (rw ih (ground arith))
]
is_listed-add_date year k y m d (some i) (some j) rest b same ih = elim (Bool-cases (k == m)) [
  | inl here ↦
      let p : k ≡ m = ground arith in
      let q : i ≡ j = some-injective (same p) in rw here (rw q (rw ih (ground arith)))
  | inr away ↦ rw away (rw ih (ground arith))
]

is_listed-draw_dates_in :
    (term year y m d : ℕ) (ms : List ℕ)
    → is_listed y m d (draw_dates_in term year ms)
      ≡ ((year == y) && is_member m ms && on_day (draw_day_for term m) d)
is_listed-draw_dates_in term year y m d [] = ground arith
is_listed-draw_dates_in term year y m d (k ∷ ks) =
    is_listed-add_date year k y m d (draw_day_for term k) (draw_day_for term m)
      (draw_dates_in term year ks) (is_member m ks) (ap (draw_day_for term))
      (is_listed-draw_dates_in term year y m d ks)

is_listed-generate :
    (term y m d : ℕ) (years : List ℕ)
    → is_listed y m d (generate_draw_dates term years)
      ≡ (is_member y years && is_member m months && on_day (draw_day_for term m) d)
is_listed-generate term y m d [] = refl
is_listed-generate term y m d (k ∷ ks) =
    is_listed-append y m d (draw_dates_in term k months) (generate_draw_dates term ks)
    ∙ rw (is_listed-draw_dates_in term k y m d months) (
        rw (is_listed-generate term y m d ks) (
          distribute (k == y) (is_member y ks) (is_member m months)
            (on_day (draw_day_for term m) d)))

on_day_iff : (term m d : ℕ) → (on_day (draw_day_for term m) d ≡ true) ↔ IsRule term m d
unfolding on_day
on_day_iff term m d = ground arith

member_months : (m : ℕ) → (is_member m months ≡ true) ↔ ((1 ≤ m) × (m ≤ 12))
member_months m = ground arith

-- The generated draw days of a product are exactly the days of the given years that the rule of the sales sheets names,
-- for a term of one or of two years; another term has none.
pub generate_draw_dates_iff :
    (term y m d : ℕ) (years : List ℕ)
    → (is_listed y m d (generate_draw_dates term years) ≡ true)
      ↔ ((is_member y years ≡ true) × (1 ≤ m) × (m ≤ 12) × IsRule term m d)
generate_draw_dates_iff term y m d years = (
  λ h.
      let (a, b, c) = split_and _ _ _ (rw (is_listed-generate term y m d years) at h) in
      let (low, high) = (member_months m).0 b in (a, low, high, (on_day_iff term m d).0 c),
  λ (a, low, high, c).
      is_listed-generate term y m d years
      ∙ join_and _ _ _ a ((member_months m).1 (low, high)) ((on_day_iff term m d).1 c),
)
