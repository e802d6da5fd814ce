-- ===== src/Calendar/Laws.antt =====
-- The order of dates: a later year is a later instant, and `add_year` moves into the next year.
use gsb_salak_backend.Prelude.{ℕ, zero, suc, ◌+◌, ◌-◌, ◌≤◌, ◌<◌, ◌≡◌, refl, arith, if◌then◌else◌}
use gsb_salak_backend.Calendar.{
  Time, IsTime, is_leap, days_in_month, days_before_month, days_before_year, instant, add_year,
}

abbrev days_in_year : ℕ → ℕ
days_in_year y = if is_leap y then 366 else 365

-- The last day of a month lies in its year.
days_to_month_end : (y m : ℕ) → m ≤ 12 → days_before_month y m + days_in_month y m ≤ days_in_year y
unfolding days_before_month
days_to_month_end y zero _ = ground arith
days_to_month_end y (suc zero) _ = ground arith
days_to_month_end y (suc (suc zero)) _ = ground arith
days_to_month_end y (suc (suc (suc zero))) _ = ground arith
days_to_month_end y (suc (suc (suc (suc zero)))) _ = ground arith
days_to_month_end y (suc (suc (suc (suc (suc zero))))) _ = ground arith
days_to_month_end y (suc (suc (suc (suc (suc (suc zero)))))) _ = ground arith
days_to_month_end y (suc (suc (suc (suc (suc (suc (suc zero))))))) _ = ground arith
days_to_month_end y (suc (suc (suc (suc (suc (suc (suc (suc zero)))))))) _ = ground arith
days_to_month_end y (suc (suc (suc (suc (suc (suc (suc (suc (suc zero))))))))) _ = ground arith
days_to_month_end y (suc (suc (suc (suc (suc (suc (suc (suc (suc (suc zero)))))))))) _ =
    ground arith
days_to_month_end y (suc (suc (suc (suc (suc (suc (suc (suc (suc (suc (suc zero))))))))))) _ =
    ground arith
days_to_month_end y (suc (suc (suc (suc (suc (suc (suc (suc (suc (suc (suc (suc zero)))))))))))) _ =
    ground arith
days_to_month_end y (suc (suc (suc (suc (suc (suc (suc (suc (suc (suc (suc (suc (suc m)))))))))))))
      h =
    absurd (omega arith)

days_before_year-suc :
    (y : ℕ) → 1 ≤ y → days_before_year (y + 1) ≡ days_before_year y + days_in_year y
unfolding days_before_year is_leap
days_before_year-suc y h = ground arith

days_before_year_later :
    (k y : ℕ) → 1 ≤ y → days_before_year y + days_in_year y ≤ days_before_year (y + 1 + k)
unfolding days_before_year
days_before_year_later zero y h = omega (arith, days_before_year-suc y h)
days_before_year_later (suc k) y h =
    omega (arith, days_before_year_later k y h, days_before_year-suc (y + 1 + k) (omega arith))

-- A date in a later year is a later instant.
pub instant_lt_of_year :
    (t u : Time) → IsTime t → IsTime u → t.year < u.year → instant t < instant u
unfolding instant
instant_lt_of_year t u ht hu h = omega (
  arith,
  days_to_month_end t.year t.month ht.month_le,
  days_before_year_later (u.year - t.year - 1) t.year ht.year_pos,
)

days_in_month_bounds : (y m : ℕ) → (28 ≤ days_in_month y m) × (days_in_month y m ≤ 31)
unfolding days_in_month
days_in_month_bounds y m = ground arith

december : (y : ℕ) → days_in_month y 12 ≡ 31
unfolding days_in_month
december y = refl

module _ (t : Time) (h : IsTime t) where
  pub year-add_year : (add_year t).year ≡ t.year + 1
  unfolding add_year
  year-add_year = ground (arith, h, december t.year, december (t.year + 1))

  pub add_year-IsTime : IsTime (add_year t)
  unfolding add_year
  add_year-IsTime = ground (
    arith,
    h,
    december t.year,
    december (t.year + 1),
    days_in_month_bounds t.year t.month,
    days_in_month_bounds (t.year + 1) t.month,
    days_in_month_bounds (t.year + 1) (t.month + 1),
  )
