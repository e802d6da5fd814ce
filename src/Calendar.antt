-- ===== src/Calendar.antt =====
-- What the code uses of Go's `time`: civil dates in UTC with the time of day, `AddDate` with its
-- normalisation, and the order of instants.
pub mod Laws
use gsb_salak_backend.Prelude.{
  ℕ, zero, suc, ◌+◌, ◌-◌, ◌*◌, ◌/◌, ◌%◌, ◌≤◌, ◌<◌, Bool, true, false, ltb, leb, ◌==◌, if◌then◌else◌,
}

-- A time.Time in UTC: `nanos` since midnight.
pub record Time : Type 0 where
  pub year : ℕ
  pub month : ℕ
  pub day : ℕ
  pub nanos : ℕ

abbrev pub date : ℕ → ℕ → ℕ → Time
date y m d = record { year = y; month = m; day = d; nanos = 0 }

abbrev pub nanos_per_second : ℕ
nanos_per_second = 1_000_000_000

abbrev pub nanos_per_day : ℕ
nanos_per_day = 86_400_000_000_000

unfoldable pub is_leap : ℕ → Bool
is_leap y =
    if y % 400 == 0
    then true
    else if y % 100 == 0
    then false
    else if y % 4 == 0
    then true
    else false

unfoldable pub days_in_month : ℕ → ℕ → ℕ
unfolding is_leap
days_in_month y m =
    if m == 2
    then (if is_leap y then 29 else 28)
    else if m == 4
    then 30
    else if m == 6
    then 30
    else if m == 9
    then 30
    else if m == 11
    then 30
    else 31

-- The days of the year before the first of a month.
unfoldable pub days_before_month : ℕ → ℕ → ℕ
unfolding days_in_month
days_before_month y zero = 0
days_before_month y (suc zero) = 0
days_before_month y (suc (suc m)) = days_before_month y (suc m) + days_in_month y (suc m)

unfoldable pub days_before_year : ℕ → ℕ
days_before_year y = let p = y - 1 in p * 365 + p / 4 - p / 100 + p / 400

-- Days since 31 December of the year 0, and nanoseconds since then.
unfoldable pub ordinal : Time → ℕ
unfolding days_before_year days_before_month
ordinal t = days_before_year t.year + days_before_month t.year t.month + t.day

unfoldable pub instant : Time → ℕ
unfolding ordinal
instant t = ordinal t * nanos_per_day + t.nanos

-- t.After(u), t.Before(u)
abbrev pub after : Time → Time → Bool
after t u = ltb (instant u) (instant t)

abbrev pub before : Time → Time → Bool
before t u = ltb (instant t) (instant u)

-- A day past the end of its month runs over into the next; three days at most, since the shortest
-- month has 28, so one step does.
unfoldable pub normalise : Time → Time
normalise t =
    if leb t.day (days_in_month t.year t.month)
    then t
    else if t.month == 12
    then record t { year = t.year + 1; month = 1; day = t.day - days_in_month t.year t.month }
    else record t { month = t.month + 1; day = t.day - days_in_month t.year t.month }

-- t.AddDate(1, 0, 0)
unfoldable pub add_year : Time → Time
unfolding normalise
add_year t = normalise (record t { year = t.year + 1 })

-- t.AddDate(0, months, 0)
unfoldable pub add_months : Time → ℕ → Time
unfolding normalise
add_months t n =
    let total = t.year * 12 + (t.month - 1) + n in
    normalise (record t { year = total / 12; month = total % 12 + 1 })

-- t.AddDate(0, 0, 1)
unfoldable pub next_day : Time → Time
unfolding normalise
next_day t = normalise (record t { day = t.day + 1 })

-- t.AddDate(0, 0, -1)
unfoldable pub previous_day : Time → Time
previous_day t =
    if ltb 1 t.day
    then record t { day = t.day - 1 }
    else if t.month == 1
    then record t { year = t.year - 1; month = 12; day = 31 }
    else record t { month = t.month - 1; day = days_in_month t.year (t.month - 1) }

-- A date of the calendar, with a time of day.
pub record IsTime (t : Time) : Type 0 where
  pub year_pos : 1 ≤ t.year
  pub month_pos : 1 ≤ t.month
  pub month_le : t.month ≤ 12
  pub day_pos : 1 ≤ t.day
  pub day_le : t.day ≤ days_in_month t.year t.month
  pub nanos_lt : t.nanos < nanos_per_day
