-- ===== src/Kapook/Window.antt =====
-- internal/kapook/domain/withdrawal_window.go
use gsb_salak_backend.Prelude.{
  ℕ, zero, suc, ◌+◌, ◌-◌, ◌≤◌, ◌<◌, ◌≡◌, refl, inl, inr, Bool-cases, arith, if◌then◌else◌,
}
use gsb_salak_backend.Calendar.{Time, IsTime, instant, after, add_year}
use gsb_salak_backend.Calendar.Laws.{instant_lt_of_year, year-add_year, add_year-IsTime}

-- The loop of `WithdrawalWindow`: the start moves on by a year until the next anniversary is after
-- `now`.
unfoldable pub window_start : ℕ → Time → Time → Time
window_start zero start now = start
window_start (suc fuel) start now =
    let later = window_start fuel (add_year start) now in
    if after (add_year start) now then start else later

-- Each round moves the start into the next year, so no more rounds are needed than the years from
-- the anchor to `now`, and one to leave the loop.
unfoldable pub withdrawal_window : Time → Time → Time × Time
unfolding window_start
withdrawal_window anchor now =
    let start = window_start (now.year - anchor.year + 1) anchor now in (start, add_year start)

-- An anniversary: the anchor moved on by a number of years.
abbrev pub anniversary : Time → ℕ → Time
anniversary t zero = t
anniversary t (suc k) = anniversary (add_year t) k

module _ (now : Time) (hn : IsTime now) where
  window_start-contains :
      (fuel : ℕ) (start : Time)
      → IsTime start
      → instant start ≤ instant now
      → now.year < start.year + fuel
      → let s = window_start fuel start now in
        (k : ℕ) × (s ≡ anniversary start k)
        × (instant s ≤ instant now)
        × (instant now < instant (add_year s))
  unfolding window_start
  window_start-contains zero start hs le room =
      absurd (omega (arith, instant_lt_of_year now start hn hs (omega arith)))
  window_start-contains (suc fuel) start hs le room =
      elim (Bool-cases (after (add_year start) now)) [
        | inl stop ↦ (0, ground arith, ground arith, ground arith)
        | inr more ↦
            let (k, e, lo, hi) =
              window_start-contains fuel (add_year start) (add_year-IsTime start hs) (ground arith)
                (omega (arith, year-add_year start hs)) in
            rw more (suc k, e, lo, hi)
      ]

-- For an anchor that is not after `now`, the window contains `now`, starts at an anniversary of
-- the anchor, and ends at the next one.
pub withdrawal_window_contains :
    (anchor now : Time)
    → IsTime anchor
    → IsTime now
    → instant anchor ≤ instant now
    → let (start, end) = withdrawal_window anchor now in
      (k : ℕ) × (start ≡ anniversary anchor k)
      × (end ≡ add_year start)
      × (instant start ≤ instant now)
      × (instant now < instant end)
unfolding withdrawal_window
withdrawal_window_contains anchor now ha hn le =
    let (k, e, lo, hi) =
      window_start-contains now hn (now.year - anchor.year + 1) anchor ha le (omega arith) in
    (k, e, refl, lo, hi)
