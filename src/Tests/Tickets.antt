-- ===== src/Tests/Tickets.antt =====
-- Ticket reservations and the window of free withdrawals on the small bank.
use gsb_salak_backend.Prelude.{ℕ, ◌+◌, ◌≡◌, ◌≢◌, ◌⊎◌, ◌≤◌, ◌<◌, refl, [], ◌∷◌, arith}
use gsb_salak_backend.Calendar.{
  IsTime, date, instant, ordinal, days_before_year, days_before_month, days_in_month, is_leap,
  add_year,
}
use gsb_salak_backend.Store
use gsb_salak_backend.Salak.Repository
use gsb_salak_backend.Store.{Db, World, ok}
use gsb_salak_backend.Store.Rules.{Ensures}
use gsb_salak_backend.Salak.Letters.{next_letter}
use gsb_salak_backend.Salak.Repository.{TicketRange, reserve_ticket_range, set_sequence}
use gsb_salak_backend.Salak.Repository.Rules.{
  Reserved, reserve_ticket_range-Reserved, reserve_ticket_range-exact_fill,
  reserve_ticket_range-adjacent,
}
use gsb_salak_backend.Kapook.Window.{anniversary, withdrawal_window, withdrawal_window_contains}
use gsb_salak_backend.Tests.{env, world, world_of, db, sequence, today}

reserve_ticket_range-Reserved_example :
    Ensures
      (λ r w'. Reserved 20 3 world.working r w'.working × (w'.committed ≡ world.committed))
      (reserve_ticket_range 20 3)
      env
      world
reserve_ticket_range-Reserved_example = reserve_ticket_range-Reserved env world 20 3 (omega arith)

abbrev nearly_full : Db
nearly_full = record db {
  ticket_sequences = record sequence { next_ticket_number = 9_999_990 } ∷ [];
}

abbrev last_ten : TicketRange
last_ten = record { letter = 0x0E01 ∷ []; start = 9_999_990; end = 9_999_999 }

reserve_ticket_range-exact_fill_example :
    reserve_ticket_range 20 10 env (world_of nearly_full) ≢ (ok last_ten, world)
reserve_ticket_range-exact_fill_example =
    reserve_ticket_range-exact_fill env (world_of nearly_full) world 20 10
      (record sequence { next_ticket_number = 9_999_990 }) last_ten (omega arith) refl refl

abbrev first_range : TicketRange
first_range = record { letter = 0x0E01 ∷ []; start = 2; end = 4 }

abbrev second_range : TicketRange
second_range = record { letter = 0x0E01 ∷ []; start = 5; end = 6 }

abbrev once_reserved : World
once_reserved = (reserve_ticket_range 20 3 env world).1

abbrev twice_reserved : World
twice_reserved = (reserve_ticket_range 20 2 env once_reserved).1

first_returns : reserve_ticket_range 20 3 env world ≡ (ok first_range, once_reserved)
unfolding reserve_ticket_range Repository.place Repository.update_sequence Store.pure Store.lift
    Store.raise_if Store.read Store.first Store.write Store.execute Store.or_not_found Store.◌>>=◌
first_returns = refl

second_returns : reserve_ticket_range 20 2 env once_reserved ≡ (ok second_range, twice_reserved)
unfolding reserve_ticket_range Repository.place Repository.update_sequence Store.pure Store.lift
    Store.raise_if Store.read Store.first Store.write Store.execute Store.or_not_found Store.◌>>=◌
second_returns = refl

reserve_ticket_range-adjacent_example :
    ((second_range.letter ≡ first_range.letter) × (second_range.start ≡ first_range.end + 1))
    ⊎ ((next_letter first_range.letter ≡ ok second_range.letter) × (second_range.start ≡ 0))
reserve_ticket_range-adjacent_example =
    reserve_ticket_range-adjacent 20 3 2 env env world once_reserved once_reserved twice_reserved
      first_range second_range (omega arith) (omega arith) first_returns refl second_returns

leap_day-IsTime : IsTime (date 2024 2 29)
unfolding days_in_month is_leap
leap_day-IsTime = record {
  year_pos = omega arith;
  month_pos = omega arith;
  month_le = omega arith;
  day_pos = omega arith;
  day_le = omega arith;
  nanos_lt = omega arith;
}

today-IsTime : IsTime today
unfolding days_in_month is_leap
today-IsTime = record {
  year_pos = omega arith;
  month_pos = omega arith;
  month_le = omega arith;
  day_pos = omega arith;
  day_le = omega arith;
  nanos_lt = omega arith;
}

leap_day-le : instant (date 2024 2 29) ≤ instant today
unfolding instant ordinal days_before_year days_before_month days_in_month is_leap
leap_day-le = omega arith

withdrawal_window_contains_example :
    let (start, end) = withdrawal_window (date 2024 2 29) today in
    (k : ℕ) × (start ≡ anniversary (date 2024 2 29) k)
    × (end ≡ add_year start)
    × (instant start ≤ instant today)
    × (instant today < instant end)
withdrawal_window_contains_example =
    withdrawal_window_contains (date 2024 2 29) today leap_day-IsTime today-IsTime leap_day-le
