-- ===== src/Salak/Letters/Tickets.antt =====
-- The printed ticket ids of internal/salak/domain/holding.go, read back.
use gsb_salak_backend.Prelude.{◌≡◌, ap, ◌<◌, [], ◌∷◌, ℕ, arith}
use gsb_salak_backend.Prelude.Digits.{value, value-padded_to}
use gsb_salak_backend.Domain.{Holding, Runes}
use gsb_salak_backend.Salak.Letters.{padded, ticket_start_id, ticket_end_id}

-- A ticket id taken apart: its first rune, and the number that the others stand for.
abbrev pub parse_ticket_id : Runes → ℕ × ℕ
parse_ticket_id [] = (0, 0)
parse_ticket_id (r ∷ rs) = (r, value rs)

-- Of a holding with a letter of one rune, and with ticket numbers that an int64 holds, the printed ids read back
-- as the letter and the numbers: two holdings that print the same id have the same letter and number.
pub parse_ticket_id-ticket_id :
    (h : Holding) (r : ℕ)
    → h.ticket_letter ≡ r ∷ []
    → h.ticket_start < 9223372036854775808
    → h.ticket_end < 9223372036854775808
    → (parse_ticket_id (ticket_start_id h) ≡ (r, h.ticket_start))
      × (parse_ticket_id (ticket_end_id h) ≡ (r, h.ticket_end))
unfolding ticket_start_id ticket_end_id padded
parse_ticket_id-ticket_id h r letter start end = (
  rw letter (ap (λ n. (r, n)) (value-padded_to 7 h.ticket_start (omega (arith, start)))),
  rw letter (ap (λ n. (r, n)) (value-padded_to 7 h.ticket_end (omega (arith, end)))),
)
