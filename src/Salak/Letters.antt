-- ===== src/Salak/Letters.antt =====
-- internal/salak/domain/ticket_letters.go, and the ticket ids of holding.go.
pub mod Cycle
pub mod Tickets
use gsb_salak_backend.Prelude.{
  ℕ, zero, suc, ◌+◌, ◌-◌, ◌/◌, ◌%◌, ◌||◌, Option, none, some, List, [], ◌∷◌, ◌++◌, ◌==◌, length,
  if◌then◌else◌,
}
use gsb_salak_backend.Prelude.Digits.{padded_to}
use gsb_salak_backend.Apperror.{Error, text}
use gsb_salak_backend.Domain.{Runes, Holding}
use gsb_salak_backend.Store.{Result, ok, err}

abbrev pub thai_consonant_start : ℕ
thai_consonant_start = 0x0E01

abbrev pub thai_consonant_end : ℕ
thai_consonant_end = 0x0E2E

abbrev pub thai_vowel_ru : ℕ
thai_vowel_ru = 0x0E24

abbrev pub thai_vowel_lu : ℕ
thai_vowel_lu = 0x0E26

-- The loop of `buildTicketLetters` at code point `cp`, with so many rounds to go.
unfoldable pub build_from : ℕ → ℕ → List ℕ
build_from zero cp = []
build_from (suc left) cp =
    let rest = build_from left (cp + 1) in
    if cp == thai_vowel_ru || cp == thai_vowel_lu then rest else cp ∷ rest

unfoldable pub ticket_letters : List ℕ
unfolding build_from
ticket_letters = build_from (thai_consonant_end - thai_consonant_start + 1) thai_consonant_start

-- The loop that looks for a rune, at index `i`.
unfoldable pub index_from : ℕ → List ℕ → ℕ → Option ℕ
index_from i [] r = none
index_from i (x ∷ xs) r = if x == r then some i else index_from (i + 1) xs r

unfoldable pub letter_at : List ℕ → ℕ → Runes
letter_at [] i = []
letter_at (x ∷ xs) zero = x ∷ []
letter_at (x ∷ xs) (suc i) = letter_at xs i

-- `NextLetter` after the test of the length.
unfoldable pub next_of : ℕ → Result Runes
next_of r = elim (index_from 0 ticket_letters r) [
  | none ↦ err (text "invalid ticket letter: not in the 44-consonant cycle")
  | some i ↦
      if i == length ticket_letters - 1
      then err (text "ticket letter cycle exhausted")
      else ok (letter_at ticket_letters (i + 1))
]

-- `NextLetter`. The messages leave out the quoted letter.
unfoldable pub next_letter : Runes → Result Runes
next_letter [] = err (text "invalid ticket letter: must be exactly one rune")
next_letter (r ∷ []) = next_of r
next_letter (r ∷ s ∷ rs) = err (text "invalid ticket letter: must be exactly one rune")

-- `fmt.Sprintf("%07d", n)`
unfoldable pub padded : ℕ → Runes
unfolding padded_to
padded n = padded_to 7 n

unfoldable pub ticket_start_id : Holding → Runes
unfolding padded
ticket_start_id h = h.ticket_letter ++ padded h.ticket_start

unfoldable pub ticket_end_id : Holding → Runes
unfolding padded
ticket_end_id h = h.ticket_letter ++ padded h.ticket_end
