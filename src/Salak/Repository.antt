-- ===== src/Salak/Repository.antt =====
-- internal/salak/repository.
pub mod Rules
pub mod Returns
use gsb_salak_backend.Prelude.{
  ℕ, ◌+◌, ◌-◌, Bool, true, false, not, ◌&&◌, ◌||◌, Option, none, some, List, [], ◌∷◌, ltb, leb,
  ◌==◌, find, select, update, sort_by, length, if◌then◌else◌,
}
use gsb_salak_backend.Prelude.Int.{pos, leb_ℤ}
use gsb_salak_backend.Prelude.Decimal.{round2}
use gsb_salak_backend.Apperror.{Error, check_violation, units_exceed_letter_capacity}
use gsb_salak_backend.Calendar.{Time, instant}
use gsb_salak_backend.Domain.{Uuid, Runes, Product, Holding, TicketSequence}
use gsb_salak_backend.Store.{
  Db, Exec, ambient, tx, pure, lift, raise_if, read, first, write, ok, err, panicked, Result, ◌>>=◌,
  ◌>>◌,
}
use gsb_salak_backend.Salak.Letters.{next_letter}

abbrev pub product_at : Uuid → Db → Option Product
product_at i d = find (λ p. p.id == i) d.products

-- GormProductRepository.FindByID and ListActive
unfoldable pub find_product : Uuid → Exec Product
find_product i = first ambient (product_at i)

unfoldable pub list_active : Exec (List Product)
list_active =
    read ambient
      λ d. sort_by (λ p q. leb p.term_months q.term_months) (select (λ p. p.is_active) d.products)

-- GormDrawDateRepository.IsDrawDay: `count > 0`. The column is a date.
abbrev pub draw_day_in : Uuid → Time → Db → Bool
draw_day_in product t d = ltb 0 (
    length
      (select (λ r. (r.product_id == product) && (instant r.draw_date == instant t)) d.draw_dates))

unfoldable pub is_draw_day : Uuid → Time → Exec Bool
is_draw_day product t = read ambient (draw_day_in product t)

-- GormHoldingRepository
abbrev pub tickets_per_letter : ℕ
tickets_per_letter = 10_000_000

abbrev pub holding_at : Uuid → Db → Option Holding
holding_at i d = find (λ h. h.id == i) d.holdings

abbrev pub same_runes : Runes → Runes → Bool
same_runes [] [] = true
same_runes (x ∷ xs) (y ∷ ys) = (x == y) && same_runes xs ys
same_runes _ _ = false

-- The ranges of two holdings overlap, in the same letter of the same product.
abbrev pub overlaps : Holding → Holding → Bool
overlaps h k =
    (h.product_id == k.product_id)
    && same_runes h.ticket_letter k.ticket_letter
    && leb h.ticket_start k.ticket_end
    && leb k.ticket_start h.ticket_end

-- The CHECKs of salak.holdings and its exclusion constraint.
abbrev pub holding_check : Holding → Db → Option Error
holding_check h d =
    if (h.units == 0)
      || leb h.ticket_end h.ticket_start
      || not (h.ticket_end - h.ticket_start + 1 == h.units)
      || leb_ℤ h.purchase_amount (pos 0)
    then some check_violation
    else elim (find (overlaps h) d.holdings) [ none ↦ none | some _ ↦ some check_violation ]

abbrev pub stored_holding : Holding → Holding
stored_holding h = record h { purchase_amount = round2 h.purchase_amount }

abbrev pub add_holding : Holding → Db → Db
add_holding h d = record d { holdings = stored_holding h ∷ d.holdings }

unfoldable pub create_holding : Holding → Exec (Unit {0})
create_holding h = write tx (holding_check (stored_holding h)) (add_holding h)

-- `FindByAccountID`: live holdings, latest purchase first.
unfoldable pub find_holdings : Uuid → Exec (List Holding)
find_holdings account = read ambient λ d.
    sort_by (λ h k. leb (instant k.purchase_date) (instant h.purchase_date))
      (select (λ h. (h.account_id == account) && elim h.settled_at [ none ↦ true | some _ ↦ false ])
        d.holdings)

abbrev pub sequence_at : Uuid → Db → Option TicketSequence
sequence_at product d = find (λ s. s.product_id == product) d.ticket_sequences

-- CHECK (next_ticket_number BETWEEN 0 AND 9999999)
abbrev pub sequence_check : ℕ → Option Error
sequence_check number = if ltb 9999999 number then some check_violation else none

abbrev pub set_sequence : Uuid → Runes → ℕ → Db → Db
set_sequence product letter number d = record d {
  ticket_sequences =
      update (λ s. s.product_id == product)
        (λ s. record s { next_ticket_letter = letter; next_ticket_number = number })
        d.ticket_sequences;
}

unfoldable pub update_sequence : Uuid → Runes → ℕ → Exec (Unit {0})
update_sequence product letter number =
    write tx (λ _. sequence_check number) (set_sequence product letter number)

-- Where the range starts: in the current letter if it has room, at the next letter's 0 if not.
unfoldable pub place : TicketSequence → ℕ → Result (Runes × ℕ)
place seq units =
    if ltb (tickets_per_letter - seq.next_ticket_number) units
    then elim (next_letter seq.next_ticket_letter) [
      | ok next ↦ ok (next, 0)
      | err x ↦ err x
      | panicked ↦ panicked
    ]
    else ok (seq.next_ticket_letter, seq.next_ticket_number)

pub record TicketRange : Type 0 where
  pub letter : Runes
  pub start : ℕ
  pub end : ℕ

-- `ReserveTicketRange`. The service calls it with one unit at least, so `- 1` is exact.
unfoldable pub reserve_ticket_range : Uuid → ℕ → Exec TicketRange
reserve_ticket_range product units = do
  raise_if (ltb tickets_per_letter units) units_exceed_letter_capacity
  seq ← first tx (sequence_at product)
  at ← lift (place seq units)
  let start = at.1
  let end = start + units - 1
  update_sequence product at.0 (end + 1)
  pure (record { letter = at.0; start = start; end = end })

-- `FindForUpdate` and `MarkSettled`
unfoldable pub find_holding_for_update : Uuid → Exec Holding
find_holding_for_update i = first tx (holding_at i)

abbrev pub settle_holding : Uuid → Time → Db → Db
settle_holding i t d = record d {
  holdings = update (λ h. h.id == i) (λ h. record h { settled_at = some t }) d.holdings;
}

unfoldable pub mark_settled : Uuid → Time → Exec (Unit {0})
mark_settled i t = write tx (λ _. none) (settle_holding i t)
