-- ===== src/Salak/Catalogue.antt =====
-- internal/salak/repository: the products and the draw dates as the seeding and the start-up use
-- them.
pub mod Upsert
use gsb_salak_backend.Prelude.{
  ℕ, String, Bool, true, false, not, ◌||◌, ◌&&◌, Option, none, some, List, [], ◌∷◌, ltb, leb, ◌==◌,
  find, select, update, sort_by, if◌then◌else◌,
}
use Prim.Native.String.{count}
use package.text.Mathlib.Text.{◌==◌ as is_text}
use gsb_salak_backend.Prelude.Int.{pos, leb_ℤ, ltb_ℤ}
use gsb_salak_backend.Prelude.Decimal.{round2}
use gsb_salak_backend.Apperror.{Error, check_violation, data_too_long, is_record_not_found}
use gsb_salak_backend.Calendar.{Time, instant}
use gsb_salak_backend.Domain.{Uuid, Product, DrawDate, TicketSequence}
use gsb_salak_backend.Store.{
  Db, Exec, Result, ok, err, panicked, ambient, tx, lift, read, first, write, now, attempt,
  transaction, ◌>>=◌, ◌>>◌,
}
use gsb_salak_backend.Salak.Repository.{sequence_at, draw_day_in}

-- `FindByCode`
abbrev pub product_by_code : String → Db → Option Product
product_by_code code d = find (λ p. is_text p.code code) d.products

unfoldable pub find_by_code : String → Exec Product
find_by_code code = first ambient (product_by_code code)

-- The CHECKs of salak.products, of the columns numeric(18,2), and its lengths.
abbrev pub stored_product : Product → Product
stored_product p = record p {
  unit_price = round2 p.unit_price;
  min_purchase = round2 p.min_purchase;
  max_purchase = round2 p.max_purchase;
  step_amount = round2 p.step_amount;
}

abbrev pub product_check : Product → Option Error
product_check p =
    if ltb 20 (count p.code) || ltb 100 (count p.name)
    then some data_too_long
    else if not ((p.term_months == 12) || (p.term_months == 24))
        || leb_ℤ p.unit_price (pos 0)
        || leb_ℤ p.min_purchase (pos 0)
        || leb_ℤ p.max_purchase (pos 0)
        || ltb_ℤ p.max_purchase p.min_purchase
        || leb_ℤ p.maturity_interest_per_unit (pos 0)
    then some check_violation
    else none

-- ON CONFLICT (code) DO UPDATE: the row keeps its id, its code and the time of its creation.
abbrev pub with_values_of : Product → Product → Product
with_values_of p q = record p { id = q.id; code = q.code; created_at = q.created_at }

abbrev pub insert_or_update : Product → Db → Option Product → Db
insert_or_update p d none = record d { products = p ∷ d.products }
insert_or_update p d (some _) = record d {
  products = update (λ q. is_text q.code p.code) (with_values_of p) d.products;
}

abbrev pub upsert_row : Product → Db → Db
upsert_row p d = insert_or_update p d (product_by_code p.code d)

-- ON CONFLICT (product_id) DO NOTHING
abbrev pub first_sequence : Uuid → TicketSequence
first_sequence product = record {
  product_id = product;
  next_ticket_letter = 0x0E01 ∷ [];
  next_ticket_number = 0;
}

abbrev pub insert_if_missing : Uuid → Db → Option TicketSequence → Db
insert_if_missing product d none = record d {
  ticket_sequences = first_sequence product ∷ d.ticket_sequences;
}
insert_if_missing product d (some _) = d

abbrev pub provision : Uuid → Db → Db
provision product d = insert_if_missing product d (sequence_at product d)

-- `Upsert`
unfoldable pub upsert_body : Product → Exec (Unit {0})
upsert_body p = do
  t ← now
  let row = stored_product (record p { created_at = t })
  write tx (λ _. product_check row) (upsert_row row)
  real ← first tx (product_by_code p.code)
  write tx (λ _. none) (provision real.id)

unfoldable pub upsert : Product → Exec (Unit {0})
upsert p = transaction (upsert_body p)

-- `FurthestDrawDate`: no row is a value, and not an error.
abbrev pub furthest_in : Uuid → Db → Option Time
furthest_in product d =
    elim (sort_by (λ r s. leb (instant s.draw_date) (instant r.draw_date))
      (select (λ r. r.product_id == product) d.draw_dates)) [ [] ↦ none | r ∷ _ ↦ some r.draw_date ]

unfoldable pub furthest_draw_date : Uuid → Exec (Option Time)
furthest_draw_date product = read ambient (furthest_in product)

-- `Create` of a draw date: ON CONFLICT (product_id, draw_date) DO NOTHING.
abbrev pub add_draw_date : DrawDate → Db → Db
add_draw_date r d =
    if draw_day_in r.product_id r.draw_date d then d else record d { draw_dates = r ∷ d.draw_dates }

unfoldable pub create_draw_date : DrawDate → Exec (Unit {0})
create_draw_date r = do
  t ← now
  write ambient (λ _. none) (add_draw_date (record r { created_at = t }))
