-- ===== src/Salak/Service.antt =====
-- internal/salak/service/salak_service.go.
pub mod Rules
pub mod Minting
pub mod Atomic
use gsb_salak_backend.Prelude.{
  ℕ, zero, suc, ◌+◌, ◌/◌, ◌%◌, Bool, true, false, not, List, ◌==◌, if◌then◌else◌, Option, none,
  some,
}
use gsb_salak_backend.Prelude.Int.{pos, pos_part, neg_part, ltb_ℤ, leb_ℤ}
use gsb_salak_backend.Prelude.Decimal.{Decimal}
use gsb_salak_backend.Apperror.{
  Error, text, draw_day, validation, validation_error, not_found_error, internal_error, wrap,
  with_code, is_record_not_found, is_capacity_error,
}
use gsb_salak_backend.Calendar.{Time, add_months, next_day, previous_day}
use gsb_salak_backend.Domain.{Uuid, Product, Holding}
use gsb_salak_backend.Store.{
  Exec, Result, ok, err, panicked, pure, raise, lift, raise_if, map_err, now, fresh_id, ◌>>=◌, ◌>>◌,
}
use gsb_salak_backend.Account
use gsb_salak_backend.Salak.Repository.{
  TicketRange, find_product, list_active, is_draw_day, create_holding, find_holdings,
  reserve_ticket_range,
}
use gsb_salak_backend.Salak.Repository

-- `truncateToDate`
abbrev pub truncate_to_date : Time → Time
truncate_to_date t = record t { nanos = 0 }

unfoldable pub list_products : Exec (List Product)
list_products = map_err (internal_error "failed to list salak products") list_active

unfoldable pub get_product : Uuid → Exec Product
get_product i = do
  p ←
      map_err (Account.lookup_error "salak product not found" "failed to look up salak product")
        (find_product i)
  raise_if (not p.is_active) (validation_error "salak product is not available for purchase")
  pure p

-- `amount.Mod(step).IsZero()`, for a step that is not zero.
abbrev pub is_multiple : Decimal → Decimal → Bool
is_multiple amount step = (pos_part amount + neg_part amount) % (pos_part step + neg_part step) == 0

abbrev is_zero : Decimal → Bool
is_zero d = pos_part d + neg_part d == 0

-- `ValidatePurchase`. `Mod` panics on a step of zero.
unfoldable pub validate_purchase : Product → Decimal → Result (Unit {0})
validate_purchase p amount =
    if leb_ℤ amount (pos 0)
    then err (validation_error "amount must be greater than zero")
    else if ltb_ℤ amount p.min_purchase
    then err (validation_error "amount is below the minimum purchase amount")
    else if ltb_ℤ p.max_purchase amount
    then err (validation_error "amount exceeds the maximum purchase amount")
    else if is_zero p.step_amount
    then panicked
    else if not (is_multiple amount p.step_amount)
    then err (
        with_code (validation_error "amount must be a multiple of the step amount")
          "salak_amount_not_step_multiple")
    else ok tt

abbrev pub draw_day_error : Error
draw_day_error =
    with_code
      (wrap validation
        "salak cannot be purchased on its draw day - try again after the draw day passes" draw_day)
      "salak_draw_day_purchase_blocked"

unfoldable pub ensure_not_draw_day : Product → Exec (Unit {0})
ensure_not_draw_day p = do
  t ← now
  drawn ←
      map_err (internal_error "failed to check draw-day calendar")
        (is_draw_day p.id (truncate_to_date t))
  raise_if drawn draw_day_error

abbrev pub next_available_date_search_limit : ℕ
next_available_date_search_limit = 45

-- The loop of `NextAvailableDate`.
unfoldable pub search_date : ℕ → Product → Time → Exec Time
search_date zero p candidate =
    raise (internal_error "no available purchase date found within search window" (text "nil"))
search_date (suc left) p candidate =
    let later = search_date left p (next_day candidate) in
    do
      drawn ←
          map_err (internal_error "failed to check draw-day calendar") (is_draw_day p.id candidate)
      if drawn then later else pure candidate

unfoldable pub next_available_date : Product → Exec Time
next_available_date p = do
  t ← now
  search_date next_available_date_search_limit p (next_day (truncate_to_date t))

-- `amount.Div(price).IntPart()` for a positive price (a CHECK of the table). A quotient that is
-- not positive counts as 0, which the caller rejects in the same way.
abbrev pub whole_units : Decimal → Decimal → ℕ
whole_units amount price = pos_part amount / pos_part price

abbrev reserve_error : Error → Error
reserve_error x =
    if is_capacity_error x
    then validation_error "salak: units exceeds a single letter's ticket capacity"
    else internal_error "failed to reserve ticket range" x

-- The holding that `MintHolding` creates.
abbrev pub minted_holding : Uuid → Uuid → Uuid → Decimal → ℕ → TicketRange → Time → ℕ → Holding
minted_holding i account product amount units range t term_months = record {
  id = i;
  account_id = account;
  product_id = product;
  units = units;
  ticket_letter = range.letter;
  ticket_start = range.start;
  ticket_end = range.end;
  purchase_amount = amount;
  purchase_date = truncate_to_date t;
  maturity_date = previous_day (add_months (truncate_to_date t) term_months);
  settled_at = none;
  created_at = t;
}

unfoldable pub mint_holding : Uuid → Uuid → Decimal → Exec Holding
mint_holding account product amount = do
  p ←
      map_err (Account.lookup_error "salak product not found" "failed to look up salak product")
        (find_product product)
  let units = whole_units amount p.unit_price
  raise_if (units == 0) (validation_error "amount does not correspond to any whole units")
  range ← map_err reserve_error (reserve_ticket_range product units)
  t ← now
  i ← fresh_id
  let holding = minted_holding i account product amount units range t p.term_months
  map_err (internal_error "failed to create salak holding") (create_holding holding)
  pure holding

unfoldable pub list_holdings_by_account : Uuid → Uuid → Exec (List Holding)
list_holdings_by_account user account = do
  Account.get_by_id user account
  map_err (internal_error "failed to list salak holdings") (find_holdings account)

unfoldable pub find_holding_for_update : Uuid → Exec Holding
find_holding_for_update i =
    map_err (Account.lookup_error "salak holding not found" "failed to look up salak holding")
      (Repository.find_holding_for_update i)

unfoldable pub mark_holding_settled : Uuid → Time → Exec (Unit {0})
mark_holding_settled i t =
    map_err (internal_error "failed to mark salak holding settled") (Repository.mark_settled i t)
