-- ===== src/Salak/Service/Atomic.antt =====
-- The salak service commits nothing by itself.
use gsb_salak_backend.Prelude.{ℕ, zero, suc}
use gsb_salak_backend.Prelude.Decimal.{Decimal}
use gsb_salak_backend.Calendar.{Time, next_day}
use gsb_salak_backend.Domain.{Uuid, Product}
use gsb_salak_backend.Store.Atomic.{
  CommitsNothing, commits_nothing, CommitsNothing-bind, CommitsNothing-map_err, CommitsNothing-read,
  CommitsNothing-if, CommitsNothing-pure,
}
use gsb_salak_backend.Salak.Repository.{
  find_product, is_draw_day, reserve_ticket_range, update_sequence, create_holding, mark_settled,
}
use gsb_salak_backend.Salak.Repository
use gsb_salak_backend.Salak.Service.{
  get_product, ensure_not_draw_day, search_date, next_available_date, mint_holding,
  find_holding_for_update, mark_holding_settled,
}

pub get_product-CommitsNothing : (i : Uuid) → CommitsNothing (get_product i)
unfolding get_product find_product
get_product-CommitsNothing i = search commits_nothing

pub ensure_not_draw_day-CommitsNothing : (p : Product) → CommitsNothing (ensure_not_draw_day p)
unfolding ensure_not_draw_day is_draw_day
ensure_not_draw_day-CommitsNothing p = search commits_nothing

search_date-CommitsNothing : (n : ℕ) (p : Product) (t : Time) → CommitsNothing (search_date n p t)
unfolding search_date is_draw_day
search_date-CommitsNothing zero p t = search commits_nothing
search_date-CommitsNothing (suc n) p t =
    CommitsNothing-bind _ _ (CommitsNothing-map_err _ _ (CommitsNothing-read _ _)) λ drawn.
      CommitsNothing-if drawn _ _ (search_date-CommitsNothing n p (next_day t))
        (CommitsNothing-pure t)

pub next_available_date-CommitsNothing : (p : Product) → CommitsNothing (next_available_date p)
unfolding next_available_date
next_available_date-CommitsNothing p = search (commits_nothing, search_date-CommitsNothing)

reserve_ticket_range-CommitsNothing : (i : Uuid) (n : ℕ) → CommitsNothing (reserve_ticket_range i n)
unfolding reserve_ticket_range update_sequence
reserve_ticket_range-CommitsNothing i n = search commits_nothing depth 12

pub mint_holding-CommitsNothing :
    (a p : Uuid) (amount : Decimal) → CommitsNothing (mint_holding a p amount)
unfolding mint_holding find_product create_holding
mint_holding-CommitsNothing a p amount =
    search (commits_nothing, reserve_ticket_range-CommitsNothing) depth 16

pub find_holding_for_update-CommitsNothing : (i : Uuid) → CommitsNothing (find_holding_for_update i)
unfolding find_holding_for_update Repository.find_holding_for_update
find_holding_for_update-CommitsNothing i = search commits_nothing

pub mark_holding_settled-CommitsNothing :
    (i : Uuid) (t : Time) → CommitsNothing (mark_holding_settled i t)
unfolding mark_holding_settled mark_settled
mark_holding_settled-CommitsNothing i t = search commits_nothing

pub ruleset salak_commits_nothing = (
  get_product-CommitsNothing, ensure_not_draw_day-CommitsNothing,
  next_available_date-CommitsNothing, mint_holding-CommitsNothing,
  find_holding_for_update-CommitsNothing, mark_holding_settled-CommitsNothing,
)
