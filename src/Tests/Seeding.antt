-- ===== src/Tests/Seeding.antt =====
-- The seeding on the small bank, and the printed ticket ids.
use gsb_salak_backend.Prelude.{true, ◌≡◌, ◌↔◌, ◌≤◌, refl, none, some, [], ◌∷◌, arith}
use gsb_salak_backend.Prelude.Decimal.{baht, round2}
use gsb_salak_backend.Domain.{Product, TicketSequence}
use gsb_salak_backend.Store
use gsb_salak_backend.Store.{World, ok}
use gsb_salak_backend.Salak.Letters.{ticket_start_id, ticket_end_id}
use gsb_salak_backend.Salak.Letters.Tickets.{parse_ticket_id, parse_ticket_id-ticket_id}
use gsb_salak_backend.Salak.Repository.{sequence_at}
use gsb_salak_backend.Salak.Catalogue
use gsb_salak_backend.Salak.Catalogue.{product_by_code, upsert, first_sequence}
use gsb_salak_backend.Salak.Catalogue.Upsert.{upsert-keeps_cursor}
use gsb_salak_backend.Seed.{generate_draw_dates, draw_date_coverage_warnings}
use gsb_salak_backend.Seed.Calendars.{is_listed, is_member, IsRule, generate_draw_dates_iff}
use gsb_salak_backend.Seed.Coverage.{IsCovered, draw_date_coverage_warnings_iff}
use gsb_salak_backend.Tests.{env, world, db, holding, product, today}

parse_ticket_id-ticket_id_example :
    (parse_ticket_id (ticket_start_id holding) ≡ (0x0E01, 0))
    × (parse_ticket_id (ticket_end_id holding) ≡ (0x0E01, 1))
parse_ticket_id-ticket_id_example =
    parse_ticket_id-ticket_id holding 0x0E01 refl (omega arith) (omega arith)

abbrev dearer : Product
dearer = record product { id = 99; min_purchase = baht 60 }

abbrev after_upsert : World
after_upsert = (upsert dearer env world).1

upsert_returns : upsert dearer env world ≡ (ok tt, after_upsert)
unfolding upsert Catalogue.upsert_body Store.read Store.first Store.write Store.now
    Store.transaction Store.execute Store.or_not_found Store.◌>>=◌ round2
upsert_returns = refl

upsert-keeps_cursor_example :
    (real : Product) × (product_by_code "S1" after_upsert.committed ≡ some real)
    × ((s : TicketSequence)
        → sequence_at real.id db ≡ some s
        → sequence_at real.id after_upsert.committed ≡ some s)
    × (sequence_at real.id db ≡ none
        → sequence_at real.id after_upsert.committed ≡ some (first_sequence real.id))
upsert-keeps_cursor_example = upsert-keeps_cursor env world after_upsert dearer upsert_returns

generate_draw_dates_iff_example :
    (is_listed 2026 5 2 (generate_draw_dates 24 (2026 ∷ [])) ≡ true)
    ↔ ((is_member 2026 (2026 ∷ []) ≡ true) × (1 ≤ 5) × (5 ≤ 12) × IsRule 24 5 2)
generate_draw_dates_iff_example = generate_draw_dates_iff 24 2026 5 2 (2026 ∷ [])

draw_date_coverage_warnings_iff_example :
    ((draw_date_coverage_warnings 0 today (product ∷ []) env world).0 ≡ ok [])
    ↔ IsCovered 0 today (product ∷ []) db
draw_date_coverage_warnings_iff_example =
    draw_date_coverage_warnings_iff env world 0 today (product ∷ []) (λ n. refl)
