-- ===== src/Salak/Catalogue/Upsert.antt =====
-- What `Upsert` of a product has written when it returns.
use gsb_salak_backend.Prelude.{◌≡◌, ◌∙◌, refl, ap, Option, none, some, find, ◌==◌, arith}
use package.text.Mathlib.Text.{◌==◌ as is_text}
use gsb_salak_backend.Calendar.{Time}
use gsb_salak_backend.Domain.{Uuid, Product, TicketSequence}
use gsb_salak_backend.Store.{Env, World, Db, ok, tx}
use gsb_salak_backend.Store.Rules.{
  Ensures, Same-then, Wrote-then, Ensures-bind, Ensures-mono, Ensures-now, Ensures-first,
  Ensures-write, Ensures-transaction, Ensures-ok,
}
use gsb_salak_backend.Salak.Repository.{sequence_at}
use gsb_salak_backend.Salak.Catalogue.{
  insert_or_update, insert_if_missing, product_by_code, product_check, stored_product, upsert_row,
  provision, first_sequence, upsert_body, upsert,
}

-- The row of the code, and the cursor of its product: the one that it had, or the first ticket of the first letter.
pub record Upserted (p : Product) (d d' : Db) : Type 0 where
  pub at : Time
  pub real : Product
  pub accepted : product_check (stored_product (record p { created_at = at })) ≡ none
  pub row :
      product_by_code p.code (upsert_row (stored_product (record p { created_at = at })) d)
      ≡ some real
  pub tables : d' ≡ provision real.id (upsert_row (stored_product (record p { created_at = at })) d)

upsert_body-Ensures :
    (e : Env) (w : World) (p : Product)
    → Ensures (λ _ w'. Upserted p w.working w'.working) (upsert_body p) e w
unfolding upsert_body
upsert_body-Ensures e w p = Ensures-bind (Ensures-now e w) λ t w₁ (_, s₁).
    let row = stored_product (record p { created_at = t }) in
    Ensures-bind (Ensures-write e w₁ (λ _. product_check row) (upsert_row row))
      λ _ w₂ (accepted, s₂).
        Ensures-bind (Ensures-first e w₂ tx (product_by_code p.code)) λ real w₃ (found, s₃).
          Ensures-mono (Ensures-write e w₃ (λ _. none) (provision real.id)) λ _ w₄ (_, s₄).
            let kept₂ = Wrote-then (upsert_row row) s₁ s₂ in
            let kept₄ = Wrote-then (provision real.id) (Same-then kept₂ s₃) s₄ in
            record {
              at = t;
              real = real;
              accepted = accepted;
              row = rw kept₂.working at found;
              tables = kept₄.working;
            }

upsert-Upserted :
    (e : Env) (w w' : World) (p : Product)
    → upsert p e w ≡ (ok tt, w')
    → Upserted p w.committed w'.committed
unfolding upsert
upsert-Upserted e w w' p returned =
    Ensures-ok {Q = λ _ w₁. Upserted p w.committed w₁.committed}
      (Ensures-transaction _
        (λ w₀ _ begun. Ensures-mono (upsert_body-Ensures e w₀ p) λ _ w₁ h. rw begun at h)
        λ _ w₁ w₂ h committed. rw committed h)
      returned

insert_or_update-sequences :
    (p : Product) (d : Db) (o : Option Product)
    → (insert_or_update p d o).ticket_sequences ≡ d.ticket_sequences
insert_or_update-sequences p d none = refl
insert_or_update-sequences p d (some q) = refl

insert_if_missing-products :
    (i : Uuid) (d : Db) (o : Option TicketSequence)
    → (insert_if_missing i d o).products ≡ d.products
insert_if_missing-products i d none = refl
insert_if_missing-products i d (some q) = refl

insert_if_missing-found :
    (i : Uuid) (d : Db) (o : Option TicketSequence) (s : TicketSequence)
    → o ≡ some s
    → sequence_at i d ≡ some s
    → sequence_at i (insert_if_missing i d o) ≡ some s
insert_if_missing-found i d none s h found = cc
insert_if_missing-found i d (some q) s h found = found

insert_if_missing-first :
    (i : Uuid) (d : Db) (o : Option TicketSequence)
    → o ≡ none
    → sequence_at i (insert_if_missing i d o) ≡ some (first_sequence i)
insert_if_missing-first i d none h = ground arith
insert_if_missing-first i d (some q) h = cc

-- If an upsert of a product returns, there is a product with its code, and its ticket cursor is the one that it had
-- before, wherever that had moved to, or the first number of the first letter if it had none.
pub upsert-keeps_cursor :
    (e : Env) (w w' : World) (p : Product)
    → upsert p e w ≡ (ok tt, w')
    → (real : Product) × (product_by_code p.code w'.committed ≡ some real)
      × ((s : TicketSequence)
          → sequence_at real.id w.committed ≡ some s
          → sequence_at real.id w'.committed ≡ some s)
      × (sequence_at real.id w.committed ≡ none
          → sequence_at real.id w'.committed ≡ some (first_sequence real.id))
upsert-keeps_cursor e w w' p returned =
    let h = upsert-Upserted e w w' p returned in
    let row = stored_product (record p { created_at = h.at }) in
    let added = upsert_row row w.committed in
    let same : sequence_at h.real.id added ≡ sequence_at h.real.id w.committed =
      ap (find (λ s. s.product_id == h.real.id)) (insert_or_update-sequences row w.committed _) in
    (
      h.real,
      rw h.tables (
          ap (find (λ q. is_text q.code p.code)) (insert_if_missing-products h.real.id added _)
          ∙ h.row),
      λ s found.
          rw h.tables (insert_if_missing-found h.real.id added _ s (same ∙ found) (same ∙ found)),
      λ missing. rw h.tables (insert_if_missing-first h.real.id added _ (same ∙ missing)),
    )
