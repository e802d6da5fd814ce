-- ===== src/Salak/Repository/Returns.antt =====
-- When the reservation of tickets returns.
use gsb_salak_backend.Prelude.{ℕ, ◌+◌, ◌-◌, ◌<◌, ◌≡◌, inl, inr, refl, some, true, false, ltb, arith}
use gsb_salak_backend.Domain.{Uuid, Runes, TicketSequence}
use gsb_salak_backend.Store.{Env, World, ok, lift, tx}
use gsb_salak_backend.Store.Rules.{Ensures-ok}
use gsb_salak_backend.Store.Returns.{
  IsHealthy, Returns, Returns-bind, Returns-pure, Returns-raise_if, Returns-first, Returns-write,
}
use gsb_salak_backend.Salak.Repository.{
  sequence_at, sequence_check, set_sequence, update_sequence, place, TicketRange,
  reserve_ticket_range, tickets_per_letter,
}
use gsb_salak_backend.Salak.Repository.Rules.{Placed, Reserved, reserve_ticket_range-Reserved}

place-ok :
    (seq : TicketSequence) (units : ℕ) (letter : Runes) (start : ℕ)
    → Placed seq units letter start
    → place seq units ≡ ok (letter, start)
unfolding place
place-ok seq units letter start (inl (l, s, room)) =
    let fits : ltb (tickets_per_letter - seq.next_ticket_number) units ≡ false = ground arith in
    rw fits (rw l (rw s refl))
place-ok seq units letter start (inr (next, s, full)) =
    let over : ltb (tickets_per_letter - seq.next_ticket_number) units ≡ true = ground arith in
    rw over (rw next (rw s refl))

reserve_ticket_range-Returns :
    (e : Env) (w : World) (product : Uuid) (units : ℕ) (seq : TicketSequence) (letter : Runes)
    (start : ℕ)
    → IsHealthy e
    → w.aborted ≡ false
    → 0 < units
    → sequence_at product w.working ≡ some seq
    → Placed seq units letter start
    → start + units < tickets_per_letter
    → Returns (λ _ _. Unit) (reserve_ticket_range product units) e w
unfolding reserve_ticket_range update_sequence lift
reserve_ticket_range-Returns e w product units seq letter start healthy alive some_units found
      placed room =
    Returns-bind (Returns-raise_if e w healthy alive _ _ (ground (arith, room))) λ _ w₁ alive₁ s₁.
      Returns-bind (Returns-first e w₁ healthy alive₁ tx _ seq (rw s₁.working found))
        λ q w₂ alive₂ (p, s₂). rw p (
          Returns-bind {P = λ at w'. at ≡ (letter, start)}
            (record {
              value = (letter, start);
              after = w₂;
              runs = rw (place-ok seq units letter start placed) refl;
              alive = alive₂;
              post = refl;
            })
            λ at w₃ alive₃ same. rw same (
              Returns-bind
                (Returns-write e w₃ healthy alive₃ (λ _. sequence_check (start + units - 1 + 1))
                  (set_sequence product letter (start + units - 1 + 1))
                  (ground (arith, room, some_units)))
                λ _ w₄ alive₄ _. Returns-pure _ alive₄ tt))

-- If no statement fails and the product's sequence places the tickets so that the last of them is not the
-- letter's last number, the reservation returns a range as `Reserved` describes it.
pub reserve_ticket_range-returns :
    (e : Env) (w : World) (product : Uuid) (units : ℕ) (seq : TicketSequence) (letter : Runes)
    (start : ℕ)
    → IsHealthy e
    → w.aborted ≡ false
    → 0 < units
    → sequence_at product w.working ≡ some seq
    → Placed seq units letter start
    → start + units < tickets_per_letter
    → (r : TicketRange) × (w' : World) × (reserve_ticket_range product units e w ≡ (ok r, w'))
      × Reserved product units w.working r w'.working
reserve_ticket_range-returns e w product units seq letter start healthy alive some_units found
      placed room =
    let h =
      reserve_ticket_range-Returns e w product units seq letter start healthy alive some_units found
        placed room in
    (
      h.value,
      h.after,
      h.runs,
      (Ensures-ok (reserve_ticket_range-Reserved e w product units some_units) h.runs).0,
    )
