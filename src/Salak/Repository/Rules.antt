-- ===== src/Salak/Repository/Rules.antt =====
-- What the reservation of tickets ensures.
use gsb_salak_backend.Prelude.{
  ℕ, ◌+◌, ◌-◌, ◌≤◌, ◌<◌, ◌≡◌, ◌≢◌, ◌⊎◌, ◌==◌, sym, ap, ◌∙◌, find-update, some-injective, inl, inr,
  refl, some, Bool-cases, ltb, arith,
}
use gsb_salak_backend.Domain.{Uuid, Runes, TicketSequence}
use gsb_salak_backend.Store.{Env, World, Db, Result, ok, err, panicked, lift, tx}
use gsb_salak_backend.Store.Rules.{
  Ensures, Same, Same-refl, Same-then, Wrote-then, Ensures-bind, Ensures-pure, Ensures-raise_if,
  Ensures-first, Ensures-write, Ensures-ok,
}
use gsb_salak_backend.Salak.Letters.{next_letter}
use gsb_salak_backend.Salak.Repository.{
  sequence_at, sequence_check, set_sequence, update_sequence, place, TicketRange,
  reserve_ticket_range, tickets_per_letter,
}

-- The range starts at the cursor if the current letter has room for it, and else at the first number of
-- the next letter.
abbrev pub Placed : TicketSequence → ℕ → Runes → ℕ → Type 0
Placed seq units letter start =
    ((letter ≡ seq.next_ticket_letter)
      × (start ≡ seq.next_ticket_number)
      × (units ≤ tickets_per_letter - seq.next_ticket_number))
    ⊎ ((next_letter seq.next_ticket_letter ≡ ok letter)
        × (start ≡ 0)
        × (tickets_per_letter - seq.next_ticket_number < units))

pub lift-Ensures :
    {A : Type 0} (e : Env) (w : World) (r : Result A)
    → Ensures (λ a w'. (r ≡ ok a) × Same w w') (lift r) e w
unfolding lift
lift-Ensures e w (ok a) = record { post = (refl, Same-refl w) }
lift-Ensures e w (err x) = record { post = tt }
lift-Ensures e w panicked = record { post = tt }

place-Ensures :
    (e : Env) (w : World) (seq : TicketSequence) (units : ℕ)
    → Ensures
        (λ (at : Runes × ℕ) w'. Placed seq units at.0 at.1 × Same w w')
        (lift (place seq units))
        e
        w
unfolding lift place
place-Ensures e w seq units =
    elim (Bool-cases (ltb (tickets_per_letter - seq.next_ticket_number) units)) [
      | inl full ↦ rw full (go (next_letter seq.next_ticket_letter) refl (ground arith))
      | inr room ↦ rw room (record { post = (inl (refl, refl, ground arith), Same-refl w) })
    ]
  where
    go :
        (r : Result Runes)
        → next_letter seq.next_ticket_letter ≡ r
        → tickets_per_letter - seq.next_ticket_number < units
        → Ensures
            (λ (at : Runes × ℕ) w'. Placed seq units at.0 at.1 × Same w w')
            (lift (elim r [ ok next ↦ ok (next, 0) | err x ↦ err x | panicked ↦ panicked ]))
            e
            w
    go (ok next) h full = record { post = (inr (h, refl, full), Same-refl w) }
    go (err x) h full = record { post = tt }
    go panicked h full = record { post = tt }

-- A range that was reserved for `units` tickets.
pub record Reserved (product : Uuid) (units : ℕ) (d : Db) (r : TicketRange) (d' : Db) : Type 0 where
  pub sequence : TicketSequence
  pub found : sequence_at product d ≡ some sequence
  pub placed : Placed sequence units r.letter r.start
  pub in_letter : r.end < tickets_per_letter - 1
  pub size : r.end + 1 ≡ r.start + units
  pub tables : d' ≡ set_sequence product r.letter (r.end + 1) d

-- If a reservation of one ticket or more returns, the range has that many numbers, starts at the cursor
-- or at the next letter's first number, and the cursor is behind it: on a number of the
-- letter, so the letter's last number is never handed out.
pub reserve_ticket_range-Reserved :
    (e : Env) (w : World) (product : Uuid) (units : ℕ)
    → 0 < units
    → Ensures
        (λ r w'. Reserved product units w.working r w'.working × (w'.committed ≡ w.committed))
        (reserve_ticket_range product units)
        e
        w
unfolding reserve_ticket_range update_sequence
reserve_ticket_range-Reserved e w product units some_units =
    Ensures-bind (Ensures-raise_if e w _ _) λ _ w₁ (fits, s₁).
      Ensures-bind (Ensures-first e w₁ tx (sequence_at product)) λ seq w₂ (found, s₂).
        Ensures-bind (place-Ensures e w₂ seq units) λ at w₃ (placed, s₃).
          Ensures-bind
            (Ensures-write e w₃ (λ _. sequence_check (at.1 + units - 1 + 1))
              (set_sequence product at.0 (at.1 + units - 1 + 1)))
            λ _ w₄ (within, s₄).
              let kept = Same-then (Same-then s₁ s₂) s₃ in
              let kept₄ = Wrote-then (set_sequence product at.0 (at.1 + units - 1 + 1)) kept s₄ in
              Ensures-pure _ (
                record {
                  sequence = seq;
                  found = rw s₁.working at found;
                  placed = placed;
                  in_letter = ground arith;
                  size = omega arith;
                  tables = kept₄.working;
                },
                kept₄.committed,
              )

Placed-exact :
    (seq : TicketSequence) (units : ℕ) (letter : Runes) (start end : ℕ)
    → Placed seq units letter start
    → seq.next_ticket_number + units ≡ tickets_per_letter
    → end + 1 ≡ start + units
    → ¬ (end < tickets_per_letter - 1)
Placed-exact seq units letter start end (inl (_, p, _)) fill size bound = omega arith
Placed-exact seq units letter start end (inr (_, _, full)) fill size bound = omega arith

-- If the current letter's numbers from the cursor on are exactly as many as the tickets, the reservation
-- does not return: it would set the cursor to a number that the table's CHECK refuses.
pub reserve_ticket_range-exact_fill :
    (e : Env) (w w' : World) (product : Uuid) (units : ℕ) (seq : TicketSequence) (r : TicketRange)
    → 0 < units
    → sequence_at product w.working ≡ some seq
    → seq.next_ticket_number + units ≡ tickets_per_letter
    → reserve_ticket_range product units e w ≢ (ok r, w')
reserve_ticket_range-exact_fill e w w' product units seq r some_units found fill returned =
    let (h, _) = Ensures-ok (reserve_ticket_range-Reserved e w product units some_units) returned in
    let same : seq ≡ h.sequence = some-injective (sym found ∙ h.found) in
    let fill' : h.sequence.next_ticket_number + units ≡ tickets_per_letter =
      rw (ap (λ s. s.next_ticket_number) same) at fill in
    Placed-exact h.sequence units r.letter r.start r.end h.placed fill' h.size h.in_letter

-- The cursor after a reservation.
sequence_at-set_sequence :
    (product : Uuid) (letter : Runes) (number : ℕ) (d : Db) (seq : TicketSequence)
    → sequence_at product d ≡ some seq
    → sequence_at product (set_sequence product letter number d)
      ≡ some (record seq { next_ticket_letter = letter; next_ticket_number = number })
sequence_at-set_sequence product letter number d seq found =
    find-update (λ s. s.product_id == product)
      (λ s. record s { next_ticket_letter = letter; next_ticket_number = number }) (λ s h. h)
      d.ticket_sequences seq found

Placed-behind :
    (seq : TicketSequence) (n : ℕ) (r : TicketRange) (letter : Runes) (start : ℕ)
    → seq.next_ticket_letter ≡ r.letter
    → seq.next_ticket_number ≡ r.end + 1
    → Placed seq n letter start
    → ((letter ≡ r.letter) × (start ≡ r.end + 1))
      ⊎ ((next_letter r.letter ≡ ok letter) × (start ≡ 0))
Placed-behind seq n r letter start p q (inl (l, s, _)) = inl (l ∙ p, s ∙ q)
Placed-behind seq n r letter start p q (inr (l, s, _)) = inr (rw p at l, s)

-- If two reservations of one ticket or more for a product return, and the product's cursor was left alone between
-- them, the second range starts right behind the first, or at the first number of the letter that
-- follows it.
pub reserve_ticket_range-adjacent :
    (product : Uuid) (m n : ℕ) (e e' : Env) (w w₁ v v₁ : World) (r s : TicketRange)
    → 0 < m
    → 0 < n
    → reserve_ticket_range product m e w ≡ (ok r, w₁)
    → sequence_at product v.working ≡ sequence_at product w₁.working
    → reserve_ticket_range product n e' v ≡ (ok s, v₁)
    → ((s.letter ≡ r.letter) × (s.start ≡ r.end + 1))
      ⊎ ((next_letter r.letter ≡ ok s.letter) × (s.start ≡ 0))
reserve_ticket_range-adjacent product m n e e' w w₁ v v₁ r s some_m some_n first between second =
    let (h, _) = Ensures-ok (reserve_ticket_range-Reserved e w product m some_m) first in
    let (k, _) = Ensures-ok (reserve_ticket_range-Reserved e' v product n some_n) second in
    let cursor =
      sequence_at-set_sequence product r.letter (r.end + 1) w.working h.sequence h.found in
    let same : k.sequence
        ≡ record h.sequence { next_ticket_letter = r.letter; next_ticket_number = r.end + 1 } =
      some-injective (sym k.found ∙ between ∙ ap (sequence_at product) h.tables ∙ cursor) in
    Placed-behind k.sequence n r s.letter s.start (ap (λ q. q.next_ticket_letter) same)
      (ap (λ q. q.next_ticket_number) same) k.placed
