-- ===== src/Salak/Letters/Cycle.antt =====
-- The cycle of ticket letters, and the order of code points along it.
use gsb_salak_backend.Prelude.{
  ℕ, zero, suc, ◌+◌, ◌-◌, ◌≤◌, ◌<◌, ◌≡◌, refl, inl, inr, List, [], ◌∷◌, some, ◌==◌, Bool-cases,
  Option-cases, arith, length,
}
use gsb_salak_backend.Store.{ok}
use gsb_salak_backend.Salak.Letters.{ticket_letters, index_from, letter_at, next_of, next_letter}

-- Each element is smaller than the next.
abbrev IsIncreasing : List ℕ → Type 0
IsIncreasing [] = Unit
IsIncreasing (x ∷ []) = Unit
IsIncreasing (x ∷ y ∷ ys) = (x < y) × IsIncreasing (y ∷ ys)

index_from_ge : (xs : List ℕ) (i r j : ℕ) → index_from i xs r ≡ some j → i ≤ j
unfolding index_from
index_from_ge [] i r j e = cc
index_from_ge (x ∷ xs) i r j e = ground (arith, index_from_ge xs (i + 1) r j)

-- What stands behind the first occurrence of `r` in an increasing list is larger.
after_index :
    (xs : List ℕ) (i r j s : ℕ)
    → IsIncreasing xs
    → index_from i xs r ≡ some j
    → letter_at xs (suc (j - i)) ≡ s ∷ []
    → r < s
unfolding index_from letter_at
after_index [] i r j s inc e l = cc
after_index (x ∷ []) i r j s inc e l = cc
after_index (x ∷ y ∷ ys) i r j s inc e l = elim (Bool-cases (x == r)) [
  | inl here ↦
      let at_start : i ≡ j = ground arith in
      let none_left : j - i ≡ zero = omega arith in
      let second : letter_at (y ∷ ys) zero ≡ s ∷ [] = rw none_left at l in ground (arith, second)
  | inr later ↦
      let e' : index_from (i + 1) (y ∷ ys) r ≡ some j = rw later at e in
      let p : j - i ≡ suc (j - (i + 1)) = omega (arith, index_from_ge (y ∷ ys) (i + 1) r j e') in
      let l' : letter_at (y ∷ ys) (suc (j - (i + 1))) ≡ s ∷ [] = rw p at l in
      after_index (y ∷ ys) (i + 1) r j s inc.1 e' l'
]

ticket_letters-IsIncreasing : IsIncreasing ticket_letters
unfolding ticket_letters
ticket_letters-IsIncreasing = omega arith

-- The letter that follows another has the larger code point.
pub next_letter_increases : (r s : ℕ) → next_letter (r ∷ []) ≡ ok (s ∷ []) → r < s
unfolding next_letter next_of
next_letter_increases r s e = elim (Option-cases (index_from 0 ticket_letters r)) [
  | inl no_index ↦ ground arith
  | inr (j, f) ↦ after_index ticket_letters 0 r j s ticket_letters-IsIncreasing f (ground arith)
]

skips_ru : next_letter (0x0E23 ∷ []) ≡ ok (0x0E25 ∷ [])
unfolding next_letter next_of ticket_letters index_from letter_at
skips_ru = refl

forty_four : length ticket_letters ≡ 44
unfolding ticket_letters
forty_four = refl
