-- ===== src/Account/Totals.antt =====
-- The sum of all balances, and how a new balance changes it.
use gsb_salak_backend.Prelude.{
  ◌≡◌, ◌+◌, refl, Bool, Bool-cases, some, List, [], ◌∷◌, inl, inr, find, update, ◌==◌,
}
use gsb_salak_backend.Prelude.Int.{pos, pos_part, neg_part, ◌+ℤ◌, ◌-ℤ◌, int_laws}
use gsb_salak_backend.Prelude.Decimal.{
  Decimal, IsCents, round2, round2-cents, add-IsCents, sub-IsCents,
}
use gsb_salak_backend.Domain.{Uuid, Account}
use gsb_salak_backend.Store.{Db}
use gsb_salak_backend.Account.{account_at, set_balance}

abbrev pub sum_balances : List Account → Decimal
sum_balances [] = pos 0
sum_balances (a ∷ rows) = a.balance +ℤ sum_balances rows

abbrev pub total : Db → Decimal
total d = sum_balances d.accounts

-- Every balance is a whole number of satang.
abbrev pub AllCents : List Account → Type 0
AllCents [] = Unit
AllCents (a ∷ rows) = IsCents a.balance × AllCents rows

abbrev pub HasCents : Db → Type 0
HasCents d = AllCents d.accounts

AllCents-find :
    (p : Account → Bool) (rows : List Account) (a : Account)
    → AllCents rows
    → find p rows ≡ some a
    → IsCents a.balance
AllCents-find p [] a h found = cc
AllCents-find p (x ∷ xs) a (h, hs) found = elim (Bool-cases (p x)) [
  | inl here ↦
      let same : some x ≡ some a = rw here at found in let same' : x ≡ a = cc in rw same' at h
  | inr later ↦ AllCents-find p xs a hs (rw later at found)
]

AllCents-update :
    (p : Account → Bool) (b : Decimal) (rows : List Account)
    → IsCents b
    → AllCents rows
    → AllCents (update p (λ a. record a { balance = b }) rows)
AllCents-update p b [] k h = tt
AllCents-update p b (x ∷ xs) k (h, hs) = elim (Bool-cases (p x)) [
  | inl here ↦ rw here (k, hs)
  | inr later ↦ rw later (h, AllCents-update p b xs k hs)
]

add_left : (x s t a b : Decimal) → s +ℤ a ≡ t +ℤ b → (x +ℤ s) +ℤ a ≡ (x +ℤ t) +ℤ b
add_left x s t a b h =
    let same : pos_part (s +ℤ a) + neg_part (t +ℤ b) ≡ pos_part (t +ℤ b) + neg_part (s +ℤ a) =
      rw h refl in
    omega (int_laws, same)

sum_balances-update :
    (p : Account → Bool) (b : Decimal) (rows : List Account) (a : Account)
    → find p rows ≡ some a
    → sum_balances (update p (λ x. record x { balance = b }) rows) +ℤ a.balance
      ≡ sum_balances rows +ℤ b
sum_balances-update p b [] a found = cc
sum_balances-update p b (x ∷ xs) a found = elim (Bool-cases (p x)) [
  | inl here ↦
      let same : some x ≡ some a = rw here at found in
      let same' : x ≡ a = cc in rw here (rw same' (omega int_laws))
  | inr later ↦
      let ih = sum_balances-update p b xs a (rw later at found) in
      rw later (add_left x.balance _ _ _ _ ih)
]

debit_algebra : (s t a b : Decimal) → s +ℤ a ≡ t +ℤ (a -ℤ b) → s +ℤ b ≡ t
debit_algebra s t a b h =
    let same : pos_part (s +ℤ a) + neg_part (t +ℤ (a -ℤ b))
        ≡ pos_part (t +ℤ (a -ℤ b)) + neg_part (s +ℤ a) =
      rw h refl in
    omega (int_laws, same)

credit_algebra : (s t a b : Decimal) → s +ℤ a ≡ t +ℤ (a +ℤ b) → s ≡ t +ℤ b
credit_algebra s t a b h =
    let same : pos_part (s +ℤ a) + neg_part (t +ℤ (a +ℤ b))
        ≡ pos_part (t +ℤ (a +ℤ b)) + neg_part (s +ℤ a) =
      rw h refl in
    omega (int_laws, same)

-- Amounts in whole satang move as they are: a debit and a credit of the total.
pub total-debit :
    (i : Uuid) (amount : Decimal) (d : Db) (a : Account)
    → account_at i d ≡ some a
    → HasCents d
    → IsCents amount
    → let d' = set_balance i (round2 (a.balance -ℤ amount)) d in
      (total d' +ℤ amount ≡ total d) × HasCents d'
total-debit i amount d a found cents k =
    let whole = sub-IsCents a.balance amount (AllCents-find _ d.accounts a cents found) k in
    rw (round2-cents (a.balance -ℤ amount) whole) (
      debit_algebra _ _ a.balance amount
          (sum_balances-update (λ x. x.id == i) (a.balance -ℤ amount) d.accounts a found),
      AllCents-update _ (a.balance -ℤ amount) d.accounts whole cents,
    )

pub total-credit :
    (i : Uuid) (amount : Decimal) (d : Db) (a : Account)
    → account_at i d ≡ some a
    → HasCents d
    → IsCents amount
    → let d' = set_balance i (round2 (a.balance +ℤ amount)) d in
      (total d' ≡ total d +ℤ amount) × HasCents d'
total-credit i amount d a found cents k =
    let whole = add-IsCents a.balance amount (AllCents-find _ d.accounts a cents found) k in
    rw (round2-cents (a.balance +ℤ amount) whole) (
      credit_algebra _ _ a.balance amount
          (sum_balances-update (λ x. x.id == i) (a.balance +ℤ amount) d.accounts a found),
      AllCents-update _ (a.balance +ℤ amount) d.accounts whole cents,
    )
