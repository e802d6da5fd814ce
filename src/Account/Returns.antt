-- ===== src/Account/Returns.antt =====
-- When the account service returns.
use gsb_salak_backend.Prelude.{
  ◌≡◌, ◌≢◌, refl, false, Option, some, none, Bool-cases, inl, inr, List, [], ◌∷◌, find, update,
  ◌==◌, arith, if◌then◌else◌,
}
use gsb_salak_backend.Prelude.Int.{pos, ◌+ℤ◌, ◌-ℤ◌, ◌≤ℤ◌, ltb_ℤ}
use gsb_salak_backend.Prelude.Decimal.{Decimal, round2, round2_nonneg}
use gsb_salak_backend.Apperror.{check_violation}
use gsb_salak_backend.Domain.{Uuid, Account}
use gsb_salak_backend.Store.{Env, World, Db}
use gsb_salak_backend.Store.Rules.{Wrote, Same-then, Wrote-then}
use gsb_salak_backend.Store.Returns.{
  IsHealthy, Returns, Returns-bind, Returns-pure, Returns-map_err, Returns-raise_if, Returns-first,
  Returns-write,
}
use gsb_salak_backend.Account.{
  account_at, set_balance, balance_check, update_balance, find_by_id, find_for_update, get_by_id,
  lock_for_update, debit, credit, primary_of, get_primary_account, find_primary_by_user_id,
}

balance_check-none : (i : Uuid) (b : Decimal) (d : Db) → pos 0 ≤ℤ b → balance_check i b d ≡ none
balance_check-none i b d h = go (account_at i d)
  where
    go :
        (o : Option Account)
        → elim o [ none ↦ none | some a ↦ if ltb_ℤ b (pos 0) then some check_violation else none ]
          ≡ none
    go none = refl
    go (some a) = ground arith

find-update_other :
    (i j : Uuid) (b : Decimal) (rows : List Account)
    → i ≢ j
    → find (λ a. a.id == i) (update (λ a. a.id == j) (λ a. record a { balance = b }) rows)
      ≡ find (λ a. a.id == i) rows
find-update_other i j b [] h = refl
find-update_other i j b (x ∷ xs) h = elim (Bool-cases (x.id == j)) [
  | inl there ↦ let other : (x.id == i) ≡ false = ground (arith, h) in rw there (rw other refl)
  | inr later ↦ rw later (rw (find-update_other i j b xs h) refl)
]

-- A new balance of another account does not matter.
pub account_at-set_balance :
    (i j : Uuid) (b : Decimal) (d : Db) → i ≢ j → account_at i (set_balance j b d) ≡ account_at i d
account_at-set_balance i j b d h = find-update_other i j b d.accounts h

module _ (e : Env) (w : World) (healthy : IsHealthy e) (alive : w.aborted ≡ false) where
  pub get_by_id-Returns :
      (user i : Uuid) (a : Account)
      → account_at i w.committed ≡ some a
      → a.user_id ≡ user
      → Returns (λ b w'. (b ≡ a) × Wrote w w' w.working) (get_by_id user i) e w
  unfolding get_by_id find_by_id
  get_by_id-Returns user i a found own =
      Returns-bind (Returns-map_err _ _ (Returns-first e w healthy alive _ _ a found))
        λ b w₁ alive₁ (q, s).
          Returns-bind (Returns-raise_if e w₁ healthy alive₁ _ _ (rw q (ground (arith, own))))
            λ _ w₂ alive₂ s'. Returns-pure b alive₂ (q, Same-then s s')

  pub lock_for_update-Returns :
      (i : Uuid) (a : Account)
      → account_at i w.working ≡ some a
      → Returns (λ b w'. (b ≡ a) × Wrote w w' w.working) (lock_for_update i) e w
  unfolding lock_for_update find_for_update
  lock_for_update-Returns i a found =
      Returns-map_err _ _ (Returns-first e w healthy alive _ _ a found)

  pub debit-Returns :
      (i : Uuid) (amount : Decimal) (a : Account)
      → account_at i w.working ≡ some a
      → pos 0 ≤ℤ a.balance -ℤ amount
      → Returns
          (λ b w'.
            (b ≡ a.balance -ℤ amount)
            × Wrote w w' (set_balance i (round2 (a.balance -ℤ amount)) w.working))
          (debit i amount)
          e
          w
  unfolding debit find_for_update update_balance
  debit-Returns i amount a found enough =
      Returns-bind (Returns-map_err _ _ (Returns-first e w healthy alive _ _ a found))
        λ b w₁ alive₁ (q, s). rw q (
          Returns-bind (Returns-raise_if e w₁ healthy alive₁ _ _ (ground arith)) λ _ w₂ alive₂ s'.
            Returns-bind
              (Returns-map_err _ _ (
                Returns-write e w₂ healthy alive₂ _ (set_balance i (round2 (a.balance -ℤ amount)))
                  (balance_check-none i _ w₂.working (round2_nonneg _ enough))))
              λ _ w₃ alive₃ wrote. Returns-pure _ alive₃ (
                refl,
                Wrote-then (set_balance i (round2 (a.balance -ℤ amount))) (Same-then s s') wrote,
              ))

  pub credit-Returns :
      (i : Uuid) (amount : Decimal) (a : Account)
      → account_at i w.working ≡ some a
      → pos 0 ≤ℤ a.balance +ℤ amount
      → Returns
          (λ b w'.
            (b ≡ a.balance +ℤ amount)
            × Wrote w w' (set_balance i (round2 (a.balance +ℤ amount)) w.working))
          (credit i amount)
          e
          w
  unfolding credit find_for_update update_balance
  credit-Returns i amount a found enough =
      Returns-bind (Returns-map_err _ _ (Returns-first e w healthy alive _ _ a found))
        λ b w₁ alive₁ (q, s). rw q (
          Returns-bind
            (Returns-map_err _ _ (
              Returns-write e w₁ healthy alive₁ _ (set_balance i (round2 (a.balance +ℤ amount)))
                (balance_check-none i _ w₁.working (round2_nonneg _ enough))))
            λ _ w₂ alive₂ wrote.
              Returns-pure _ alive₂
                (refl, Wrote-then (set_balance i (round2 (a.balance +ℤ amount))) s wrote))

  pub get_primary_account-Returns :
      (user : Uuid) (a : Account)
      → primary_of user w.committed ≡ some a
      → Returns (λ b w'. (b ≡ a) × Wrote w w' w.working) (get_primary_account user) e w
  unfolding get_primary_account find_primary_by_user_id
  get_primary_account-Returns user a found =
      Returns-map_err _ _ (Returns-first e w healthy alive _ _ a found)
