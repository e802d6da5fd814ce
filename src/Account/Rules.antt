-- ===== src/Account/Rules.antt =====
-- What the account service ensures when it returns.
use gsb_salak_backend.Prelude.{◌≡◌, refl, some, arith}
use gsb_salak_backend.Prelude.Int.{pos, ◌+ℤ◌, ◌-ℤ◌, ◌≤ℤ◌}
use gsb_salak_backend.Prelude.Decimal.{Decimal, round2}
use gsb_salak_backend.Domain.{Uuid, Account}
use gsb_salak_backend.Store.{Env, World}
use gsb_salak_backend.Store.Rules.{
  Ensures, Same, Wrote, Ensures-bind, Ensures-pure, Ensures-map_err, Ensures-raise_if,
  Ensures-first, Ensures-write, Same-then, Wrote-then,
}
use gsb_salak_backend.Account.{
  account_at, set_balance, primary_of, get_by_id, get_by_id_unscoped, get_primary_account, debit,
  credit, lock_for_update, find_by_id, find_for_update, find_primary_by_user_id, update_balance,
}

module _ (e : Env) (w : World) where
  -- A lookup scoped to a user returns the committed row, which is the user's.
  pub get_by_id-Ensures :
      (user i : Uuid)
      → Ensures
          (λ a w'. (account_at i w.committed ≡ some a) × (a.user_id ≡ user) × Same w w')
          (get_by_id user i)
          e
          w
  unfolding get_by_id find_by_id
  get_by_id-Ensures user i =
      Ensures-bind (Ensures-map_err _ _ (Ensures-first e w _ _)) λ a w₁ (found, s).
        Ensures-bind (Ensures-raise_if e w₁ _ _)
          λ _ w₂ (own, s'). Ensures-pure a (found, ground arith, Same-then s s')

  pub get_by_id_unscoped-Ensures :
      (i : Uuid)
      → Ensures (λ a w'. (account_at i w.committed ≡ some a) × Same w w') (get_by_id_unscoped i) e w
  unfolding get_by_id_unscoped find_by_id
  get_by_id_unscoped-Ensures i = Ensures-map_err _ _ (Ensures-first e w _ _)

  pub get_primary_account-Ensures :
      (user : Uuid)
      → Ensures
          (λ a w'. (primary_of user w.committed ≡ some a) × Same w w')
          (get_primary_account user)
          e
          w
  unfolding get_primary_account find_primary_by_user_id
  get_primary_account-Ensures user = Ensures-map_err _ _ (Ensures-first e w _ _)

  pub lock_for_update-Ensures :
      (i : Uuid)
      → Ensures (λ a w'. (account_at i w.working ≡ some a) × Same w w') (lock_for_update i) e w
  unfolding lock_for_update find_for_update
  lock_for_update-Ensures i = Ensures-map_err _ _ (Ensures-first e w _ _)

  -- A debit that returns left a balance of zero or more, and wrote that row alone.
  pub debit-Ensures :
      (i : Uuid) (amount : Decimal)
      → Ensures
          (λ b w'.
            (a : Account) × (account_at i w.working ≡ some a)
            × (b ≡ a.balance -ℤ amount)
            × (pos 0 ≤ℤ b)
            × Wrote w w' (set_balance i (round2 b) w.working))
          (debit i amount)
          e
          w
  unfolding debit find_for_update update_balance
  debit-Ensures i amount =
      Ensures-bind (Ensures-map_err _ _ (Ensures-first e w _ _)) λ a w₁ (found, s).
        Ensures-bind (Ensures-raise_if e w₁ _ _) λ _ w₂ (enough, s').
          Ensures-bind (Ensures-map_err _ _ (Ensures-write e w₂ _ _)) λ _ w₃ (_, wrote).
            Ensures-pure _ (
              a,
              found,
              refl,
              ground arith,
              Wrote-then (set_balance i (round2 (a.balance -ℤ amount))) (Same-then s s') wrote,
            )

  pub credit-Ensures :
      (i : Uuid) (amount : Decimal)
      → Ensures
          (λ b w'.
            (a : Account) × (account_at i w.working ≡ some a)
            × (b ≡ a.balance +ℤ amount)
            × Wrote w w' (set_balance i (round2 b) w.working))
          (credit i amount)
          e
          w
  unfolding credit find_for_update update_balance
  credit-Ensures i amount =
      Ensures-bind (Ensures-map_err _ _ (Ensures-first e w _ _)) λ a w₁ (found, s).
        Ensures-bind (Ensures-map_err _ _ (Ensures-write e w₁ _ _)) λ _ w₂ (_, wrote).
          Ensures-pure _
            (a, found, refl, Wrote-then (set_balance i (round2 (a.balance +ℤ amount))) s wrote)
