-- ===== src/Kapook/Service/Rules.antt =====
-- What the steps that the methods of the Kapook service share ensure.
use gsb_salak_backend.Prelude.{ℕ, ◌≡◌, true, none, some, arith}
use gsb_salak_backend.Calendar.{Time}
use gsb_salak_backend.Domain.{Uuid, AccountType, Goal, Transaction, is_type}
use gsb_salak_backend.Store.{Env, World, Db, tx}
use gsb_salak_backend.Kapook.Window.{withdrawal_window}
use gsb_salak_backend.Store.Rules.{
  Ensures, Wrote, Same, Same-then, Wrote-then, Ensures-bind, Ensures-pure, Ensures-map_err,
  Ensures-raise_if, Ensures-first, Ensures-read, Ensures-write, Ensures-now, Ensures-fresh_id,
  Ensures-mono,
}
use gsb_salak_backend.Account.{account_at}
use gsb_salak_backend.Account.Rules.{get_by_id-Ensures}
use gsb_salak_backend.Purchase.{add_entry}
use gsb_salak_backend.Purchase.Rules.{create_entry-Ensures}
use gsb_salak_backend.Kapook.Goals.{
  active_goal, set_goal, updated_goal_check, update_goal, find_active_for_update,
}
use gsb_salak_backend.Kapook.Transactions.{
  create_transaction, add_transaction, transaction_check, withdrawals_in_window,
  count_by_goal_and_types_in_window,
}
use gsb_salak_backend.Kapook.Service.{
  kapook_account, lock_active_goal, LedgerPair, pair_transaction, pair_debit, pair_credit,
  record_kapook_ledger_pair, withdrawal_allowance,
}

-- The three rows of a ledger pair.
abbrev pub pair_rows : LedgerPair → Uuid → Uuid → Uuid → Time → Db → Db
pair_rows p reference i j at d =
    add_entry (pair_credit p reference j)
      (add_entry (pair_debit p reference i) (add_transaction (pair_transaction p reference) at d))

-- The withdrawals that are counted are those in the window of the goal at the time `now`.
abbrev pub Allowance : Goal → Time → Db → ℕ → Type 0
Allowance g now d used =
    let (start, end) = withdrawal_window g.created_at now in
    used ≡ withdrawals_in_window g.id start end d

module _ (e : Env) (w : World) where
  pub withdrawal_allowance-Ensures :
      (g : Goal)
      → Ensures
          (λ a w'. Allowance g (e.clock w.readings) w.working a.0 × Same w w')
          (withdrawal_allowance tx g)
          e
          w
  unfolding withdrawal_allowance count_by_goal_and_types_in_window
  withdrawal_allowance-Ensures g = Ensures-bind (Ensures-now e w) λ t w₁ (q, s).
      Ensures-bind (Ensures-map_err _ _ (Ensures-read e w₁ tx _))
        λ used w₂ (p, s'). Ensures-pure _ (rw q at (rw s.working at p), Same-then s s')

  pub kapook_account-Ensures :
      (user i : Uuid)
      → Ensures
          (λ a w'.
            (account_at i w.committed ≡ some a)
            × (a.user_id ≡ user)
            × (is_type a.type AccountType.kapook ≡ true)
            × Same w w')
          (kapook_account user i)
          e
          w
  unfolding kapook_account
  kapook_account-Ensures user i =
      Ensures-bind (get_by_id-Ensures e w user i) λ a w₁ (found, own, s).
        Ensures-bind (Ensures-raise_if e w₁ _ _)
          λ _ w₂ (typed, s'). Ensures-pure a (found, own, ground arith, Same-then s s')

  pub lock_active_goal-Ensures :
      (k : Uuid)
      → Ensures (λ g w'. (active_goal k w.working ≡ some g) × Same w w') (lock_active_goal k) e w
  unfolding lock_active_goal find_active_for_update
  lock_active_goal-Ensures k = Ensures-map_err _ _ (Ensures-first e w _ _)

  pub update_goal-Ensures :
      (i : Uuid) (f : Goal → Goal)
      → Ensures
          (λ _ w'. (updated_goal_check i f w.working ≡ none) × Wrote w w' (set_goal i f w.working))
          (update_goal i f)
          e
          w
  unfolding update_goal
  update_goal-Ensures i f = Ensures-write e w (updated_goal_check i f) (set_goal i f)

  pub create_transaction-Ensures :
      (t : Transaction)
      → Ensures
          (λ _ w'.
            (at : Time) × (transaction_check t ≡ none)
            × Wrote w w' (add_transaction t at w.working))
          (create_transaction t)
          e
          w
  unfolding create_transaction
  create_transaction-Ensures t = Ensures-bind (Ensures-now e w) λ at w₁ (_, s).
      Ensures-mono (Ensures-write e w₁ (λ _. transaction_check t) (add_transaction t at))
        λ _ w₂ (c, wrote). (at, c, Wrote-then (add_transaction t at) s wrote)

-- Both entries carry the id of the kapook transaction, and their amounts are positive.
pub record_kapook_ledger_pair-Ensures :
    (e : Env) (w : World) (p : LedgerPair)
    → Ensures
        (λ _ w'.
          (reference : Uuid) × (i : Uuid) × (j : Uuid) × (at : Time) × Wrote w w'
            (pair_rows p reference i j at w.working))
        (record_kapook_ledger_pair p)
        e
        w
unfolding record_kapook_ledger_pair
record_kapook_ledger_pair-Ensures e w p = Ensures-bind (Ensures-fresh_id e w) λ reference w₁ (_, s).
    Ensures-bind (Ensures-map_err _ _ (create_transaction-Ensures e w₁ _)) λ _ w₂ (at, _, t).
      Ensures-bind (Ensures-fresh_id e w₂) λ i w₃ (_, s₃).
        Ensures-bind (Ensures-fresh_id e w₃) λ j w₄ (_, s₄).
          Ensures-bind (Ensures-map_err _ _ (create_entry-Ensures e w₄ _)) λ _ w₅ (_, d).
            Ensures-mono (Ensures-map_err _ _ (create_entry-Ensures e w₅ _)) λ _ w₆ (_, c).
              let with_transaction =
                Wrote-then (add_transaction (pair_transaction p reference) at) s t in
              let with_debit =
                Wrote-then (add_entry (pair_debit p reference i))
                  (Same-then (Same-then with_transaction s₃) s₄) d in
              (reference, i, j, at, Wrote-then (add_entry (pair_credit p reference j)) with_debit c)
