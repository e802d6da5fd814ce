-- ===== src/Kapook/Service/Returns.antt =====
-- When the steps that the methods of the Kapook service share return.
use gsb_salak_backend.Prelude.{◌≡◌, refl, true, false, some, none, find-update, ◌==◌, arith}
use gsb_salak_backend.Prelude.Int.{pos, ◌≤ℤ◌, ◌<ℤ◌}
use gsb_salak_backend.Prelude.Decimal.{round2}
use gsb_salak_backend.Domain.{Uuid, Account, AccountType, Goal, Transaction, LedgerEntry, is_type}
use gsb_salak_backend.Store.{Env, World, Db, tx}
use gsb_salak_backend.Store.Rules.{Wrote, Same-then}
use gsb_salak_backend.Store.Returns.{
  IsHealthy, Returns, Returns-bind, Returns-pure, Returns-map_err, Returns-raise_if, Returns-first,
  Returns-read, Returns-write, Returns-now, Returns-fresh_id,
}
use gsb_salak_backend.Account.{account_at}
use gsb_salak_backend.Account.Returns.{get_by_id-Returns}
use gsb_salak_backend.Purchase.{create_entry, add_entry}
use gsb_salak_backend.Kapook.Goals.{
  active_goal, goal_at, set_goal, goal_check, updated_goal_check, update_goal,
  find_active_for_update,
}
use gsb_salak_backend.Kapook.Transactions.{
  create_transaction, add_transaction, transaction_check, count_by_goal_and_types_in_window,
}
use gsb_salak_backend.Kapook.Service.{
  kapook_account, lock_active_goal, LedgerPair, pair_transaction, record_kapook_ledger_pair,
  withdrawal_allowance,
}

-- The row of a goal after an update that keeps its id.
pub goal_at-set_goal :
    (i : Uuid) (f : Goal → Goal) (d : Db) (g : Goal)
    → ((h : Goal) → (f h).id ≡ h.id)
    → goal_at i d ≡ some g
    → goal_at i (set_goal i f d) ≡ some (f g)
goal_at-set_goal i f d g keeps found =
    find-update (λ h. h.id == i) f (λ h p. rw (keeps h) p) d.goals g found

-- A goal whose amounts are in order meets the CHECKs.
pub goal_check-none :
    (g : Goal)
    → pos 0 <ℤ g.goal_amount
    → pos 0 ≤ℤ g.salak_amount
    → g.salak_amount ≤ℤ g.saving_amount
    → g.saving_amount ≤ℤ g.goal_amount
    → goal_check g ≡ none
goal_check-none g positive salak_pos salak_le saving_le = ground arith

module _ (e : Env) (w : World) (healthy : IsHealthy e) (alive : w.aborted ≡ false) where
  pub kapook_account-Returns :
      (user i : Uuid) (a : Account)
      → account_at i w.committed ≡ some a
      → a.user_id ≡ user
      → is_type a.type AccountType.kapook ≡ true
      → Returns (λ b w'. (b ≡ a) × Wrote w w' w.working) (kapook_account user i) e w
  unfolding kapook_account
  kapook_account-Returns user i a found own typed =
      Returns-bind (get_by_id-Returns e w healthy alive user i a found own) λ b w₁ alive₁ (q, s).
        Returns-bind (Returns-raise_if e w₁ healthy alive₁ _ _ (rw q (rw typed refl)))
          λ _ w₂ alive₂ s'. Returns-pure b alive₂ (q, Same-then s s')

  pub lock_active_goal-Returns :
      (k : Uuid) (g : Goal)
      → active_goal k w.working ≡ some g
      → Returns (λ h w'. (h ≡ g) × Wrote w w' w.working) (lock_active_goal k) e w
  unfolding lock_active_goal find_active_for_update
  lock_active_goal-Returns k g found =
      Returns-map_err _ _ (Returns-first e w healthy alive _ _ g found)

  pub update_goal-Returns :
      (i : Uuid) (f : Goal → Goal) (g : Goal)
      → goal_at i w.working ≡ some g
      → goal_check (f g) ≡ none
      → Returns (λ _ w'. Wrote w w' (set_goal i f w.working)) (update_goal i f) e w
  unfolding update_goal
  update_goal-Returns i f g found valid =
      Returns-write e w healthy alive (updated_goal_check i f) (set_goal i f)
        (rw (found, updated_goal_check) valid)

  create_entry-Returns :
      (x : LedgerEntry)
      → pos 0 <ℤ round2 x.amount
      → Returns (λ _ w'. Wrote w w' (add_entry x w.working)) (create_entry x) e w
  unfolding create_entry
  create_entry-Returns x positive = Returns-write e w healthy alive _ (add_entry x) (ground arith)

  create_transaction-Returns :
      (t : Transaction)
      → pos 0 <ℤ round2 t.amount
      → Returns (λ _ _. Unit) (create_transaction t) e w
  unfolding create_transaction
  create_transaction-Returns t positive = Returns-bind (Returns-now e w alive) λ at w₁ alive₁ _.
      let r =
        Returns-write e w₁ healthy alive₁ (λ _. transaction_check t) (add_transaction t at)
          (ground arith) in
      record { value = r.value; after = r.after; runs = r.runs; alive = r.alive; post = tt }

-- A pair of entries of positive amounts is recorded.
pub record_kapook_ledger_pair-Returns :
    (e : Env) (w : World) (p : LedgerPair)
    → IsHealthy e
    → w.aborted ≡ false
    → pos 0 <ℤ round2 p.amount
    → pos 0 <ℤ round2 p.debit_amount
    → pos 0 <ℤ round2 p.credit_amount
    → Returns (λ _ _. Unit) (record_kapook_ledger_pair p) e w
unfolding record_kapook_ledger_pair
record_kapook_ledger_pair-Returns e w p healthy alive h k l =
    Returns-bind (Returns-fresh_id e w alive) λ reference w₁ alive₁ _.
      Returns-bind
        (Returns-map_err _ _
          (create_transaction-Returns e w₁ healthy alive₁ (pair_transaction p reference) h))
        λ _ w₂ alive₂ _. Returns-bind (Returns-fresh_id e w₂ alive₂) λ i w₃ alive₃ _.
          Returns-bind (Returns-fresh_id e w₃ alive₃) λ j w₄ alive₄ _.
            Returns-bind (Returns-map_err _ _ (create_entry-Returns e w₄ healthy alive₄ _ k))
              λ _ w₅ alive₅ _.
                let r = Returns-map_err _ _ (create_entry-Returns e w₅ healthy alive₅ _ l) in
                record {
                  value = r.value;
                  after = r.after;
                  runs = r.runs;
                  alive = r.alive;
                  post = tt;
                }

-- The allowance is counted; what it is, `withdrawal_allowance-Ensures` says.
pub withdrawal_allowance-Returns :
    (e : Env) (w : World) (g : Goal)
    → IsHealthy e
    → w.aborted ≡ false
    → Returns (λ _ w'. Wrote w w' w.working) (withdrawal_allowance tx g) e w
unfolding withdrawal_allowance count_by_goal_and_types_in_window
withdrawal_allowance-Returns e w g healthy alive =
    Returns-bind (Returns-now e w alive) λ t w₁ alive₁ (_, s).
      Returns-bind (Returns-map_err _ _ (Returns-read e w₁ healthy alive₁ tx _))
        λ used w₂ alive₂ (_, s'). Returns-pure _ alive₂ (Same-then s s')
