-- ===== src/Account/Opening/Rules.antt =====
-- What the opening of an account has written when it returns, and its number.
use gsb_salak_backend.Prelude.{ℕ, suc, ap, Bool, ◌≡◌, ◌∙◌, refl, none, arith, if◌then◌else◌}
use gsb_salak_backend.Prelude.Decimal.{Decimal}
use gsb_salak_backend.Calendar.{Time}
use gsb_salak_backend.Domain.{Uuid, Account, AccountType, is_type}
use gsb_salak_backend.Store.{Env, World, Db, tx, next_value}
use gsb_salak_backend.Store.Rules.{
  Ensures, Same, Same-then, Wrote-then, Ensures-bind, Ensures-pure, Ensures-map_err, Ensures-now,
  Ensures-fresh_id, Ensures-write,
}
use gsb_salak_backend.Store.Frames.{
  Ensures-Keeps, Unnumbered-write, Unnumbered-fresh_id, Unnumbered-now,
}
use gsb_salak_backend.Store.Atomic.{CommitsNothing, commits_nothing}
use gsb_salak_backend.Account.Opening.{
  account_number, next_account_number, account_check, stored_account, add_account, create_account,
  new_account, create,
}

-- The new row has the account number that is made of `n`, met the constraints, and is all that was added.
abbrev pub Opened : Uuid → AccountType → Decimal → Bool → ℕ → Db → Account → Db → Type 0
Opened user type balance is_primary n d a d' =
    (i : Uuid) × (t : Time) × (a
      ≡ new_account i user (account_number type n) type balance is_primary t)
    × (account_check (stored_account a) d ≡ none)
    × (d' ≡ add_account a d)

-- The sequence of a type after a number was taken.
abbrev pub advanced : AccountType → (AccountType → ℕ) → AccountType → ℕ
advanced type numbers s = if is_type s type then suc (numbers s) else numbers s

next_value-numbers :
    (e : Env) (w : World) (type : AccountType)
    → Ensures
        (λ n w'. (n ≡ w.numbers type) × Same w w' × (w'.numbers ≡ advanced type w.numbers))
        (next_value tx type)
        e
        w
unfolding next_value
next_value-numbers e w type = record { post = ground arith }

pub create-Ensures :
    (e : Env) (w : World) (user : Uuid) (type : AccountType) (balance : Decimal) (is_primary : Bool)
    → Ensures
        (λ a w'.
          Opened user type balance is_primary (w.numbers type) w.working a w'.working
          × (w'.committed ≡ w.committed)
          × (w'.numbers ≡ advanced type w.numbers))
        (create user type balance is_primary)
        e
        w
unfolding create next_account_number create_account
create-Ensures e w user type balance is_primary =
    Ensures-bind
      (Ensures-map_err _ _ (
        Ensures-bind
          {Q = λ number w'.
            (number ≡ account_number type (w.numbers type))
            × Same w w'
            × (w'.numbers ≡ advanced type w.numbers)}
          (next_value-numbers e w type)
          λ n w₁ (taken, s, rest). Ensures-pure _ (ap (account_number type) taken, s, rest)))
      λ number w₁ (numbered, s₁, rest).
        Ensures-bind (Ensures-Keeps Unnumbered-fresh_id (Ensures-fresh_id e w₁))
          λ i w₂ ((_, s₂), k₂). Ensures-map_err _ _ (
            Ensures-bind (Ensures-Keeps Unnumbered-now (Ensures-now e w₂)) λ t w₃ ((_, s₃), k₃).
              let a = new_account i user number type balance is_primary t in
              Ensures-bind
                (Ensures-Keeps (Unnumbered-write _ _)
                  (Ensures-write e w₃ (account_check (stored_account a)) (add_account a)))
                λ _ w₄ ((accepted, wrote), k₄).
                  let kept₃ = Same-then (Same-then s₁ s₂) s₃ in
                  let kept₄ = Wrote-then (add_account a) kept₃ wrote in
                  Ensures-pure a (
                    (i, t, rw numbered refl, rw kept₃.working at accepted, kept₄.working),
                    kept₄.committed,
                    k₄ ∙ k₃ ∙ k₂ ∙ rest,
                  ))

pub create-CommitsNothing :
    (user : Uuid) (type : AccountType) (balance : Decimal) (is_primary : Bool)
    → CommitsNothing (create user type balance is_primary)
unfolding create next_account_number create_account
create-CommitsNothing user type balance is_primary = search commits_nothing depth 14
