-- ===== src/Users/Registration.antt =====
-- What a registration has written when it returns, and that it leaves nothing when it fails.
use gsb_salak_backend.Prelude.{
  ℕ, ap, String, true, false, ◌||◌, ◌≡◌, ◌∙◌, refl, none, some, ◌≤◌, arith,
}
use Prim.Native.String.{len}
use text.Mathlib.Text.{◌==◌}
use gsb_salak_backend.Prelude.Int.{pos}
use gsb_salak_backend.Prelude.Decimal.{Decimal}
use gsb_salak_backend.Calendar.{Time}
use gsb_salak_backend.Domain.{Uuid, Account, AccountType, User}
use gsb_salak_backend.Store
use gsb_salak_backend.Store.{Env, World, Db, Exec, Result, ok, err, panicked, attempt}
use gsb_salak_backend.Store.Rules.{
  Ensures, Wrote, Same, Same-then, Wrote-then, Ensures-bind, Ensures-pure, Ensures-map_err,
  Ensures-raise_if, Ensures-now, Ensures-fresh_id, Ensures-write, Ensures-mono, Ensures-ok,
  Ensures-Begun,
}
use gsb_salak_backend.Store.Frames.{
  Unnumbered, unnumbered, Ensures-Keeps, Keeps-attempt, Keeps-map_err, Unnumbered-raise_if,
  Unnumbered-lift, Unnumbered-now, Unnumbered-write, Unnumbered-fresh_id,
}
use gsb_salak_backend.Store.Atomic.{
  CommitsNothing, IsAtomic, commits_nothing, IsAtomic-bind, IsAtomic-transaction,
}
use gsb_salak_backend.Salak.Repository.Rules.{lift-Ensures}
use gsb_salak_backend.Account.{primary_of}
use gsb_salak_backend.Account.Opening.{stored_account}
use gsb_salak_backend.Account.Opening.Rules.{
  Opened, advanced, create-Ensures, create-CommitsNothing,
}
use gsb_salak_backend.Users.{
  Bcrypt, named, user_check, add_user, create_user, find_by_username, free_name, register_body,
  register,
}

-- A user with the given names and hash, and the three accounts that are opened for them: a primary savings
-- account with the starting balance, and an empty salak and an empty kapook account, in tables that
-- are otherwise the same. The account numbers are made of the next values `numbers` of the sequences.
pub record Registered (starting_balance : Decimal) (username hash full_name : String)
    (numbers : AccountType → ℕ) (d : Db) (u : User) (d' : Db) : Type 0 where
  pub id : Uuid
  pub at : Time
  pub savings : Account
  pub salak : Account
  pub with_savings : Db
  pub with_salak : Db
  pub user : u ≡ record {
    id = id;
    username = username;
    password_hash = hash;
    full_name = full_name;
    created_at = at;
  }
  pub kapook : Account
  pub accepted : user_check u d ≡ none
  pub savings_opened :
      Opened id AccountType.savings starting_balance true
        (numbers AccountType.savings)
        (add_user u d)
        savings
        with_savings
  pub salak_opened :
      Opened id AccountType.salak
        (pos 0)
        false
        (numbers AccountType.salak)
        with_savings
        salak
        with_salak
  pub kapook_opened :
      Opened id AccountType.kapook (pos 0) false (numbers AccountType.kapook) with_salak kapook d'

register_body-Ensures :
    (e : Env) (w : World) (balance : Decimal) (u : User)
    → Ensures
        (λ u' w'.
          Registered balance u.username u.password_hash u.full_name w.numbers w.working u'
            w'.working)
        (register_body balance u)
        e
        w
unfolding register_body create_user
register_body-Ensures e w balance u =
    Ensures-bind
      {P = λ u' w'.
        (t : Time) × (u' ≡ record u { created_at = t })
        × (user_check u' w.working ≡ none)
        × Wrote w w' (add_user u' w.working)
        × (w'.numbers ≡ w.numbers)}
      (Ensures-map_err _ _ (
        Ensures-bind (Ensures-Keeps Unnumbered-now (Ensures-now e w)) λ t w₁ ((_, s₁), k₁).
          let stamped : User = record u { created_at = t } in
          Ensures-bind
            (Ensures-Keeps (Unnumbered-write _ _)
              (Ensures-write e w₁ (user_check stamped) (add_user stamped)))
            λ _ w₂ ((accepted, wrote), k₂). Ensures-pure stamped (
              t,
              refl,
              rw s₁.working at accepted,
              Wrote-then (add_user stamped) s₁ wrote,
              k₂ ∙ k₁,
            )))
      λ u' w₁ (t, stamped, accepted, s₁, k₁).
        Ensures-bind
          (Ensures-map_err _ _ (create-Ensures e w₁ u.id AccountType.savings balance true))
          λ savings w₂ (first, _, k₂).
            Ensures-bind
              (Ensures-map_err _ _ (create-Ensures e w₂ u.id AccountType.salak (pos 0) false))
              λ salak w₃ (second, _, k₃).
                Ensures-bind
                  (Ensures-map_err _ _ (create-Ensures e w₃ u.id AccountType.kapook (pos 0) false))
                  λ kapook w₄ (third, _, _).
                    let next₂ = k₂ ∙ ap (advanced AccountType.savings) k₁ in
                    let next₃ = k₃ ∙ ap (advanced AccountType.salak) next₂ in
                    Ensures-pure u' (record {
                      id = u.id;
                      at = t;
                      savings = savings;
                      salak = salak;
                      kapook = kapook;
                      with_savings = w₂.working;
                      with_salak = w₃.working;
                      user = stamped;
                      accepted = accepted;
                      savings_opened =
                          rw (ap (λ f. f AccountType.savings) k₁) at (rw s₁.working at first);
                      salak_opened = rw (ap (λ f. f AccountType.salak) next₂) at second;
                      kapook_opened = rw (ap (λ f. f AccountType.kapook) next₃) at third;
                    })

-- A lookup whose result lets a name pass has found no row of it.
find_by_username-free :
    (e : Env) (w : World) (username : String)
    → Ensures
        (λ r w'. (free_name r ≡ ok tt → named username w.committed ≡ none) × Same w w')
        (attempt (find_by_username username))
        e
        w
unfolding attempt find_by_username Store.first Store.read Store.execute Store.or_not_found
    Store.◌>>=◌
find_by_username-free e w username = record { post = ground arith }

find_by_username-Unnumbered : (username : String) → Unnumbered (find_by_username username)
unfolding find_by_username
find_by_username-Unnumbered username = search unnumbered depth 8

-- If a registration returns, no name is empty, the password has eight bytes or more, nobody had the username in
-- the committed tables, and these are afterwards as `Registered` describes: one user with the hash of
-- the password and three accounts, each with a number made of the next value of its type's sequence,
-- which met the constraints.
pub register-Registered :
    (bcrypt : Bcrypt) (e : Env) (w w' : World) (balance : Decimal)
    (username password full_name : String) (u : User)
    → register bcrypt balance username password full_name e w ≡ (ok u, w')
    → (((username == "") || (password == "") || (full_name == "")) ≡ false)
      × (8 ≤ len password)
      × (named username w.committed ≡ none)
      × ((hash : String) × (bcrypt.generate_from_password password ≡ ok hash)
          × Registered balance username hash full_name w.numbers w.committed u w'.committed)
unfolding register
register-Registered bcrypt e w w' balance username password full_name u returned =
    Ensures-ok
      {Q = λ u₁ w₁.
        (((username == "") || (password == "") || (full_name == "")) ≡ false)
        × (8 ≤ len password)
        × (named username w.committed ≡ none)
        × ((hash : String) × (bcrypt.generate_from_password password ≡ ok hash)
            × Registered balance username hash full_name w.numbers w.committed u₁ w₁.committed)}
      (Ensures-bind (Ensures-Keeps (Unnumbered-raise_if _ _) (Ensures-raise_if e w _ _))
        λ _ w₁ ((filled, s₁), k₁).
          Ensures-bind (Ensures-Keeps (Unnumbered-raise_if _ _) (Ensures-raise_if e w₁ _ _))
            λ _ w₂ ((long, s₂), k₂).
              Ensures-bind
                (Ensures-Keeps (Keeps-attempt _ (find_by_username-Unnumbered username))
                  (find_by_username-free e w₂ username))
                λ existing w₃ ((if_free, s₃), k₃).
                  Ensures-bind (Ensures-Keeps (Unnumbered-lift _) (lift-Ensures e w₃ _))
                    λ _ w₄ ((free, s₄), k₄).
                      Ensures-bind
                        (Ensures-Keeps (Keeps-map_err _ _ (Unnumbered-lift _))
                          (Ensures-map_err _ _ (lift-Ensures e w₄ _)))
                        λ hash w₅ ((hashed, s₅), k₅).
                          Ensures-bind (Ensures-Keeps Unnumbered-fresh_id (Ensures-fresh_id e w₅))
                            λ i w₆ ((_, s₆), k₆).
                              let kept₂ = Same-then s₁ s₂ in
                              let kept₆ =
                                Same-then (Same-then (Same-then (Same-then kept₂ s₃) s₄) s₅) s₆ in
                              Ensures-Begun _
                                (λ w₀ begun.
                                  Ensures-mono (register_body-Ensures e w₀ balance _) λ u₁ w₇ h.
                                    rw (begun.numbers ∙ k₆ ∙ k₅ ∙ k₄ ∙ k₃ ∙ k₂ ∙ k₁) at
                                      (rw (begun.working ∙ kept₆.committed) at h))
                                λ u₁ w₇ w₈ h committed. (
                                  filled,
                                  ground arith,
                                  rw kept₂.committed at (if_free free),
                                  (hash, hashed, rw committed h),
                                ))
      returned

find_by_username-CommitsNothing : (username : String) → CommitsNothing (find_by_username username)
unfolding find_by_username
find_by_username-CommitsNothing username = search commits_nothing

register_body-CommitsNothing :
    (balance : Decimal) (u : User) → CommitsNothing (register_body balance u)
unfolding register_body create_user
register_body-CommitsNothing balance u = search (commits_nothing, create-CommitsNothing) depth 20

-- A registration that fails, at whatever step or statement, leaves the committed tables as they were: no user
-- without accounts, and no account without a user.
pub register-IsAtomic :
    (bcrypt : Bcrypt) (balance : Decimal) (username password full_name : String)
    → IsAtomic (register bcrypt balance username password full_name)
unfolding register
register-IsAtomic bcrypt balance username password full_name =
    search
      (
        commits_nothing, find_by_username-CommitsNothing, register_body-CommitsNothing,
        IsAtomic-bind, IsAtomic-transaction,
      )
      depth 24

-- The account that a withdrawal or a settlement pays is the new savings account.
pub Registered-primary :
    (balance : Decimal) (username hash full_name : String) (numbers : AccountType → ℕ) (d : Db)
    (u : User) (d' : Db)
    → (h : Registered balance username hash full_name numbers d u d')
    → primary_of u.id d' ≡ some (stored_account h.savings)
Registered-primary balance username hash full_name numbers d u d' h =
    let (i, s, savings_row, _, tables₁) = h.savings_opened in
    let (j, t, salak_row, _, tables₂) = h.salak_opened in
    let (k, v, kapook_row, _, tables₃) = h.kapook_opened in
    rw h.user (
      rw tables₃
        (rw kapook_row (rw tables₂ (rw salak_row (rw tables₁ (rw savings_row (ground arith)))))))
