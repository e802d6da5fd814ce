-- ===== src/Store.antt =====
-- The database and the calls that reach it. A service method is an action: it takes the environment
-- and the world, and returns a result and the new world.
pub mod Quiet
pub mod Survives
pub mod Savepoints
pub mod Rules
pub mod Frames
pub mod Returns
pub mod Atomic
use gsb_salak_backend.Prelude.{
  ℕ, suc, Bool, true, false, ◌||◌, Option, none, some, List, if◌then◌else◌,
}
use gsb_salak_backend.Apperror.{Error, record_not_found, statement_failed}
use gsb_salak_backend.Calendar.{Time}
use gsb_salak_backend.Domain.{
  Uuid, AccountType, is_type, Account, User, Admin, UserBadge, Product, DrawDate, Holding,
  TicketSequence, LedgerEntry, TermsAcceptance, Goal, Transaction,
}

-- The tables of migrations/.
pub record Db : Type 0 where
  pub users : List User
  pub admins : List Admin
  pub accounts : List Account
  pub user_badges : List UserBadge
  pub products : List Product
  pub draw_dates : List DrawDate
  pub ticket_sequences : List TicketSequence
  pub holdings : List Holding
  pub ledger_entries : List LedgerEntry
  pub terms_acceptances : List TermsAcceptance
  pub goals : List Goal
  pub transactions : List Transaction

-- What the program does not decide: which statements fail, the ids that uuid.New returns, and the
-- readings of the clock, each by the number of the call.
pub record Env : Type 0 where
  pub fails : ℕ → Bool
  pub new_id : ℕ → Uuid
  pub clock : ℕ → Time

-- `committed` is what other connections see. `working` is the view of the open transaction, and
-- `aborted` says that one of its statements has failed, after which PostgreSQL refuses the others.
-- `numbers` are the next values of the sequences of account numbers.
pub record World : Type 0 where
  pub committed : Db
  pub working : Db
  pub aborted : Bool
  pub statements : ℕ
  pub issued : ℕ
  pub readings : ℕ
  pub numbers : AccountType → ℕ

-- `panicked` is a Go panic, which no error check sees.
pub data Result {ℓ} (A : Type ℓ) : Type ℓ where
  ok : A → Result A
  err : Error → Result A
  panicked : Result A

abbrev pub Exec : Type 0 → Type 0
Exec A = Env → World → Result A × World

module _ {A : Type 0} where
  unfoldable pub pure : A → Exec A
  pure a e w = (ok a, w)

  unfoldable pub raise : Error → Exec A
  raise x e w = (err x, w)

  -- The call of a pure function that may fail.
  unfoldable pub lift : Result A → Exec A
  lift r e w = (r, w)

module _ {A B : Type 0} where
  abbrev pub continue : Result A → (A → Exec B) → Exec B
  continue (ok a) f e w = f a e w
  continue (err x) f e w = (err x, w)
  continue panicked f e w = (panicked, w)

  infixl 5 ◌>>=◌ ◌>>◌
  unfoldable pub ◌>>=◌ : Exec A → (A → Exec B) → Exec B
  ◌>>=◌ m f e w = let (r, w') = m e w in continue r f e w'

  abbrev pub ◌>>◌ : Exec A → Exec B → Exec B
  m >> k = m >>= λ _. k

-- `if cond { return err }`
unfoldable pub raise_if : Bool → Error → Exec (Unit {0})
raise_if b x e w = (if b then err x else ok tt, w)

module _ {A : Type 0} where
  -- `if err != nil { return f(err) }`
  abbrev pub rescue : (Error → Error) → Result A → Result A
  rescue f (ok a) = ok a
  rescue f (err x) = err (f x)
  rescue f panicked = panicked

  unfoldable pub map_err : (Error → Error) → Exec A → Exec A
  map_err f m e w = let (r, w') = m e w in (rescue f r, w')

  -- `_, err := m`: the error becomes a value that the caller looks at.
  abbrev pub attempted : Result A → Result (Result A)
  attempted (ok a) = ok (ok a)
  attempted (err x) = ok (err x)
  attempted panicked = panicked

  unfoldable pub attempt : Exec A → Exec (Result A)
  attempt m e w = let (r, w') = m e w in (attempted r, w')

-- The handle that a statement runs on: a transaction, or a pooled connection of its own.
pub data Handle : Type 0 where
  ambient tx : Handle

abbrev pub view : Handle → World → Db
view ambient w = w.committed
view tx w = w.working

abbrev pub put : Handle → Db → World → World
put ambient d w = record w { committed = d }
put tx d w = record w { working = d }

abbrev pub abort : Handle → World → World
abort ambient w = w
abort tx w = record w { aborted = true }

abbrev pub is_aborted : Handle → World → Bool
is_aborted ambient w = false
is_aborted tx w = w.aborted

-- What the server answers: a value and the new tables, or the violation of a constraint.
pub data Reply (A : Type 0) : Type 0 where
  done : A → Db → Reply A
  refused : Error → Reply A

abbrev pub counted : World → World
counted w = record w { statements = suc w.statements }

module _ {A : Type 0} where
  abbrev pub settle : Handle → Reply A → World → Result A × World
  settle h (done a d) w = (ok a, put h d w)
  settle h (refused x) w = (err x, abort h w)

  -- One SQL statement.
  unfoldable pub execute : Handle → (Db → Reply A) → Exec A
  execute h f e w =
      if e.fails w.statements || is_aborted h w
      then (err statement_failed, abort h (counted w))
      else settle h (f (view h w)) (counted w)

  -- SELECT
  unfoldable pub read : Handle → (Db → A) → Exec A
  unfolding execute
  read h f = execute h (λ d. done (f d) d)

module _ {A : Type 0} where
  unfoldable pub or_not_found : Option A → Exec A
  or_not_found none e w = (err record_not_found, w)
  or_not_found (some a) e w = (ok a, w)

  -- `First`
  unfoldable pub first : Handle → (Db → Option A) → Exec A
  unfolding read or_not_found ◌>>=◌
  first h f = read h f >>= or_not_found

-- INSERT or UPDATE, under the constraints of the table.
unfoldable pub write : Handle → (Db → Option Error) → (Db → Db) → Exec (Unit {0})
unfolding execute
write h constraint f =
    execute h (λ d. elim (constraint d) [ none ↦ done tt (f d) | some x ↦ refused x ])

-- SELECT nextval: the sequence of an account type moves on, and no rollback takes it back.
unfoldable pub next_value : Handle → AccountType → Exec ℕ
next_value h t e w =
    if e.fails w.statements || is_aborted h w
    then (err statement_failed, abort h (counted w))
    else (
      ok (w.numbers t),
      record (counted w) { numbers = λ s. if is_type s t then suc (w.numbers s) else w.numbers s },
    )

-- `clk.Now()`, and the ORM's own clock.
unfoldable pub now : Exec Time
now e w = (ok (e.clock w.readings), record w { readings = suc w.readings })

-- `uuid.New()`
unfoldable pub fresh_id : Exec Uuid
fresh_id e w = (ok (e.new_id w.issued), record w { issued = suc w.issued })

-- ROLLBACK TO SAVEPOINT
abbrev pub restore : Env → Db → World → World
restore e saved w =
    if e.fails w.statements
    then record (counted w) { aborted = true }
    else record (counted w) { working = saved; aborted = false }

module _ {A : Type 0} where
  -- The end of `db.Transaction`: COMMIT after nil, which fails in an aborted transaction; ROLLBACK
  -- after an error or a panic.
  abbrev pub finish : Env → Result A × World → Result A × World
  finish e (ok a, w) =
      if e.fails w.statements || w.aborted
      then (err statement_failed, counted w)
      else (ok a, record (counted w) { committed = w.working })
  finish e (err x, w) = (err x, w)
  finish e (panicked, w) = (panicked, w)

  -- `db.Transaction(func(tx) error { ... })`
  unfoldable pub transaction : Exec A → Exec A
  transaction body e w =
      if e.fails w.statements
      then (err statement_failed, counted w)
      else finish e (body e (record (counted w) { working = w.committed; aborted = false }))

  abbrev pub release : Env → Db → Result A × World → Result A × World
  release e saved (ok a, w) = (ok a, w)
  release e saved (err x, w) = (err x, restore e saved w)
  release e saved (panicked, w) = (panicked, restore e saved w)

  -- `tx.Transaction(func(spTx) error { ... })`: a savepoint.
  unfoldable pub savepoint : Exec A → Exec A
  savepoint body e w =
      if e.fails w.statements || w.aborted
      then (err statement_failed, record (counted w) { aborted = true })
      else release e w.working (body e (counted w))
