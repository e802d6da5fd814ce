-- ===== src/Store/Atomic.antt =====
-- Actions that commit nothing, and actions that commit nothing when they fail: one rule for each way
-- to build an action.
use gsb_salak_backend.Prelude.{◌≡◌, ◌∙◌, refl, Bool, true, false, Option, arith, if◌then◌else◌}
use gsb_salak_backend.Apperror.{Error}
use gsb_salak_backend.Domain.{AccountType}
use gsb_salak_backend.Store
use gsb_salak_backend.Store.{
  Db, Env, World, Result, ok, err, panicked, Exec, pure, raise, lift, ◌>>=◌, raise_if, map_err,
  attempt, Handle, ambient, tx, read, first, write, now, fresh_id, next_value, transaction,
  savepoint,
}

-- The committed tables are the same before and after, whatever the result.
pub record CommitsNothing {A : Type 0} (m : Exec A) : Type 0 where
  pub at : (e : Env) (w : World) → (m e w).1.committed ≡ w.committed

abbrev pub Unless : {A : Type 0} → Result A → Type 0 → Type 0
Unless (ok a) P = Unit
Unless (err x) P = P
Unless panicked P = P

Unless-mono : {A P Q : Type 0} (r : Result A) → (P → Q) → Unless r P → Unless r Q
Unless-mono (ok a) f p = tt
Unless-mono (err x) f p = f p
Unless-mono panicked f p = f p

-- A run that ends in an error or a panic leaves the committed tables as they were.
pub record IsAtomic {A : Type 0} (m : Exec A) : Type 0 where
  pub at : (e : Env) (w : World) → let (r, w') = m e w in Unless r (w'.committed ≡ w.committed)

module _ {A : Type 0} where
  pub CommitsNothing-pure : (a : A) → CommitsNothing (pure a)
  unfolding pure
  CommitsNothing-pure a = record { at = λ e w. refl }

  pub CommitsNothing-raise : (x : Error) → CommitsNothing {A = A} (raise x)
  unfolding raise
  CommitsNothing-raise x = record { at = λ e w. refl }

  pub CommitsNothing-lift : (r : Result A) → CommitsNothing (lift r)
  unfolding lift
  CommitsNothing-lift r = record { at = λ e w. refl }

  pub CommitsNothing-map_err :
      (f : Error → Error) (m : Exec A) → CommitsNothing m → CommitsNothing (map_err f m)
  unfolding map_err
  CommitsNothing-map_err f m h = record { at = λ e w. h.at e w }

  pub CommitsNothing-attempt : (m : Exec A) → CommitsNothing m → CommitsNothing (attempt m)
  unfolding attempt
  CommitsNothing-attempt m h = record { at = λ e w. h.at e w }

  pub CommitsNothing-read : (h : Handle) (f : Db → A) → CommitsNothing (read h f)
  unfolding read
  CommitsNothing-read ambient f = record { at = λ e w. ground arith }
  CommitsNothing-read tx f = record { at = λ e w. ground arith }

  pub CommitsNothing-first : (h : Handle) (f : Db → Option A) → CommitsNothing (first h f)
  unfolding first
  CommitsNothing-first ambient f = record { at = λ e w. ground arith }
  CommitsNothing-first tx f = record { at = λ e w. ground arith }

  pub CommitsNothing-savepoint : (m : Exec A) → CommitsNothing m → CommitsNothing (savepoint m)
  unfolding savepoint
  CommitsNothing-savepoint m h = record { at = λ e w. ground (arith, h.at e (Store.counted w)) }

  pub CommitsNothing-if :
      (b : Bool) (m n : Exec A)
      → CommitsNothing m
      → CommitsNothing n
      → CommitsNothing (if b then m else n)
  CommitsNothing-if true m n km kn = km
  CommitsNothing-if false m n km kn = kn

  -- Only the COMMIT writes, and it runs after a result.
  pub IsAtomic-transaction : (m : Exec A) → CommitsNothing m → IsAtomic (transaction m)
  unfolding transaction
  IsAtomic-transaction m h = record {
    at = λ e w.
        ground
          (arith, h.at e (record (Store.counted w) { working = w.committed; aborted = false }));
  }

  pub IsAtomic-CommitsNothing : (m : Exec A) → CommitsNothing m → IsAtomic m
  IsAtomic-CommitsNothing m h = record { at = λ e w. go (m e w).0 (h.at e w) }
    where
      go : {P : Type 0} (r : Result A) → P → Unless r P
      go (ok a) p = tt
      go (err x) p = p
      go panicked p = p

pub CommitsNothing-raise_if : (b : Bool) (x : Error) → CommitsNothing (raise_if b x)
unfolding raise_if
CommitsNothing-raise_if b x = record { at = λ e w. refl }

pub CommitsNothing-now : CommitsNothing now
unfolding now
CommitsNothing-now = record { at = λ e w. refl }

pub CommitsNothing-fresh_id : CommitsNothing fresh_id
unfolding fresh_id
CommitsNothing-fresh_id = record { at = λ e w. refl }

pub CommitsNothing-write : (c : Db → Option Error) (f : Db → Db) → CommitsNothing (write tx c f)
unfolding write
CommitsNothing-write c f = record { at = λ e w. ground arith }

pub CommitsNothing-next_value : (t : AccountType) → CommitsNothing (next_value tx t)
unfolding next_value
CommitsNothing-next_value t = record { at = λ e w. ground arith }

module _ {A B : Type 0} (m : Exec A) (f : A → Exec B) where
  pub CommitsNothing-bind :
      CommitsNothing m → ((a : A) → CommitsNothing (f a)) → CommitsNothing (m >>= f)
  unfolding ◌>>=◌
  CommitsNothing-bind h k = record { at = λ e w. let (r, w') = m e w in go e r w' ∙ h.at e w }
    where
      go : (e : Env) (r : Result A) (w : World) → (Store.continue r f e w).1.committed ≡ w.committed
      go e (ok a) w = (k a).at e w
      go e (err x) w = refl
      go e panicked w = refl

  -- Steps that commit nothing may stand before an atomic one.
  pub IsAtomic-bind : CommitsNothing m → ((a : A) → IsAtomic (f a)) → IsAtomic (m >>= f)
  unfolding ◌>>=◌
  IsAtomic-bind h k = record { at = λ e w. let (r, w') = m e w in go e w r w' (h.at e w) }
    where
      go :
          (e : Env) (w : World) (r : Result A) (w₁ : World)
          → w₁.committed ≡ w.committed
          → let (r', w') = Store.continue r f e w₁ in Unless r' (w'.committed ≡ w.committed)
      go e w (ok a) w₁ c = let (r', w') = f a e w₁ in Unless-mono r' (λ p. p ∙ c) ((k a).at e w₁)
      go e w (err x) w₁ c = c
      go e w panicked w₁ c = c

pub ruleset commits_nothing = (
  CommitsNothing-pure, CommitsNothing-raise, CommitsNothing-lift, CommitsNothing-map_err,
  CommitsNothing-attempt, CommitsNothing-read, CommitsNothing-first, CommitsNothing-savepoint,
  CommitsNothing-if, CommitsNothing-raise_if, CommitsNothing-now, CommitsNothing-fresh_id,
  CommitsNothing-write, CommitsNothing-next_value, CommitsNothing-bind,
)
