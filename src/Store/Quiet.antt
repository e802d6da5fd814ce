-- ===== src/Store/Quiet.antt =====
-- Actions in an open transaction that may leave it aborted: what is known where it is not.
use gsb_salak_backend.Prelude.{◌≡◌, refl, Bool, true, false, Option, arith, if◌then◌else◌}
use gsb_salak_backend.Apperror.{Error}
use gsb_salak_backend.Store
use gsb_salak_backend.Store.{
  Db, Env, World, Result, ok, err, panicked, Exec, pure, raise, lift, ◌>>=◌, raise_if, map_err,
  attempt, Handle, ambient, tx, read, first, write, now, fresh_id, savepoint, transaction,
}
use gsb_salak_backend.Store.Rules.{Same, Same-refl, Same-then}

-- Where the transaction is not aborted afterwards, it was not before, and neither the committed tables
-- nor its own have changed, whatever the result.
pub record Quiet {A : Type 0} (m : Exec A) : Type 0 where
  pub at :
      (e : Env) (w : World)
      → let w' = (m e w).1 in w'.aborted ≡ false → (w.aborted ≡ false) × Same w w'

module _ {A : Type 0} where
  pub Quiet-pure : (a : A) → Quiet (pure a)
  unfolding pure
  Quiet-pure a = record { at = λ e w alive. (alive, Same-refl w) }

  pub Quiet-raise : (x : Error) → Quiet {A = A} (raise x)
  unfolding raise
  Quiet-raise x = record { at = λ e w alive. (alive, Same-refl w) }

  pub Quiet-map_err : (f : Error → Error) (m : Exec A) → Quiet m → Quiet (map_err f m)
  unfolding map_err
  Quiet-map_err f m h = record { at = λ e w alive. h.at e w alive }

  pub Quiet-read : (h : Handle) (f : Db → A) → Quiet (read h f)
  unfolding read
  Quiet-read ambient f = record { at = λ e w alive. ground arith }
  Quiet-read tx f = record { at = λ e w alive. ground arith }

  pub Quiet-first : (h : Handle) (f : Db → Option A) → Quiet (first h f)
  unfolding first
  Quiet-first ambient f = record { at = λ e w alive. ground arith }
  Quiet-first tx f = record { at = λ e w alive. ground arith }

  pub Quiet-if : (b : Bool) (m n : Exec A) → Quiet m → Quiet n → Quiet (if b then m else n)
  Quiet-if true m n km kn = km
  Quiet-if false m n km kn = kn

pub Quiet-raise_if : (b : Bool) (x : Error) → Quiet (raise_if b x)
unfolding raise_if
Quiet-raise_if b x = record { at = λ e w alive. (alive, Same-refl w) }

pub Quiet-now : Quiet now
unfolding now
Quiet-now = record { at = λ e w alive. (alive, record { committed = refl; working = refl }) }

module _ {A B : Type 0} (m : Exec A) (f : A → Exec B) where
  pub Quiet-bind : Quiet m → ((a : A) → Quiet (f a)) → Quiet (m >>= f)
  unfolding ◌>>=◌
  Quiet-bind h k = record { at = λ e w alive. go e w (m e w) (h.at e w) alive }
    where
      go :
          (e : Env) (w : World) (r : Result A × World)
          → (r.1.aborted ≡ false → (w.aborted ≡ false) × Same w r.1)
          → (Store.continue r.0 f e r.1).1.aborted ≡ false
          → (w.aborted ≡ false) × Same w (Store.continue r.0 f e r.1).1
      go e w (ok a, w₁) q alive =
          let (alive₁, s₁) = (k a).at e w₁ alive in
          let (alive₀, s₀) = q alive₁ in (alive₀, Same-then s₀ s₁)
      go e w (err x, w₁) q alive = q alive
      go e w (panicked, w₁) q alive = q alive

pub ruleset quiet = (
  Quiet-pure, Quiet-raise, Quiet-map_err, Quiet-read, Quiet-first, Quiet-if, Quiet-raise_if,
  Quiet-now, Quiet-bind,
)
