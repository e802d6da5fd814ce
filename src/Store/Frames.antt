-- ===== src/Store/Frames.antt =====
-- What an action leaves alone: the number of readings of the clock, and the account number sequences.
use gsb_salak_backend.Prelude.{suc, ◌≡◌, ◌∙◌, refl, Bool, true, false, Option, arith, if◌then◌else◌}
use gsb_salak_backend.Apperror.{Error}
use gsb_salak_backend.Store
use gsb_salak_backend.Store.{
  Db, Env, World, Result, ok, err, panicked, Exec, pure, raise, lift, ◌>>=◌, raise_if, map_err,
  attempt, Handle, ambient, tx, read, first, write, now, fresh_id,
}
use gsb_salak_backend.Store.Rules.{Post, Ensures, Same}

-- The part `part` of the world is the same before and after, whatever the result.
pub record Keeps {A B : Type 0} (part : World → B) (m : Exec A) : Type 0 where
  pub at : (e : Env) (w : World) → part (m e w).1 ≡ part w

-- No reading of the clock, and no number of a sequence, is taken.
abbrev pub Still : {A : Type 0} → Exec A → Type 0
Still m = Keeps (λ w. w.readings) m

abbrev pub Unnumbered : {A : Type 0} → Exec A → Type 0
Unnumbered m = Keeps (λ w. w.numbers) m

module _ {A B : Type 0} {part : World → B} where
  pub Keeps-pure : (a : A) → Keeps part (pure a)
  unfolding pure
  Keeps-pure a = record { at = λ e w. refl }

  pub Keeps-raise : (x : Error) → Keeps {A = A} part (raise x)
  unfolding raise
  Keeps-raise x = record { at = λ e w. refl }

  pub Keeps-lift : (r : Result A) → Keeps part (lift r)
  unfolding lift
  Keeps-lift r = record { at = λ e w. refl }

  pub Keeps-map_err : (f : Error → Error) (m : Exec A) → Keeps part m → Keeps part (map_err f m)
  unfolding map_err
  Keeps-map_err f m h = record { at = λ e w. h.at e w }

  pub Keeps-attempt : (m : Exec A) → Keeps part m → Keeps part (attempt m)
  unfolding attempt
  Keeps-attempt m h = record { at = λ e w. h.at e w }

  pub Keeps-if :
      (b : Bool) (m n : Exec A) → Keeps part m → Keeps part n → Keeps part (if b then m else n)
  Keeps-if true m n km kn = km
  Keeps-if false m n km kn = kn

pub Keeps-raise_if :
    {B : Type 0} {part : World → B} (b : Bool) (x : Error) → Keeps part (raise_if b x)
unfolding raise_if
Keeps-raise_if b x = record { at = λ e w. refl }

module _ {A B C : Type 0} {part : World → C} (m : Exec A) (f : A → Exec B) where
  pub Keeps-bind : Keeps part m → ((a : A) → Keeps part (f a)) → Keeps part (m >>= f)
  unfolding ◌>>=◌
  Keeps-bind h k = record { at = λ e w. let (r, w') = m e w in go e r w' ∙ h.at e w }
    where
      go : (e : Env) (r : Result A) (w : World) → part (Store.continue r f e w).1 ≡ part w
      go e (ok a) w = (k a).at e w
      go e (err x) w = refl
      go e panicked w = refl

module _ {A : Type 0} where
  pub Still-read : (h : Handle) (f : Db → A) → Still (read h f)
  unfolding read
  Still-read ambient f = record { at = λ e w. ground arith }
  Still-read tx f = record { at = λ e w. ground arith }

  pub Still-first : (h : Handle) (f : Db → Option A) → Still (first h f)
  unfolding first
  Still-first ambient f = record { at = λ e w. ground arith }
  Still-first tx f = record { at = λ e w. ground arith }

  pub Unnumbered-read : (h : Handle) (f : Db → A) → Unnumbered (read h f)
  unfolding read
  Unnumbered-read ambient f = record { at = λ e w. ground arith }
  Unnumbered-read tx f = record { at = λ e w. ground arith }

  pub Unnumbered-first : (h : Handle) (f : Db → Option A) → Unnumbered (first h f)
  unfolding first
  Unnumbered-first ambient f = record { at = λ e w. ground arith }
  Unnumbered-first tx f = record { at = λ e w. ground arith }

pub Still-write : (c : Db → Option Error) (f : Db → Db) → Still (write tx c f)
unfolding write
Still-write c f = record { at = λ e w. ground arith }

pub Still-fresh_id : Still fresh_id
unfolding fresh_id
Still-fresh_id = record { at = λ e w. refl }

pub Still-raise_if : (b : Bool) (x : Error) → Still (raise_if b x)
Still-raise_if b x = Keeps-raise_if b x

pub Still-lift : {A : Type 0} (r : Result A) → Still (lift r)
Still-lift r = Keeps-lift r

pub Unnumbered-write : (c : Db → Option Error) (f : Db → Db) → Unnumbered (write tx c f)
unfolding write
Unnumbered-write c f = record { at = λ e w. ground arith }

pub Unnumbered-fresh_id : Unnumbered fresh_id
unfolding fresh_id
Unnumbered-fresh_id = record { at = λ e w. refl }

pub Unnumbered-now : Unnumbered now
unfolding now
Unnumbered-now = record { at = λ e w. refl }

pub ruleset keeps = (
  Keeps-pure, Keeps-raise, Keeps-lift, Keeps-map_err, Keeps-attempt, Keeps-if, Keeps-raise_if,
  Keeps-bind,
)

pub ruleset still = (keeps, Still-read, Still-first, Still-write, Still-fresh_id)

pub ruleset unnumbered = (
  keeps, Unnumbered-read, Unnumbered-first, Unnumbered-write, Unnumbered-fresh_id, Unnumbered-now,
)

pub Unnumbered-raise_if : (b : Bool) (x : Error) → Unnumbered (raise_if b x)
Unnumbered-raise_if b x = Keeps-raise_if b x

pub Unnumbered-lift : {A : Type 0} (r : Result A) → Unnumbered (lift r)
Unnumbered-lift r = Keeps-lift r

-- A reading of the clock, and that it is one.
pub Ensures-tick :
    (e : Env) (w : World)
    → Ensures
        (λ t w'. ((t ≡ e.clock w.readings) × Same w w') × (w'.readings ≡ suc w.readings))
        now
        e
        w
unfolding now
Ensures-tick e w = record { post = ((refl, record { committed = refl; working = refl }), refl) }

-- What an action that returns has done, beside what it leaves alone.
pub Ensures-Keeps :
    {A B : Type 0} {part : World → B} {Q : A → World → Type 0} {m : Exec A} {e : Env} {w : World}
    → Keeps part m
    → Ensures Q m e w
    → Ensures (λ a w'. Q a w' × (part w' ≡ part w)) m e w
Ensures-Keeps {A} {B} {part} {Q} {m} {e} {w} k h = record { post = go (m e w) (k.at e w) h.post }
  where
    go :
        (r : Result A × World)
        → part r.1 ≡ part w
        → Post Q r
        → Post (λ a w'. Q a w' × (part w' ≡ part w)) r
    go (ok a, w₁) p q = (q, p)
    go (err x, w₁) p q = tt
    go (panicked, w₁) p q = tt
