-- ===== src/Store/Rules.antt =====
-- What an action that returns has done: one rule for each way to build it.
use gsb_salak_backend.Prelude.{
  ◌≡◌, ◌∙◌, refl, ap, Bool, true, false, Option, none, some, ◌||◌, arith,
}
use gsb_salak_backend.Apperror.{Error}
use gsb_salak_backend.Domain.{AccountType}
use gsb_salak_backend.Store
use gsb_salak_backend.Store.{
  Db, Env, World, Result, ok, err, panicked, Exec, pure, raise, ◌>>=◌, raise_if, map_err, Handle,
  ambient, tx, view, read, first, write, now, fresh_id, next_value, transaction, savepoint,
}

-- `Q` holds of the value and the world that a run returns. Of a run that ends in an error or a
-- panic it says nothing.
abbrev pub Post : {A : Type 0} → (A → World → Type 0) → Result A × World → Type 0
Post Q (ok a, w) = Q a w
Post Q (err x, w) = Unit
Post Q (panicked, w) = Unit

pub record Ensures {A : Type 0} (Q : A → World → Type 0) (m : Exec A) (e : Env) (w : World)
    : Type 0 where
  pub post : Post Q (m e w)

-- Nothing is committed, and the open transaction has these tables now.
pub record Wrote (w w' : World) (d : Db) : Type 0 where
  pub committed : w'.committed ≡ w.committed
  pub working : w'.working ≡ d

abbrev pub Same : World → World → Type 0
Same w w' = Wrote w w' w.working

pub Same-refl : (w : World) → Same w w
Same-refl w = record { committed = refl; working = refl }

-- A change of the tables after others.
pub Wrote-then :
    (f : Db → Db) {w w₁ w₂ : World} {d : Db}
    → Wrote w w₁ d
    → Wrote w₁ w₂ (f w₁.working)
    → Wrote w w₂ (f d)
Wrote-then f h k = record {
  committed = k.committed ∙ h.committed;
  working = k.working ∙ ap f h.working;
}

pub Same-then : {w w₁ w₂ : World} {d : Db} → Wrote w w₁ d → Same w₁ w₂ → Wrote w w₂ d
Same-then h k = Wrote-then (λ x. x) h k

module _ {A : Type 0} {Q : A → World → Type 0} {e : Env} {w : World} where
  pub Ensures-ok : {m : Exec A} {a : A} {w' : World} → Ensures Q m e w → m e w ≡ (ok a, w') → Q a w'
  Ensures-ok {m} h p = rw p at h.post

  pub Ensures-pure : (a : A) → Q a w → Ensures Q (pure a) e w
  unfolding pure
  Ensures-pure a h = record { post = h }

  pub Ensures-raise : (x : Error) → Ensures Q (raise x) e w
  unfolding raise
  Ensures-raise x = record { post = tt }

  pub Ensures-map_err :
      (m : Exec A) (f : Error → Error) → Ensures Q m e w → Ensures Q (map_err f m) e w
  unfolding map_err
  Ensures-map_err m f h = record { post = go (m e w) h.post }
    where
      go : (r : Result A × World) → Post Q r → Post Q (let (x, w') = r in (Store.rescue f x, w'))
      go (ok a, w') p = p
      go (err x, w') p = tt
      go (panicked, w') p = tt

module _ {A B : Type 0} {P : A → World → Type 0} {Q : B → World → Type 0} where
  pub Ensures-bind :
      {m : Exec A} {f : A → Exec B} {e : Env} {w : World}
      → Ensures P m e w
      → ((a : A) (w' : World) → P a w' → Ensures Q (f a) e w')
      → Ensures Q (m >>= f) e w
  unfolding ◌>>=◌
  Ensures-bind {m} {f} {e} {w} h k = record { post = go (m e w) h.post }
    where
      go : (r : Result A × World) → Post P r → Post Q (let (x, w') = r in Store.continue x f e w')
      go (ok a, w') p = (k a w' p).post
      go (err x, w') p = tt
      go (panicked, w') p = tt

-- Weakening of what is ensured.
pub Ensures-mono :
    {A : Type 0} {P Q : A → World → Type 0} {m : Exec A} {e : Env} {w : World}
    → Ensures P m e w
    → ((a : A) (w' : World) → P a w' → Q a w')
    → Ensures Q m e w
Ensures-mono {A} {P} {Q} {m} {e} {w} h k = record { post = go (m e w) h.post }
  where
    go : (r : Result A × World) → Post P r → Post Q r
    go (ok a, w') p = k a w' p
    go (err x, w') p = tt
    go (panicked, w') p = tt

module _ (e : Env) (w : World) where
  -- A guard that was passed did not hold, and changed nothing.
  pub Ensures-raise_if :
      (b : Bool) (x : Error) → Ensures (λ _ w'. (b ≡ false) × Same w w') (raise_if b x) e w
  unfolding raise_if
  Ensures-raise_if true x = record { post = tt }
  Ensures-raise_if false x = record { post = (refl, Same-refl w) }

  pub Ensures-now : Ensures (λ t w'. (t ≡ e.clock w.readings) × Same w w') now e w
  unfolding now
  Ensures-now = record { post = (refl, record { committed = refl; working = refl }) }

  pub Ensures-fresh_id : Ensures (λ i w'. (i ≡ e.new_id w.issued) × Same w w') fresh_id e w
  unfolding fresh_id
  Ensures-fresh_id = record { post = (refl, record { committed = refl; working = refl }) }

  pub Ensures-next_value :
      (t : AccountType) → Ensures (λ n w'. (n ≡ w.numbers t) × Same w w') (next_value tx t) e w
  unfolding next_value
  Ensures-next_value t = record { post = ground arith }

  module _ {A : Type 0} where
    pub Ensures-read :
        (h : Handle) (f : Db → A) → Ensures (λ a w'. (a ≡ f (view h w)) × Same w w') (read h f) e w
    unfolding read
    Ensures-read ambient f = record { post = ground arith }
    Ensures-read tx f = record { post = ground arith }

    pub Ensures-first :
        (h : Handle) (f : Db → Option A)
        → Ensures (λ a w'. (f (view h w) ≡ some a) × Same w w') (first h f) e w
    unfolding first
    Ensures-first ambient f = record { post = ground arith }
    Ensures-first tx f = record { post = ground arith }

  -- A write in a transaction that was not refused met the constraint.
  pub Ensures-write :
      (c : Db → Option Error) (f : Db → Db)
      → Ensures (λ _ w'. (c w.working ≡ none) × Wrote w w' (f w.working)) (write tx c f) e w
  unfolding write
  Ensures-write c f = record { post = ground arith }

  -- A write on a connection of its own is committed at once.
  pub Ensures-write_ambient :
      (c : Db → Option Error) (f : Db → Db)
      → Ensures
          (λ _ w'. (c w.committed ≡ none) × (w'.committed ≡ f w.committed))
          (write ambient c f)
          e
          w
  unfolding write
  Ensures-write_ambient c f = record { post = ground arith }

-- The world in which the function of a transaction starts.
pub record Begun (w w₀ : World) : Type 0 where
  pub committed : w₀.committed ≡ w.committed
  pub working : w₀.working ≡ w.committed
  pub readings : w₀.readings ≡ w.readings
  pub numbers : w₀.numbers ≡ w.numbers

module _ {A : Type 0} {P : A → World → Type 0} {Q : A → World → Type 0} (m : Exec A) {e : Env}
    {w : World} where
  -- The body runs on the committed tables, and what it leaves is committed.
  pub Ensures-Begun :
      ((w₀ : World) → Begun w w₀ → Ensures P m e w₀)
      → ((a : A) (w₁ w' : World) → P a w₁ → w'.committed ≡ w₁.working → Q a w')
      → Ensures Q (transaction m) e w
  unfolding transaction
  Ensures-Begun h k = record { post = go (e.fails w.statements) }
    where
      begun : World
      begun = record (Store.counted w) { working = w.committed; aborted = false }

      commit :
          (b : Bool) (a : A) (w₁ : World)
          → P a w₁
          → Post Q (
              Store.if◌then◌else◌ b
                (err Store.statement_failed, Store.counted w₁)
                (ok a, record (Store.counted w₁) { committed = w₁.working }))
      commit true a w₁ p = tt
      commit false a w₁ p = k a w₁ _ p refl

      finished : (r : Result A × World) → Post P r → Post Q (Store.finish e r)
      finished (ok a, w₁) p = commit (e.fails w₁.statements || w₁.aborted) a w₁ p
      finished (err x, w₁) p = tt
      finished (panicked, w₁) p = tt

      go :
          (b : Bool)
          → Post Q (
              Store.if◌then◌else◌ b
                (err Store.statement_failed, Store.counted w)
                (Store.finish e (m e begun)))
      go true = tt
      go false =
          finished (m e begun)
            (h begun
              (record { committed = refl; working = refl; readings = refl; numbers = refl })).post

  pub Ensures-transaction :
      ((w₀ : World) → w₀.committed ≡ w.committed → w₀.working ≡ w.committed → Ensures P m e w₀)
      → ((a : A) (w₁ w' : World) → P a w₁ → w'.committed ≡ w₁.working → Q a w')
      → Ensures Q (transaction m) e w
  Ensures-transaction h k = Ensures-Begun (λ w₀ b. h w₀ b.committed b.working) k

module _ {A : Type 0} {Q : A → World → Type 0} (m : Exec A) {e : Env} {w : World} where
  -- Of a savepoint whose body returns, the body's work stays.
  pub Ensures-savepoint :
      ((w₀ : World) → Same w w₀ → Ensures Q m e w₀) → Ensures Q (savepoint m) e w
  unfolding savepoint
  Ensures-savepoint h = record { post = go (e.fails w.statements || w.aborted) }
    where
      released : (r : Result A × World) → Post Q r → Post Q (Store.release e w.working r)
      released (ok a, w₁) p = p
      released (err x, w₁) p = tt
      released (panicked, w₁) p = tt

      go :
          (b : Bool)
          → Post Q (
              Store.if◌then◌else◌ b
                (err Store.statement_failed, record (Store.counted w) { aborted = true })
                (Store.release e w.working (m e (Store.counted w))))
      go true = tt
      go false =
          released (m e (Store.counted w))
            (h (Store.counted w) (record { committed = refl; working = refl })).post
