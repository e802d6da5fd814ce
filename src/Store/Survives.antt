-- ===== src/Store/Survives.antt =====
-- What a run that leaves the open transaction alive has done.
use gsb_salak_backend.Prelude.{◌≡◌, refl, false, Option, arith}
use gsb_salak_backend.Apperror.{Error}
use gsb_salak_backend.Store
use gsb_salak_backend.Store.{
  Db, Env, World, Result, ok, err, panicked, Exec, pure, raise, lift, ◌>>=◌, raise_if, map_err,
  attempt, Handle, ambient, tx, read, first, write, now, fresh_id, savepoint, transaction,
}
use gsb_salak_backend.Store.Rules.{Post, Ensures, Wrote, Same}
use gsb_salak_backend.Store.Quiet.{Quiet}

-- A run that leaves the transaction alive found it alive, and if it returned a value, `Q` holds.
pub record Survives {A : Type 0} (Q : A → World → Type 0) (m : Exec A) (e : Env) (w : World)
    : Type 0 where
  pub post : let r = m e w in r.1.aborted ≡ false → (w.aborted ≡ false) × Post Q r

-- Under a transaction that is alive.
abbrev pub Alive : World → Type 0 → Type 0
Alive w P = w.aborted ≡ false → P

module _ {A : Type 0} {Q : A → World → Type 0} {e : Env} {w : World} where
  pub Survives-pure : (a : A) → Alive w (Q a w) → Survives Q (pure a) e w
  unfolding pure
  Survives-pure a q = record { post = λ alive. (alive, q alive) }

module _ {A B : Type 0} {P : A → World → Type 0} {Q : B → World → Type 0} where
  pub Survives-bind :
      {m : Exec A} {f : A → Exec B} {e : Env} {w : World}
      → Survives P m e w
      → ((a : A) (w' : World) → Alive w' ((w.aborted ≡ false) × P a w') → Survives Q (f a) e w')
      → Survives Q (m >>= f) e w
  unfolding ◌>>=◌
  Survives-bind {m} {f} {e} {w} h k = record { post = go (m e w) h.post }
    where
      go :
          (r : Result A × World)
          → (r.1.aborted ≡ false → (w.aborted ≡ false) × Post P r)
          → let r' = Store.continue r.0 f e r.1 in
            r'.1.aborted ≡ false → (w.aborted ≡ false) × Post Q r'
      go (ok a, w₁) q alive = let (alive₁, p) = (k a w₁ q).post alive in ((q alive₁).0, p)
      go (err x, w₁) q alive = ((q alive).0, tt)
      go (panicked, w₁) q alive = ((q alive).0, tt)

pub Survives-mono :
    {A : Type 0} {P Q : A → World → Type 0} {m : Exec A} {e : Env} {w : World}
    → Survives P m e w
    → ((a : A) (w' : World) → P a w' → Q a w')
    → Survives Q m e w
Survives-mono {A} {P} {Q} {m} {e} {w} h k = record { post = go (m e w) h.post }
  where
    go :
        (r : Result A × World)
        → (r.1.aborted ≡ false → (w.aborted ≡ false) × Post P r)
        → r.1.aborted ≡ false
        → (w.aborted ≡ false) × Post Q r
    go (ok a, w₁) p alive = let (alive₀, x) = p alive in (alive₀, k a w₁ x)
    go (err x, w₁) p alive = ((p alive).0, tt)
    go (panicked, w₁) p alive = ((p alive).0, tt)

module _ {A : Type 0} (P : A → World → Type 0) (m : Exec A) where
  -- What is known of an attempt, where `P` is known of a value.
  abbrev pub Tried : Result A → World → Type 0
  Tried (ok a) w = P a w
  Tried (err x) w = Unit
  Tried panicked w = Unit

  pub Survives-attempt :
      {e : Env} {w : World}
      → Quiet m
      → Ensures P m e w
      → Survives (λ r w'. Same w w' × Tried r w') (attempt m) e w
  unfolding attempt
  Survives-attempt {e} {w} quietly h = record { post = go (m e w) (quietly.at e w) h.post }
    where
      go :
          (r : Result A × World)
          → (r.1.aborted ≡ false → (w.aborted ≡ false) × Same w r.1)
          → Post P r
          → r.1.aborted ≡ false
          → (w.aborted ≡ false) × Post (λ x w'. Same w w' × Tried x w') (Store.attempted r.0, r.1)
      go (ok a, w₁) q p alive = let (alive₀, s) = q alive in (alive₀, (s, p))
      go (err x, w₁) q p alive = let (alive₀, s) = q alive in (alive₀, (s, tt))
      go (panicked, w₁) q p alive = ((q alive).0, tt)

-- A quiet run that returns a value.
pub Survives-Quiet :
    {A : Type 0} (m : Exec A) {e : Env} {w : World} → Quiet m → Survives (λ _ w'. Same w w') m e w
Survives-Quiet {A} m {e} {w} h = record { post = go (m e w) (h.at e w) }
  where
    go :
        (r : Result A × World)
        → (r.1.aborted ≡ false → (w.aborted ≡ false) × Same w r.1)
        → r.1.aborted ≡ false
        → (w.aborted ≡ false) × Post (λ _ w'. Same w w') r
    go (ok a, w₁) q alive = q alive
    go (err x, w₁) q alive = ((q alive).0, tt)
    go (panicked, w₁) q alive = ((q alive).0, tt)

-- The attempt of a write: in a transaction that stays alive, it has been done.
pub Survives-attempt-write :
    (e : Env) (w : World) (c : Db → Option Error) (f : Db → Db)
    → Survives (λ _ w'. Wrote w w' (f w.working)) (attempt (write tx c f)) e w
unfolding attempt write
Survives-attempt-write e w c f = record { post = ground arith }

-- With its error annotated: where the transaction stays alive, the attempt has succeeded.
pub Survives-attempt_annotated_write :
    (e : Env) (w : World) (g : Error → Error) (c : Db → Option Error) (f : Db → Db)
    → Survives
        (λ r w'. (r ≡ ok tt) × Wrote w w' (f w.working))
        (attempt (map_err g (write tx c f)))
        e
        w
unfolding attempt map_err write
Survives-attempt_annotated_write e w g c f = record { post = ground arith }

-- The attempt that was made, beside what is known of it.
pub Survives-attempt_ran :
    {A : Type 0} {Q : Result A → World → Type 0} (m : Exec A) {e : Env} {w : World}
    → Survives Q (attempt m) e w
    → Survives (λ r w'. Q r w' × (m e w ≡ (r, w'))) (attempt m) e w
unfolding attempt
Survives-attempt_ran {A} {Q} m {e} {w} h = record { post = go (m e w) refl h.post }
  where
    go :
        (r : Result A × World)
        → m e w ≡ r
        → (r.1.aborted ≡ false → (w.aborted ≡ false) × Post Q (Store.attempted r.0, r.1))
        → r.1.aborted ≡ false
        → (w.aborted ≡ false) × Post (λ x w'. Q x w' × (m e w ≡ (x, w'))) (Store.attempted r.0, r.1)
    go (ok a, w₁) ran p alive = let (alive₀, q) = p alive in (alive₀, (q, ran))
    go (err x, w₁) ran p alive = let (alive₀, q) = p alive in (alive₀, (q, ran))
    go (panicked, w₁) ran p alive = ((p alive).0, tt)

-- A query in the transaction.
pub Survives-query :
    {A : Type 0} (e : Env) (w : World) (g : Error → Error) (f : Db → A)
    → Survives
        (λ a w'. (a ≡ f w.working) × Same w w' × (w'.readings ≡ w.readings))
        (map_err g (read tx f))
        e
        w
unfolding map_err read
Survives-query e w g f = record { post = ground arith }

-- A reading of the clock.
pub Survives-now :
    (e : Env) (w : World) → Survives (λ t w'. (t ≡ e.clock w.readings) × Same w w') now e w
unfolding now
Survives-now e w = record {
  post = λ alive. (alive, (refl, record { committed = refl; working = refl }));
}
