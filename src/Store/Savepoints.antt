-- ===== src/Store/Savepoints.antt =====
-- What savepoints keep and take back, in a transaction that stays alive, and its end.
use gsb_salak_backend.Prelude.{
  ◌≡◌, ◌∙◌, refl, Bool, Bool-cases, inl, inr, ◌||◌, true, false, arith, if◌then◌else◌,
}
use gsb_salak_backend.Store.Atomic.{CommitsNothing}
use gsb_salak_backend.Store
use gsb_salak_backend.Store.{
  Db, Env, World, Result, ok, err, panicked, Exec, pure, raise, lift, ◌>>=◌, raise_if, map_err,
  attempt, Handle, ambient, tx, read, first, write, now, fresh_id, savepoint, transaction,
}
use gsb_salak_backend.Store.Rules.{Begun, Post, Ensures, Same, Same-then}
use gsb_salak_backend.Store.Quiet.{Quiet}
use gsb_salak_backend.Store.Frames.{Still}
use gsb_salak_backend.Store.Survives.{Survives}

-- What is known of an attempt from the world `w` that is undone where it fails.
abbrev pub Undone : {A : Type 0} → (A → World → Type 0) → World → Result A → World → Type 0
Undone P w (ok a) w' = P a w'
Undone P w (err x) w' = w'.working ≡ w.working
Undone P w panicked w' = Unit

-- A savepoint whose body fails takes the tables back, and one whose body returns keeps its work.
module _ {A : Type 0} (P : A → World → Type 0) (m : Exec A) (e : Env) (w : World) where
  pub Survives-attempt-savepoint :
      ((w₀ : World) → w.aborted ≡ false → Same w w₀ → w₀.readings ≡ w.readings → Ensures P m e w₀)
      → CommitsNothing m
      → Survives
          (λ r w'. (w'.committed ≡ w.committed) × Undone P w r w')
          (attempt (savepoint m))
          e
          w
  unfolding attempt savepoint
  Survives-attempt-savepoint h nothing = record {
    post = elim (Bool-cases (e.fails w.statements || w.aborted)) [
      | inl stopped ↦ rw stopped (λ alive. cc)
      | inr going ↦ rw going (
          released (ground (arith, going)) (m e (Store.counted w))
            (h (Store.counted w) (ground (arith, going))
              (record { committed = refl; working = refl }) refl).post
            (nothing.at e (Store.counted w)))
    ];
  }
    where
      released :
          w.aborted ≡ false
          → (r : Result A × World) → Post P r
          → r.1.committed ≡ w.committed
          → let r' = Store.release e w.working r in
            r'.1.aborted ≡ false
            → (w.aborted ≡ false)
              × Post
                  (λ x w'. (w'.committed ≡ w.committed) × Undone P w x w')
                  (Store.attempted r'.0, r'.1)
      released alive₀ (ok a, w₁) p c alive = (alive₀, (c, p))
      released alive₀ (err x, w₁) p c alive = (alive₀, restored (e.fails w₁.statements) c alive)
        where
          restored :
              (b : Bool)
              → w₁.committed ≡ w.committed
              → let w₂ : World =
                  if b
                  then record (Store.counted w₁) { aborted = true }
                  else record (Store.counted w₁) { working = w.working; aborted = false } in
                w₂.aborted ≡ false → (w₂.committed ≡ w.committed) × (w₂.working ≡ w.working)
          restored true c alive = cc
          restored false c alive = (c, refl)
      released alive₀ (panicked, w₁) p c alive = (alive₀, tt)

-- The same after a quiet guard.
module _ {A : Type 0} (P : A → World → Type 0) (m : Exec A) (e : Env) (w : World) where
  pub Survives-attempt_guarded :
      {B : Type 0} (guard : Exec B)
      → Quiet guard
      → Still guard
      → ((w₀ : World) → Same w w₀ → w₀.readings ≡ w.readings → Ensures P m e w₀)
      → CommitsNothing m
      → Survives
          (λ r w'. (w'.committed ≡ w.committed) × Undone P w r w')
          (attempt (guard >>= λ _. savepoint m))
          e
          w
  unfolding attempt ◌>>=◌
  Survives-attempt_guarded {B} guard quietly unread h nothing = record {
    post = go (guard e w) (unread.at e w) (quietly.at e w);
  }
    where
      go :
          (r : Result B × World)
          → r.1.readings ≡ w.readings
          → (r.1.aborted ≡ false → (w.aborted ≡ false) × Same w r.1)
          → let r' = Store.continue r.0 (λ _. savepoint m) e r.1 in
            r'.1.aborted ≡ false
            → (w.aborted ≡ false)
              × Post
                  (λ x w'. (w'.committed ≡ w.committed) × Undone P w x w')
                  (Store.attempted r'.0, r'.1)
      go (ok b, w₁) t₁ q alive =
          let (alive₁, p) =
            (Survives-attempt-savepoint P m e w₁
                (λ w₀ alive₁ s t₀. h w₀ (Same-then (q alive₁).1 s) (t₀ ∙ t₁)) nothing).post
              alive in
          let (alive₀, same) = q alive₁ in (alive₀, moved same (savepoint m e w₁) p)
        where
          moved :
              Same w w₁
              → (x : Result A × World)
              → Post
                  (λ y w'. (w'.committed ≡ w₁.committed) × Undone P w₁ y w')
                  (Store.attempted x.0, x.1)
              → Post
                  (λ y w'. (w'.committed ≡ w.committed) × Undone P w y w')
                  (Store.attempted x.0, x.1)
          moved same (ok a, w₂) (c, p) = (c ∙ same.committed, p)
          moved same (err x, w₂) (c, p) = (c ∙ same.committed, p ∙ same.working)
          moved same (panicked, w₂) p = tt
      go (err x, w₁) t₁ q alive = let (alive₀, s) = q alive in (alive₀, (s.committed, s.working))
      go (panicked, w₁) t₁ q alive = ((q alive).0, tt)

-- A transaction that returns has not been aborted by its body.
module _ {A : Type 0} {P : A → World → Type 0} {Q : A → World → Type 0} (m : Exec A) {e : Env}
    {w : World} where
  pub Survives-transaction :
      ((w₀ : World) → Begun w w₀ → Survives P m e w₀)
      → ((a : A) (w₁ w' : World) → P a w₁ → w'.committed ≡ w₁.working → Q a w')
      → Ensures Q (transaction m) e w
  unfolding transaction
  Survives-transaction h k = record { post = go (e.fails w.statements) }
    where
      begun : World
      begun = record (Store.counted w) { working = w.committed; aborted = false }

      finished :
          (r : Result A × World)
          → (r.1.aborted ≡ false → (begun.aborted ≡ false) × Post P r)
          → Post Q (Store.finish e r)
      finished (ok a, w₁) p = elim (Bool-cases (e.fails w₁.statements || w₁.aborted)) [
        | inl refused ↦ rw refused tt
        | inr going ↦ rw going (k a w₁ _ (p (ground (arith, going))).1 refl)
      ]
      finished (err x, w₁) p = tt
      finished (panicked, w₁) p = tt

      go :
          (b : Bool)
          → Post Q (
              if b
              then (err Store.statement_failed, Store.counted w)
              else Store.finish e (m e begun))
      go true = tt
      go false =
          finished (m e begun)
            (h begun
              (record { committed = refl; working = refl; readings = refl; numbers = refl })).post
