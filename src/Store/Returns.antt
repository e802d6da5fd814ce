-- ===== src/Store/Returns.antt =====
-- Actions that do return: one rule for each way to build an action, when no statement fails.
use gsb_salak_backend.Prelude.{ℕ, suc, ◌≡◌, ◌∙◌, refl, Bool, false, Option, none, some}
use gsb_salak_backend.Apperror.{Error}
use gsb_salak_backend.Store
use gsb_salak_backend.Store.{
  Db, Env, World, Result, ok, err, panicked, Exec, pure, ◌>>=◌, raise_if, map_err, Handle, ambient,
  tx, read, first, write, now, fresh_id, transaction,
}
use gsb_salak_backend.Store.Rules.{Wrote}

-- No statement fails.
abbrev pub IsHealthy : Env → Type 0
IsHealthy e = (n : ℕ) → e.fails n ≡ false

-- The action returns a value, and `Q` holds of it and of the world afterwards, in which the open
-- transaction is not aborted.
pub record Returns {A : Type 0} (Q : A → World → Type 0) (m : Exec A) (e : Env) (w : World)
    : Type 0 where
  pub value : A
  pub after : World
  pub runs : m e w ≡ (ok value, after)
  pub alive : after.aborted ≡ false
  pub post : Q value after

module _ {A B : Type 0} {P : A → World → Type 0} {Q : B → World → Type 0} {m : Exec A}
    {f : A → Exec B} {e : Env} {w : World} where
  pub Returns-bind :
      Returns P m e w
      → ((a : A) (w' : World) → w'.aborted ≡ false → P a w' → Returns Q (f a) e w')
      → Returns Q (m >>= f) e w
  unfolding ◌>>=◌
  Returns-bind h k =
      let next = k h.value h.after h.alive h.post in
      record {
        value = next.value;
        after = next.after;
        runs = rw h.runs next.runs;
        alive = next.alive;
        post = next.post;
      }

module _ {A : Type 0} {Q : A → World → Type 0} {e : Env} {w : World} where
  pub Returns-pure : (a : A) → w.aborted ≡ false → Q a w → Returns Q (pure a) e w
  unfolding pure
  Returns-pure a alive h = record { value = a; after = w; runs = refl; alive = alive; post = h }

  pub Returns-map_err :
      (f : Error → Error) (m : Exec A) → Returns Q m e w → Returns Q (map_err f m) e w
  unfolding map_err
  Returns-map_err f m h = record {
    value = h.value;
    after = h.after;
    runs = rw h.runs refl;
    alive = h.alive;
    post = h.post;
  }

module _ (e : Env) (w : World) (healthy : IsHealthy e) (alive : w.aborted ≡ false) where
  pub Returns-raise_if :
      (b : Bool) (x : Error) → b ≡ false → Returns (λ _ w'. Wrote w w' w.working) (raise_if b x) e w
  unfolding raise_if
  Returns-raise_if b x p = record {
    value = tt;
    after = w;
    runs = rw p refl;
    alive = alive;
    post = record { committed = refl; working = refl };
  }

  pub Returns-read :
      {A : Type 0} (h : Handle) (f : Db → A)
      → Returns (λ a w'. (a ≡ f (Store.view h w)) × Wrote w w' w.working) (read h f) e w
  unfolding read Store.execute
  Returns-read ambient f = record {
    value = f w.committed;
    after = Store.counted w;
    runs = rw (healthy w.statements) refl;
    alive = alive;
    post = (refl, record { committed = refl; working = refl });
  }
  Returns-read tx f = record {
    value = f w.working;
    after = Store.counted w;
    runs = rw (healthy w.statements) (rw alive refl);
    alive = alive;
    post = (refl, record { committed = refl; working = refl });
  }

  pub Returns-first :
      {A : Type 0} (h : Handle) (f : Db → Option A) (a : A)
      → f (Store.view h w) ≡ some a
      → Returns (λ b w'. (b ≡ a) × Wrote w w' w.working) (first h f) e w
  unfolding first Store.or_not_found
  Returns-first h f a p = Returns-bind (Returns-read h f) λ o w' alive' (q, s). record {
    value = a;
    after = w';
    runs = rw (q ∙ p) refl;
    alive = alive';
    post = (refl, s);
  }

  pub Returns-write :
      (c : Db → Option Error) (f : Db → Db)
      → c w.working ≡ none
      → Returns (λ _ w'. Wrote w w' (f w.working)) (write tx c f) e w
  unfolding write Store.execute
  Returns-write c f p = record {
    value = tt;
    after = record (Store.counted w) { working = f w.working };
    runs = rw (healthy w.statements) (rw alive (rw p refl));
    alive = alive;
    post = record { committed = refl; working = refl };
  }

module _ (e : Env) (w : World) (alive : w.aborted ≡ false) where
  pub Returns-now : Returns (λ t w'. (t ≡ e.clock w.readings) × Wrote w w' w.working) now e w
  unfolding now
  Returns-now = record {
    value = e.clock w.readings;
    after = record w { readings = suc w.readings };
    runs = refl;
    alive = alive;
    post = (refl, record { committed = refl; working = refl });
  }

  pub Returns-fresh_id :
      Returns (λ i w'. (i ≡ e.new_id w.issued) × Wrote w w' w.working) fresh_id e w
  unfolding fresh_id
  Returns-fresh_id = record {
    value = e.new_id w.issued;
    after = record w { issued = suc w.issued };
    runs = refl;
    alive = alive;
    post = (refl, record { committed = refl; working = refl });
  }

module _ {A : Type 0} {P : A → World → Type 0} (m : Exec A) (e : Env) (w : World) where
  -- A body that returns is committed.
  pub Returns-transaction :
      IsHealthy e
      → ((w₀ : World)
          → w₀.committed ≡ w.committed
          → w₀.working ≡ w.committed
          → w₀.aborted ≡ false
          → Returns P m e w₀)
      → Returns (λ _ _. Unit) (transaction m) e w
  unfolding transaction
  Returns-transaction healthy h =
      let begun : World = record (Store.counted w) { working = w.committed; aborted = false } in
      let r = h begun refl refl refl in
      record {
        value = r.value;
        after = record (Store.counted r.after) { committed = r.after.working };
        runs =
            rw (healthy w.statements)
              (rw r.runs (rw (healthy r.after.statements) (rw r.alive refl)));
        alive = r.alive;
        post = tt;
      }
