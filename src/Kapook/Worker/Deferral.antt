-- ===== src/Kapook/Worker/Deferral.antt =====
-- The steps of a goal for which nothing was bought.
use gsb_salak_backend.Prelude.{◌≡◌, ◌∙◌, refl, ap, true, false, some}
use gsb_salak_backend.Apperror.{Error, is_draw_day_error}
use gsb_salak_backend.Domain.{Goal}
use gsb_salak_backend.Store
use gsb_salak_backend.Store.{Env, World, Result, ok, err, panicked, Exec, attempt, map_err, ◌>>=◌}
use gsb_salak_backend.Store.Rules.{Same, Same-then, Ensures, Ensures-map_err, Ensures-mono}
use gsb_salak_backend.Store.Frames.{Ensures-Keeps}
use gsb_salak_backend.Store.Quiet.{Quiet, Quiet-map_err}
use gsb_salak_backend.Store.Survives.{
  Survives, Alive, Survives-pure, Survives-bind, Survives-attempt, Survives-now,
  Survives-attempt-write, Survives-attempt_ran, Survives-attempt_annotated_write,
}
use gsb_salak_backend.Salak.Repository.{product_at}
use gsb_salak_backend.Salak.Service.{truncate_to_date}
use gsb_salak_backend.Salak.Service.Rules.{IsFirstFree, next_available_date-Ensures}
use gsb_salak_backend.Purchase.Rules.{get_product-Still, get_product-Ensures}
use gsb_salak_backend.Kapook.Goals.{
  update_goal, updated_goal_check, set_goal, deferred, failed_attempt, set_auto_purchase_deferral,
  record_auto_purchase_failure,
}
use gsb_salak_backend.Kapook.Worker.Quiet.{get_product-Quiet, next_available_date-Quiet}
use gsb_salak_backend.Kapook.Worker.Steps.{
  PurchaseRefused, Blocked, no_product, no_free_date, GoalStep, put_off, noted,
}
use gsb_salak_backend.Kapook.Worker.{GoalOutcome, error_text, fail, or_fail, defer_goal}

-- An annotated error is that of the call.
map_err-err :
    {A : Type 0} (f : Error → Error) (m : Exec A) {e : Env} {w w' : World} {x : Error}
    → map_err f m e w ≡ (err x, w')
    → (z : Error) × (m e w ≡ (err z, w')) × (x ≡ f z)
unfolding map_err
map_err-err {A} f m {e} {w} {w'} {x} h = go (m e w) refl h
  where
    go :
        (r : Result A × World)
        → m e w ≡ r
        → ◌≡◌ {A = Result A × World} (Store.rescue f r.0, r.1) (err x, w')
        → (z : Error) × (m e w ≡ (err z, w')) × (x ≡ f z)
    go (ok a, w₁) ran p = cc
    go (err z, w₁) ran p = (z, cc, cc)
    go (panicked, w₁) ran p = cc

module _ (g : Goal) (e : Env) (s : World) where
  pub fail-Survives :
      (w : World) (x : Error)
      → Alive w (Same s w)
      → Alive w (Blocked e g s x w)
      → Survives (GoalStep e g s) (fail g x) e w
  unfolding fail record_auto_purchase_failure update_goal
  fail-Survives w x start why = Survives-bind (Survives-now e w) λ t w₁ q.
      Survives-bind (Survives-attempt-write e w₁ _ _) λ _ w₂ q'. Survives-pure _ λ alive.
        let (alive₁, wrote) = q' alive in
        let (alive₀, (reading, kept)) = q alive₁ in
        let a = Same-then (start alive₀) kept in
        noted x w w₂ (why alive₀) (wrote.committed ∙ a.committed) (
          rw reading at
            (wrote.working ∙ ap (set_goal g.id (failed_attempt (error_text x) t)) a.working))

  or_fail-Survives :
      {A : Type 0} (w : World) (r : Result A) (k : A → Exec GoalOutcome)
      → ((x : Error) → r ≡ err x → Alive w (Same s w))
      → ((x : Error) → r ≡ err x → Alive w (Blocked e g s x w))
      → ((a : A) → r ≡ ok a → Survives (GoalStep e g s) (k a) e w)
      → Survives (GoalStep e g s) (or_fail g r k) e w
  unfolding or_fail
  or_fail-Survives w (ok a) k start why h = h a refl
  or_fail-Survives w (err x) k start why h = fail-Survives w x (start x refl) (why x refl)
  or_fail-Survives w panicked k start why h = record { post = λ alive. (alive, tt) }

  -- A quiet attempt that must return.
  pub try-Survives :
      {A : Type 0} (P : A → World → Type 0) (w : World) (f : Error → Error) (m : Exec A)
      (k : A → Exec GoalOutcome)
      → Quiet m
      → Ensures P m e w
      → Alive w (Same s w)
      → ((z : Error) (w' : World) → m e w ≡ (err z, w') → Alive w (Blocked e g s (f z) w'))
      → ((a : A) (w' : World)
          → Alive w' ((w.aborted ≡ false) × Same s w' × P a w')
          → Survives (GoalStep e g s) (k a) e w')
      → Survives (GoalStep e g s) (attempt (map_err f m) >>= λ r. or_fail g r k) e w
  try-Survives P w f m k quietly h start why next =
      Survives-bind
        (Survives-attempt_ran _
          (Survives-attempt P (map_err f m) (Quiet-map_err f m quietly) (Ensures-map_err m f h)))
        λ r w' q.
          or_fail-Survives w' r k
            (λ x failing alive.
              let (alive₀, ((kept, _), _)) = q alive in Same-then (start alive₀) kept)
            (λ x failing alive.
              let (alive₀, (_, ran)) = q alive in
              let (z, ran', named) = map_err-err f m (rw failing at ran) in
              rw named (why z w' ran' alive₀))
            λ a returned. next a w' λ alive.
              let (alive₀, ((kept, known), _)) = q alive in
              (alive₀, Same-then (start alive₀) kept, rw returned at known)

  pub defer_goal-Survives :
      (w : World) (y : Error)
      → Alive w (Same s w)
      → Alive w (PurchaseRefused e g s y w)
      → is_draw_day_error y ≡ true
      → Survives (GoalStep e g s) (defer_goal g) e w
  unfolding defer_goal set_auto_purchase_deferral update_goal
  defer_goal-Survives w y start why drawn =
      try-Survives
        (λ p w'. (product_at g.product_id w.committed ≡ some p) × (w'.readings ≡ w.readings)) w _ _
        _ (get_product-Quiet g.product_id)
        (Ensures-mono
          (Ensures-Keeps (get_product-Still g.product_id) (get_product-Ensures e w g.product_id))
          λ p w' ((found, _, _), unread). (found, unread))
        start (λ z w' ran alive. no_product y z w w' (why alive) drawn ran)
        λ p w₁ q₁.
          let found : Alive w₁ (product_at g.product_id s.committed ≡ some p) =
            λ alive. let (alive₀, _, (row, _)) = q₁ alive in rw (start alive₀).committed at row in
          try-Survives
            (λ u _. IsFirstFree p (truncate_to_date (e.clock w₁.readings)) w₁.committed u) w₁ _ _ _
            (next_available_date-Quiet p) (next_available_date-Ensures e w₁ p)
            (λ alive. let (_, kept, _) = q₁ alive in kept)
            (λ z w' ran alive.
              let (alive₀, kept, (_, unread)) = q₁ alive in
              no_free_date y z p w w₁ w' (why alive₀) drawn (found alive) kept unread ran)
            λ until w₂ q₂.
              Survives-bind
                (Survives-attempt_annotated_write e w₂ _ (updated_goal_check g.id (deferred until))
                  (set_goal g.id (deferred until)))
                λ set w₃ q₃.
                  or_fail-Survives w₃ set _ (λ x failing alive. let (_, (done, _)) = q₃ alive in cc)
                    (λ x failing alive. let (_, (done, _)) = q₃ alive in cc)
                    λ _ _. Survives-pure _ λ alive.
                      let (alive₂, (_, wrote)) = q₃ alive in
                      let (alive₁, kept₂, free) = q₂ alive₂ in
                      let (alive₀, kept₁, (_, unread)) = q₁ alive₁ in
                      put_off y p until w w₃ (why alive₀) drawn (found alive₁)
                        (rw unread at (rw kept₁.committed at free))
                        (wrote.committed ∙ kept₂.committed)
                        (wrote.working ∙ ap (set_goal g.id (deferred until)) kept₂.working)
