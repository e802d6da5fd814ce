-- ===== src/Kapook/Worker/Pass.antt =====
-- What a pass of the worker does to the tables, goal by goal.
use gsb_salak_backend.Prelude.{
  ℕ, suc, ◌≡◌, ◌∙◌, refl, Bool-cases, inl, inr, true, false, List, [], ◌∷◌,
}
use gsb_salak_backend.Calendar.{Time, instant}
use gsb_salak_backend.Domain.{Goal}
use gsb_salak_backend.Store.{Db, Env, World, ok}
use gsb_salak_backend.Store.Rules.{Ensures-bind, Ensures-ok}
use gsb_salak_backend.Store.Rules.{Same}
use gsb_salak_backend.Store.Frames.{Ensures-tick}
use gsb_salak_backend.Store.Survives.{
  Survives, Survives-pure, Survives-mono, Survives-query, Survives-bind,
}
use gsb_salak_backend.Store.Savepoints.{Survives-transaction}
use gsb_salak_backend.Salak.Service.{truncate_to_date}
use gsb_salak_backend.Kapook.Goals.{claim_due_goals, due_goals}
use gsb_salak_backend.Kapook.Worker.Steps.{GoalStep}
use gsb_salak_backend.Kapook.Worker.Process.{process_goal-Survives}
use gsb_salak_backend.Kapook.Worker.{
  GoalOutcome, Summary, process_all, is_claimable, run_body, run_once,
}

-- The steps for a list of goals, one after the other, each in the world that the one before left.
pub data Pass (e : Env) : List Goal → World → List GoalOutcome → World → Type 0 where
  finished : {w : World} → Pass e [] w [] w
  skipped :
      {g : Goal} {gs : List Goal} {w w' : World} {os : List GoalOutcome}
      → is_claimable g ≡ false
      → Pass e gs w os w'
      → Pass e (g ∷ gs) w os w'
  processed :
      {g : Goal} {gs : List Goal} {w w₁ w' : World} {o : GoalOutcome} {os : List GoalOutcome}
      → is_claimable g ≡ true
      → GoalStep e g w o w₁
      → Pass e gs w₁ os w'
      → Pass e (g ∷ gs) w (o ∷ os) w'

process_all-Survives :
    (gs : List Goal) (e : Env) (w : World)
    → Survives (λ os w'. Pass e gs w os w') (process_all gs) e w
unfolding process_all
process_all-Survives [] e w = Survives-pure [] λ alive. finished
process_all-Survives (g ∷ gs) e w = elim (Bool-cases (is_claimable g)) [
  | inl claimable ↦ rw claimable (
      Survives-bind (process_goal-Survives g e w) λ o w₁ q₁.
        Survives-bind (process_all-Survives gs e w₁) λ os w₂ q₂. Survives-pure _ λ alive.
          let (alive₁, pass) = q₂ alive in
          let (_, step) = q₁ alive₁ in processed claimable step pass)
  | inr passed_by ↦
      rw passed_by
        (Survives-mono (process_all-Survives gs e w) λ os w' pass. skipped passed_by pass)
]

-- A pass whose steps start in a transaction on the tables `d`, with the reading number `n` of the clock, for the
-- goals `gs`, and whose last step leaves the tables `d'`.
abbrev pub PassFrom : Env → List Goal → Db → ℕ → List GoalOutcome → Db → Type 0
PassFrom e gs d n os d' =
    (w₁ : World) × (w₂ : World) × (w₁.committed ≡ d)
    × (w₁.working ≡ d)
    × (w₁.readings ≡ n)
    × Pass e gs w₁ os w₂
    × (d' ≡ w₂.working)

run_body-Survives :
    (e : Env) (w : World) (countdown : ℕ) (t : Time)
    → Survives
        (λ s w'.
          (w₁ : World) × Same w w₁
          × (w₁.readings ≡ w.readings)
          × Pass e
              (due_goals countdown (instant t) (truncate_to_date t) 20 w.working)
              w₁
              s.results
              w')
        (run_body countdown t)
        e
        w
unfolding run_body claim_due_goals
run_body-Survives e w countdown t = Survives-bind (Survives-query e w _ _) λ claimed w₁ q.
    Survives-bind (process_all-Survives claimed e w₁) λ os w₂ q₂. Survives-pure _ λ alive.
      let (alive₁, pass) = q₂ alive in
      let (_, (value, same, unread)) = q alive₁ in (w₁, same, unread, rw value at pass)

-- A pass of the worker that returns has gone through the goals that were due in the committed tables at the
-- clock's reading, 20 at most, in that order, and each that is active and reached has had one step of
-- `GoalStep`, from the world that the one before left: the purchase that `BoughtFromGoal` describes,
-- for all that was available when it was claimed; after a refusal because of a draw day, the deferral
-- to the first free day after the clock's reading; or the note of the error that `Blocked` gives the
-- reason for, and of the time of the clock's reading. The committed tables are those after the last
-- step, and the outcomes those of the steps.
pub run_once-Pass :
    (e : Env) (w w' : World) (countdown : ℕ) (s : Summary)
    → run_once countdown e w ≡ (ok s, w')
    → let t = e.clock w.readings in
      PassFrom e
        (due_goals countdown (instant t) (truncate_to_date t) 20 w.committed)
        w.committed
        (suc w.readings)
        s.results
        w'.committed
unfolding run_once
run_once-Pass e w w' countdown s returned =
    let t₀ = e.clock w.readings in
    let gs = due_goals countdown (instant t₀) (truncate_to_date t₀) 20 w.committed in
    Ensures-ok {Q = λ s₁ w₁. PassFrom e gs w.committed (suc w.readings) s₁.results w₁.committed}
      (Ensures-bind (Ensures-tick e w) λ t w₁ ((reading, same), ticked).
        Survives-transaction
          {P = λ s₁ w₂. PassFrom e gs w.committed (suc w.readings) s₁.results w₂.working} _
          (λ w₀ begun.
            Survives-mono (run_body-Survives e w₀ countdown t) λ s₁ w₂ (w₃, kept, unread, pass). (
              w₃,
              w₂,
              kept.committed ∙ begun.committed ∙ same.committed,
              kept.working ∙ begun.working ∙ same.committed,
              unread ∙ begun.readings ∙ ticked,
              rw reading at (rw (begun.working ∙ same.committed) at pass),
              refl,
            ))
          λ s₁ w₂ w₃ h committed.
            let (a, b, p, q, r, pass, last) = h in (a, b, p, q, r, pass, committed ∙ last))
      returned
