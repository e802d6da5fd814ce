-- ===== src/Kapook/Worker/Rules.antt =====
-- What a pass of the worker reports.
use gsb_salak_backend.Prelude.{
  ℕ, zero, suc, ◌≤◌, ◌∙◌, take, ◌+◌, ◌≡◌, refl, Bool, true, false, Bool-cases, inl, inr, Option,
  none, some, List, [], ◌∷◌, length, map, select, arith, if◌then◌else◌,
}
use gsb_salak_backend.Calendar.{Time, instant}
use gsb_salak_backend.Apperror.{Error}
use gsb_salak_backend.Domain.{Uuid, Goal}
use gsb_salak_backend.Store.{Env, World, Db, Result, ok, err, panicked, Exec, tx}
use gsb_salak_backend.Store.Rules.{
  Post, Ensures, Ensures-bind, Ensures-pure, Ensures-mono, Ensures-map_err, Ensures-read,
  Ensures-now, Ensures-ok, Ensures-transaction,
}
use gsb_salak_backend.Apperror.{is_draw_day_error}
use gsb_salak_backend.Salak.Service.{truncate_to_date}
use gsb_salak_backend.Kapook.Goals.{due_goals, claim_due_goals}
use gsb_salak_backend.Kapook.Worker.{
  GoalOutcome, Summary, purchased, deferred, failed, count, fail, or_fail, defer_goal, conclude,
  buy_all, process_goal, process_all, is_claimable, run_body, run_once, find_salak_account,
}

pub Ensures-any : {A : Type 0} (m : Exec A) (e : Env) (w : World) → Ensures (λ _ _. Unit) m e w
Ensures-any {A} m e w = record { post = go (m e w) }
  where
    go : (r : Result A × World) → Post (λ _ _. Unit) r
    go (ok a, w') = tt
    go (err x, w') = tt
    go (panicked, w') = tt

-- The outcome is the goal's.
abbrev IsOf : Goal → GoalOutcome → World → Type 0
IsOf g o w = o.goal_id ≡ g.id

module _ (e : Env) (g : Goal) where
  fail-Ensures : (w : World) (x : Error) → Ensures (IsOf g) (fail g x) e w
  unfolding fail
  fail-Ensures w x =
      Ensures-bind (Ensures-any _ e w)
        λ t w₁ _. Ensures-bind (Ensures-any _ e w₁) λ _ w₂ _. Ensures-pure _ refl

  or_fail-Ensures :
      {A : Type 0} (w : World) (r : Result A) (k : A → Exec GoalOutcome)
      → ((a : A) → Ensures (IsOf g) (k a) e w)
      → Ensures (IsOf g) (or_fail g r k) e w
  unfolding or_fail
  or_fail-Ensures w (ok a) k h = h a
  or_fail-Ensures w (err x) k h = fail-Ensures w x
  or_fail-Ensures w panicked k h = record { post = tt }

  defer_goal-Ensures : (w : World) → Ensures (IsOf g) (defer_goal g) e w
  unfolding defer_goal
  defer_goal-Ensures w = Ensures-bind (Ensures-any _ e w) λ product w₁ _.
      or_fail-Ensures w₁ product _ λ p. Ensures-bind (Ensures-any _ e w₁) λ date w₂ _.
        or_fail-Ensures w₂ date _ λ until.
          Ensures-bind (Ensures-any _ e w₂)
            λ set w₃ _. or_fail-Ensures w₃ set _ λ _. Ensures-pure _ refl

  conclude-Ensures : {A : Type 0} (w : World) (r : Result A) → Ensures (IsOf g) (conclude g r) e w
  unfolding conclude
  conclude-Ensures w (ok a) = Ensures-pure _ refl
  conclude-Ensures w (err x) = go (is_draw_day_error x)
    where
      go : (b : Bool) → Ensures (IsOf g) (if b then defer_goal g else fail g x) e w
      go true = defer_goal-Ensures w
      go false = fail-Ensures w x
  conclude-Ensures w panicked = record { post = tt }

  buy_all-Ensures :
      (w : World) (user : Uuid) (salak : Option Uuid) → Ensures (IsOf g) (buy_all g user salak) e w
  unfolding buy_all
  buy_all-Ensures w user none = fail-Ensures w _
  buy_all-Ensures w user (some salak) =
      Ensures-bind (Ensures-any _ e w) λ bought w₁ _. conclude-Ensures w₁ bought

  process_goal-Ensures : (w : World) → Ensures (IsOf g) (process_goal g) e w
  unfolding process_goal
  process_goal-Ensures w = Ensures-bind (Ensures-any _ e w) λ kapook w₁ _.
      or_fail-Ensures w₁ kapook _ λ k. Ensures-bind (Ensures-any _ e w₁) λ accounts w₂ _.
        or_fail-Ensures w₂ accounts _
          λ found. buy_all-Ensures w₂ k.user_id (find_salak_account found)

process_all-Ensures :
    (e : Env) (w : World) (gs : List Goal)
    → Ensures
        (λ os _. map (λ o. o.goal_id) os ≡ map (λ g. g.id) (select is_claimable gs))
        (process_all gs)
        e
        w
unfolding process_all
process_all-Ensures e w [] = Ensures-pure [] refl
process_all-Ensures e w (g ∷ gs) = elim (Bool-cases (is_claimable g)) [
  | inl now ↦ rw now (
      Ensures-bind (process_goal-Ensures e g w) λ o w₁ p.
        Ensures-bind (process_all-Ensures e w₁ gs) λ os w₂ q. Ensures-pure _ (rw p (rw q refl)))
  | inr skipped ↦ rw skipped (process_all-Ensures e w gs)
]

counts-sum :
    (os : List GoalOutcome) → count purchased os + count deferred os + count failed os ≡ length os
counts-sum [] = refl
counts-sum (o ∷ os) = ground (arith, counts-sum os)

length-take : {A : Type 0} (n : ℕ) (xs : List A) → length (take n xs) ≤ n
length-take zero xs = omega arith
length-take (suc n) [] = omega arith
length-take (suc n) (x ∷ xs) = omega (arith, length-take n xs)

-- What a pass at the time `t` reports of the tables `d`: it claims the goals that are due, 20 at most, and has one
-- outcome, with the goal's id and in the order of the claim, for each of them that is active and reached; the
-- three counts add up to the number of outcomes.
abbrev pub Reported : ℕ → Time → Db → Summary → Type 0
Reported countdown t d s =
    let gs = due_goals countdown (instant t) (truncate_to_date t) 20 d in
    (s.claimed ≡ length gs)
    × (s.claimed ≤ 20)
    × (map (λ o. o.goal_id) s.results ≡ map (λ g. g.id) (select is_claimable gs))
    × (count purchased s.results + count deferred s.results + count failed s.results
        ≡ length s.results)

run_body-Ensures :
    (e : Env) (w : World) (countdown : ℕ) (t : Time)
    → Ensures (λ s _. Reported countdown t w.working s) (run_body countdown t) e w
unfolding run_body claim_due_goals
run_body-Ensures e w countdown t =
    Ensures-bind (Ensures-map_err _ _ (Ensures-read e w tx _)) λ gs w₁ (q, _).
      Ensures-bind (process_all-Ensures e w₁ gs)
        λ os w₂ p. rw q (Ensures-pure _ (refl, length-take 20 _, rw q at p, counts-sum os))

-- A pass of the worker that returns has claimed the due goals of the committed tables, at the time that the clock
-- reads, and reports on them as `Reported` says.
pub run_once-Reported :
    (e : Env) (w w' : World) (countdown : ℕ) (s : Summary)
    → run_once countdown e w ≡ (ok s, w')
    → Reported countdown (e.clock w.readings) w.committed s
unfolding run_once
run_once-Reported e w w' countdown s returned =
    Ensures-ok {Q = λ s₁ _. Reported countdown (e.clock w.readings) w.committed s₁}
      (Ensures-bind (Ensures-now e w) λ t w₁ (q, same).
        Ensures-transaction _
          (λ w₀ _ begun.
            Ensures-mono (run_body-Ensures e w₀ countdown t)
              λ s₁ w₂ h. rw q at (rw (begun ∙ same.committed) at h))
          λ s₁ w₂ w₃ h _. h)
      returned
