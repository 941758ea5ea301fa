-- ===== src/Orchestrator/Run/Total.antt =====
-- Termination of `run_plan`, by the number of its pending steps.
use native.Mathlib.Omega.{arith}
use mathlib.Core.Path.{subst}
use daimon.Common.{
  ℕ, zero, suc, ◌≤◌, ◌<◌, ◌≡◌, refl, sym, ap, ◌∙◌, true, false, Option, some, List, [], ◌∷◌, length,
  get_elem?, set, set-set, if◌then◌else◌, &&-elim,
}
use daimon.Common.Text.{Text}
use daimon.Common.Result.{Result, ok, err}
use daimon.Common.Json.{Json, Semver}
use daimon.Runtime.Dispatcher.{Bus}
use daimon.Orchestrator.Plan.{Error, PlanStatus, Step, succeeded}
use daimon.Orchestrator.Store.{Database, World, start_plan, list_steps}
use daimon.Orchestrator.Run.{
  LoopState, is_pending, runnable, find_runnable, mark_running, mark_succeeded, init, run_loop,
  conclude, run_steps, run_plan,
}
use daimon.Orchestrator.Run.Rounds.{find_runnable_sound, run_loop_ends, LoopEnds}

module _ {J : Type 0} where
  unfoldable pub open_count : List (Step J) → ℕ
  open_count [] = 0
  open_count (s ∷ ss) = if is_pending s.status then suc (open_count ss) else open_count ss

  open_count-le-length : (ss : List (Step J)) → open_count ss ≤ length ss
  unfolding open_count
  open_count-le-length [] = omega arith
  open_count-le-length (s ∷ ss) = ground (arith, open_count-le-length ss)

  pub open_count-set :
      (ss : List (Step J)) (i : ℕ) (s v : Step J)
      → get_elem? ss i ≡ some s
      → is_pending s.status ≡ true
      → is_pending v.status ≡ false
      → suc (open_count (set ss i v)) ≡ open_count ss
  unfolding open_count
  open_count-set [] i s v g p q = absurd (ground (arith, g))
  open_count-set (t ∷ ts) zero s v g p q =
      let e : t ≡ s = ground (arith, g) in
      let f : is_pending t.status ≡ true = subst (λ x. is_pending x.status ≡ true) (sym e) p in
      rw (f, q) refl
  open_count-set (t ∷ ts) (suc i) s v g p q = ground (arith, open_count-set ts i s v g p q)

  pub runnable_pending :
      (done : List ℕ) (s : Step J) → runnable done s ≡ true → is_pending s.status ≡ true
  unfolding runnable
  runnable_pending done s h = (&&-elim _ _ h).0

  -- A found step is pending, and succeeds: one step less is open.
  mark_succeeded-falls :
      (l l' : LoopState J) (i : ℕ) (s : Step J) (r : J)
      → find_runnable l.done l.steps ≡ some (i, s)
      → l' ≡ mark_succeeded i s r (mark_running i s l)
      → open_count l'.steps < open_count l.steps
  unfolding mark_succeeded mark_running
  mark_succeeded-falls l l' i s r h e =
      let (g, ok_run) = find_runnable_sound l.done l.steps i s h in
      let v : Step J = record s { status = succeeded; result = some r } in
      let q = open_count-set l.steps i s v g (runnable_pending l.done s ok_run) refl in
      let steps : l'.steps ≡ set l.steps i v = ap (λ x. x.steps) e ∙ set-set l.steps i _ v in
      subst (λ x. open_count x < open_count l.steps) (sym steps) (omega (arith, q))

module _ (json : Json) (semver : Semver) (db : Database) (bus : Bus json semver)
    (show_duration : ℕ → Text) (show_error : Error → Text) where
  run_loop_total :
      (l : LoopState json.Value) (w : World json semver) (fuel : ℕ)
      → length l.steps < fuel
      → LoopEnds json semver db bus show_duration show_error
          (run_loop json semver db bus show_duration show_error fuel l w)
  run_loop_total l w fuel h =
      run_loop_ends json semver db bus show_duration show_error (λ l. open_count l.steps)
        (λ l w l' w' (i, s, r, f, e, d). mark_succeeded-falls l l' i s r f e) fuel l w
        (omega (arith, open_count-le-length l.steps))

  abbrev Ends : Option (Result PlanStatus Error × World json semver) → Type 0
  Ends o = (r : Result PlanStatus Error) × (w : World json semver) × (o ≡ some (r, w))

  conclude-Ends :
      (plan_id : ℕ) (r : Result (LoopState json.Value) Error) (w : World json semver)
      → Ends (conclude json semver db bus show_duration show_error plan_id (some (r, w)))
  unfolding conclude
  conclude-Ends plan_id (err e) w = (err e, w, refl)
  conclude-Ends plan_id (ok l) w = (_, _, refl)

  run_steps-Ends :
      (plan_id : ℕ) (x : Result (List (Step json.Value)) Error × World json semver)
      → Ends (run_steps json semver db bus show_duration show_error plan_id x)
  unfolding run_steps
  run_steps-Ends plan_id (err e, w) = (err e, w, refl)
  run_steps-Ends plan_id (ok [], w) = (_, _, refl)
  run_steps-Ends plan_id (ok (s ∷ ss), w) =
      let (r, w', e) = run_loop_total (init (s ∷ ss)) w (suc (length (s ∷ ss))) (omega arith) in
      rw e (conclude-Ends plan_id r w')

  -- `run_plan` always returns, whatever the bus answers and whichever statements fail.
  pub run_plan_ends :
      (plan_id : ℕ) (w : World json semver)
      → (r : Result PlanStatus Error) × (w' : World json semver) × (run_plan json semver db bus
            show_duration show_error plan_id w
          ≡ some (r, w'))
  unfolding run_plan
  run_plan_ends plan_id w = go (start_plan json semver db plan_id w)
    where
      go :
          (x : Result (Unit {0}) Error × World json semver)
          → Ends (elim x.0 [
            | err e ↦ some (err e, x.1)
            | ok u ↦
                run_steps json semver db bus show_duration show_error plan_id
                  (list_steps json semver db plan_id x.1)
          ])
      go (err e, w') = (err e, w', refl)
      go (ok u, w') = run_steps-Ends plan_id (list_steps json semver db plan_id w')
