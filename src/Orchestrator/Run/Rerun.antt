-- ===== src/Orchestrator/Run/Rerun.antt =====
-- Running a plan whose steps have all ended before.
use native.Mathlib.Omega.{arith}
use mathlib.Core.Path.{subst}
use daimon.Common.{
  ℕ, suc, ◌≡◌, refl, sym, ap, ◌∙◌, inl, inr, false, none, some, List, [], ◌∷◌, map, any, length,
  All, Bool-cases, find, ◌==◌,
}
use daimon.Common.Text.{Text}
use daimon.Common.Result.{ok, err}
use daimon.Common.Json.{Json, Semver}
use daimon.Runtime.Dispatcher.{Bus}
use daimon.Orchestrator.Plan.{
  Error, PlanStatus, plan_succeeded, Plan, Step, StepStatus, pending, running, succeeded, failed,
  skipped, compensated,
}
use daimon.Orchestrator.Store.{Database, World, start_plan, list_steps, finish_plan, start_plan_row}
use daimon.Orchestrator.Run.{
  is_pending, is_unfinished, runnable, find_runnable, init, stuck, round, run_loop, roll_back,
  conclude, finish_with, run_steps, run_plan,
}
use daimon.Orchestrator.Run.Success.{plan_rows, All-plan_rows}

-- The step is neither pending nor running.
abbrev pub IsEnded : {J : Type 0} → Step J → Type 0
IsEnded s = is_unfinished s.status ≡ false

ended_not_pending : (st : StepStatus) → is_unfinished st ≡ false → is_pending st ≡ false
ended_not_pending pending h = absurd (ground (arith, h))
ended_not_pending running h = refl
ended_not_pending succeeded h = refl
ended_not_pending failed h = refl
ended_not_pending skipped h = refl
ended_not_pending compensated h = refl

module _ {J : Type 0} where
  find_runnable-ended :
      (done : List ℕ) (steps : List (Step J)) → All IsEnded steps → find_runnable done steps ≡ none
  unfolding find_runnable runnable
  find_runnable-ended done [] a = refl
  find_runnable-ended done (s ∷ ss) a =
      rw (find_runnable-ended done ss a.1, ended_not_pending s.status a.0) refl

  any-ended :
      (steps : List (Step J)) → All IsEnded steps → any (λ s. is_unfinished s.status) steps ≡ false
  any-ended [] a = refl
  any-ended (s ∷ ss) a = rw (a.0, any-ended ss a.1) refl

  stuck-ended : (steps : List (Step J)) → All IsEnded steps → stuck (init steps) ≡ init steps
  unfolding stuck
  stuck-ended steps a = ap (λ b. record (init steps) { failed_flag = b }) (any-ended steps a)

module _ (json : Json) (semver : Semver) (db : Database) (bus : Bus json semver)
    (show_duration : ℕ → Text) (show_error : Error → Text) where
  run_loop-ended :
      (fuel : ℕ) (steps : List (Step json.Value)) (w : World json semver)
      → All IsEnded steps
      → run_loop json semver db bus show_duration show_error (suc fuel) (init steps) w
        ≡ some (ok (stuck (init steps)), w)
  unfolding run_loop round
  run_loop-ended fuel steps w a = rw (find_runnable-ended [] steps a) refl

  conclude-unfailed :
      (plan_id : ℕ) (steps : List (Step json.Value)) (w : World json semver)
      → conclude json semver db bus show_duration show_error plan_id (some (ok (init steps), w))
        ≡ some (finish_with json semver db bus show_duration show_error plan_id plan_succeeded w)
  unfolding conclude roll_back
  conclude-unfailed plan_id steps w = refl

  run_steps-ended :
      (plan_id : ℕ) (steps : List (Step json.Value)) (w : World json semver)
      → All IsEnded steps
      → run_steps json semver db bus show_duration show_error plan_id (ok steps, w)
        ≡ some (finish_with json semver db bus show_duration show_error plan_id plan_succeeded w)
  unfolding run_steps
  run_steps-ended plan_id [] w a = refl
  run_steps-ended plan_id (s ∷ ss) w a =
      ap (conclude json semver db bus show_duration show_error plan_id) (
        run_loop-ended (length (s ∷ ss)) (s ∷ ss) w a
        ∙ ap (λ l. some (ok l, w)) (stuck-ended (s ∷ ss) a))
      ∙ conclude-unfailed plan_id (s ∷ ss) w

  finish_with_found :
      (plan_id : ℕ) (status : PlanStatus) (w : World json semver) (p : Plan json.Value)
      → db.fault w.statements ≡ none
      → find (λ p. p.id == plan_id) w.plans ≡ some p
      → (finish_with json semver db bus show_duration show_error plan_id status w).0 ≡ ok status
  unfolding finish_with finish_plan
  finish_with_found plan_id status w p e f = ground (arith, e, f)

  find-start :
      (plan_id now : ℕ) (ps : List (Plan json.Value)) (p : Plan json.Value)
      → find (λ p. p.id == plan_id) ps ≡ some p
      → (q : Plan json.Value) × (find
            (λ p. p.id == plan_id)
            (map (start_plan_row json semver plan_id now) ps)
          ≡ some q)
  unfolding start_plan_row
  find-start plan_id now [] p h = absurd (ground (arith, h))
  find-start plan_id now (x ∷ ps) p h = elim (Bool-cases (x.id == plan_id)) [
    | inl e ↦ (start_plan_row json semver plan_id now x, rw (e, e) refl)
    | inr e ↦ let (q, f) = find-start plan_id now ps p (rw e at h) in (q, rw (e, e) f)
  ]

  Found : ℕ → World json semver → Type 0
  Found plan_id w = (p : Plan json.Value) × (find (λ p. p.id == plan_id) w.plans ≡ some p)

  start_plan_runs :
      (plan_id : ℕ) (w : World json semver)
      → db.fault w.statements ≡ none
      → Found plan_id w
      → (v : World json semver) × (start_plan json semver db plan_id w ≡ (ok tt, v))
        × Found plan_id v
        × (v.plan_steps ≡ w.plan_steps)
        × (v.statements ≡ suc w.statements)
  unfolding start_plan Found
  start_plan_runs plan_id w e (p, f) = (
    record w {
      statements = suc w.statements;
      plans = map (start_plan_row json semver plan_id (db.now w.statements)) w.plans;
    },
    rw e refl,
    find-start plan_id (db.now w.statements) w.plans p f,
    refl,
    refl,
  )

  list_steps_runs :
      (plan_id : ℕ) (w : World json semver)
      → db.fault w.statements ≡ none
      → list_steps json semver db plan_id w ≡ (
        ok (plan_rows json semver plan_id w.plan_steps),
        record w { statements = suc w.statements },
      )
  unfolding list_steps
  list_steps_runs plan_id w e = rw e refl

  rerun_steps :
      (plan_id : ℕ) (v : World json semver)
      → db.fault v.statements ≡ none
      → db.fault (suc v.statements) ≡ none
      → Found plan_id v
      → All (λ s. s.plan_id ≡ plan_id → IsEnded s) v.plan_steps
      → (w' : World json semver) × (run_steps json semver db bus show_duration show_error plan_id
            (list_steps json semver db plan_id v)
          ≡ some (ok plan_succeeded, w'))
  unfolding Found
  rerun_steps plan_id v e f (p, found) a =
      let u : World json semver = record v { statements = suc v.statements } in
      let x = finish_with json semver db bus show_duration show_error plan_id plan_succeeded u in
      (
        x.1,
        ap (run_steps json semver db bus show_duration show_error plan_id)
              (list_steps_runs plan_id v e)
            ∙ run_steps-ended plan_id (plan_rows json semver plan_id v.plan_steps) u
                (All-plan_rows json semver plan_id IsEnded v.plan_steps a)
            ∙ ap (λ r. some (r, x.1)) (finish_with_found plan_id plan_succeeded u p f found),
      )

  -- Running a plan again whose steps have all ended reports it as succeeded, also where steps have
  -- failed: of a plan that the table holds, with no step pending or running, `run_plan` returns
  -- `Succeeded` when its three statements do not fail.
  pub run_plan_rerun :
      (plan_id : ℕ) (w : World json semver)
      → db.fault w.statements ≡ none
      → db.fault (suc w.statements) ≡ none
      → db.fault (suc (suc w.statements)) ≡ none
      → (p : Plan json.Value) → find (λ p. p.id == plan_id) w.plans ≡ some p
      → All (λ s. s.plan_id ≡ plan_id → IsEnded s) w.plan_steps
      → (w' : World json semver) × (run_plan json semver db bus show_duration show_error plan_id w
          ≡ some (ok plan_succeeded, w'))
  unfolding run_plan Found
  run_plan_rerun plan_id w e f g p found a =
      let (v, started, held, same, counted) = start_plan_runs plan_id w e (p, found) in
      subst
        (λ x.
          (w' : World json semver) × (elim x.0 [
            | err e ↦ some (err e, x.1)
            | ok u ↦
                run_steps json semver db bus show_duration show_error plan_id
                  (list_steps json semver db plan_id x.1)
          ]
            ≡ some (ok plan_succeeded, w')))
        (sym started)
        (rerun_steps plan_id v (rw counted f) (rw counted g) held
          (subst (All (λ s. s.plan_id ≡ plan_id → IsEnded s)) (sym same) a))
