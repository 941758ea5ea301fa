-- ===== src/Examples/Plans.antt =====
-- Plans of two steps, created and run, on the bus of Examples/Calls.
use daimon.Common.{ℕ, ◌≡◌, refl, none, some, List, [], ◌∷◌, map}
use daimon.Common.Text.{codes, text_eq}
use daimon.Common.Result.{Result, ok}
use daimon.Runtime.Dispatcher.{dispatch}
use daimon.Orchestrator.Plan.{Error, StepDef, PlanStatus, plan_succeeded, failed, compensated}
use daimon.Orchestrator.Store.{World}
use daimon.Orchestrator.Run.{run_plan, mark_succeeded, mark_running}
use daimon.Orchestrator.Run.Order.{shape}
use daimon.Orchestrator.Run.Total.{run_plan_ends}
use daimon.Orchestrator.Run.Success.{run_plan_succeeded, plan_rows, RanInOrder}
use daimon.Orchestrator.Run.Rerun.{run_plan_rerun}
use daimon.Orchestrator.Create.{create_plan}
use daimon.Orchestrator.Create.Atomic.{IsAtomic, create_plan-IsAtomic}
use daimon.Examples.Calls.{bus, db, show_duration, show_error, step, the_plan, with_steps, ready}
use daimon.Examples.Values.{Value, get, json, semver}

-- Two definitions, the second of which waits for the first and for one that is not there.
abbrev definition : List ℕ → StepDef Value
definition depends_on_index = record {
  capability_name = codes "network.drop";
  capability_version = codes "1";
  target_ref = some (codes "target://r1");
  credential_ref = none;
  params = Value.null;
  depends_on_index = depends_on_index;
}

abbrev definitions : List (StepDef Value)
definitions = definition [] ∷ definition (0 ∷ 9 ∷ []) ∷ []

create_plan-IsAtomic_example :
    IsAtomic json semver db none
      (codes "drop")
      definitions
      ready
      (create_plan json semver db none (codes "drop") definitions ready)
create_plan-IsAtomic_example =
    create_plan-IsAtomic json semver db none (codes "drop") definitions ready

run_plan_ends_example :
    (r : Result PlanStatus Error) × (w : World json semver) × (run_plan json semver db bus
        show_duration show_error 1 ready
      ≡ some (r, w))
run_plan_ends_example = run_plan_ends json semver db bus show_duration show_error 1 ready

abbrev ran : World json semver
ran = elim (run_plan json semver db bus show_duration show_error 1 ready) [
  | none ↦ ready
  | some p ↦ p.1
]

run_plan_succeeded_example :
    RanInOrder json semver db bus show_duration show_error
      (map shape (plan_rows json semver 1 ready.plan_steps))
      ready
      ran
unfolding run_plan dispatch text_eq get mark_succeeded mark_running
run_plan_succeeded_example =
    run_plan_succeeded json semver db bus show_duration show_error 1 ready ran
      ((λ e. refl), ((λ e. refl), tt)) refl

-- The first step failed, and the second, which waits for it, was never run again.
abbrev over : World json semver
over = with_steps (step 10 0 [] failed ∷ step 11 1 (10 ∷ []) compensated ∷ [])

run_plan_rerun_example :
    (w : World json semver) × (run_plan json semver db bus show_duration show_error 1 over
      ≡ some (ok plan_succeeded, w))
run_plan_rerun_example =
    run_plan_rerun json semver db bus show_duration show_error 1 over refl refl refl the_plan refl
      ((λ e. refl), ((λ e. refl), tt))
