-- ===== src/Orchestrator/Run.antt =====
-- crates/daimon-orchestrator/src/service.rs, `run_plan`: the execution loop and the compensation pass.
pub mod Rounds
pub mod Total
pub mod Order
pub mod Success
pub mod Rerun
use daimon.Common.{
  ℕ, zero, suc, Bool, true, false, ◌&&◌, ◌||◌, Option, none, some, List, [], ◌∷◌, ◌++◌, any, all,
  set, get_elem?, length, reverse, if◌then◌else◌, ◌==◌,
}
use daimon.Common.Text.{Text, codes}
use daimon.Common.Result.{Result, ok, err}
use daimon.Common.Json.{Json, Semver}
use daimon.Runtime.Dispatcher.{Bus}
use daimon.Orchestrator.Plan.{
  Error, PlanStatus, plan_succeeded, plan_failed, Step, StepStatus, pending, running, succeeded,
  failed, skipped, compensated,
}
use daimon.Orchestrator.Store.{
  Database, World, start_plan, list_steps, set_step_status, finish_plan,
}
use daimon.Orchestrator.Dispatch.{dispatch_step, compensate_step}

abbrev pub is_pending : StepStatus → Bool
is_pending pending = true
is_pending _ = false

abbrev pub is_unfinished : StepStatus → Bool
is_unfinished pending = true
is_unfinished running = true
is_unfinished _ = false

-- `done.contains`, of a set of ids.
abbrev pub member : ℕ → List ℕ → Bool
member d done = any (λ x. x == d) done

-- The local variables of the loop.
pub record LoopState (J : Type 0) : Type 0 where
  pub steps : List (Step J)
  pub done : List ℕ
  pub succeeded_order : List ℕ
  pub failed_flag : Bool

module _ {J : Type 0} where
  unfoldable pub runnable : List ℕ → Step J → Bool
  runnable done s = is_pending s.status && all (λ d. member d done) s.depends_on

  -- `position` with the item at the position.
  unfoldable pub find_runnable : List ℕ → List (Step J) → Option (ℕ × Step J)
  unfolding runnable
  find_runnable done [] = none
  find_runnable done (s ∷ ss) =
      let later = find_runnable done ss in
      if runnable done s
      then some (0, s)
      else elim later [ none ↦ none | some (i, t) ↦ some (suc i, t) ]

  unfoldable pub with_status : StepStatus → Option J → Step J → Step J
  with_status st r s = record s { status = st; result = r }

  -- No step is runnable: the loop stops, and fails if a step is still open.
  unfoldable pub stuck : LoopState J → LoopState J
  stuck l = record l { failed_flag = l.failed_flag || any (λ s. is_unfinished s.status) l.steps }

  unfoldable pub mark_running : ℕ → Step J → LoopState J → LoopState J
  mark_running i s l = record l { steps = set l.steps i (record s { status = running }) }

  unfoldable pub mark_succeeded : ℕ → Step J → J → LoopState J → LoopState J
  mark_succeeded i s result l = record l {
    steps = set l.steps i (record s { status = succeeded; result = some result });
    done = l.done ++ s.id ∷ [];
    succeeded_order = l.succeeded_order ++ i ∷ [];
  }

  unfoldable pub mark_failed : ℕ → Step J → LoopState J → LoopState J
  mark_failed i s l = record l {
    steps = set l.steps i (record s { status = failed });
    failed_flag = true;
  }

  abbrev pub init : List (Step J) → LoopState J
  init steps = record { steps = steps; done = []; succeeded_order = []; failed_flag = false }

module _ (json : Json) (semver : Semver) (db : Database) (bus : Bus json semver)
    (show_duration : ℕ → Text) (show_error : Error → Text) where
  abbrev pub Wd : Type 0
  Wd = World json semver

  abbrev pub St : Type 0
  St = Step json.Value

  abbrev pub Ls : Type 0
  Ls = LoopState json.Value

  -- What one round of the loop leads to.
  pub data Progress : Type 0 where
    continued : Ls → Wd → Progress
    broke : Ls → Wd → Progress
    aborted : Error → Wd → Progress

  -- The round, once the step's reply is there.
  unfoldable pub settle_step : Ls → ℕ → St → Result json.Value Error × Wd → Progress
  unfolding set_step_status
  settle_step l i s (ok result, w) =
      let (r, w') = set_step_status json semver db s.id succeeded (some result) false w in
      elim r [ err e ↦ aborted e w' | ok u ↦ continued (mark_succeeded i s result l) w' ]
  settle_step l i s (err e, w) =
      let detail = json.object ((codes "error", json.string (show_error e)) ∷ []) in
      let (r, w') = set_step_status json semver db s.id failed (some detail) false w in
      elim r [ err e' ↦ aborted e' w' | ok u ↦ broke (mark_failed i s l) w' ]

  unfoldable pub run_step : Ls → ℕ → St → Wd → Progress
  unfolding settle_step set_step_status dispatch_step
  run_step l i s w =
      let (r, w') = set_step_status json semver db s.id running none true w in
      elim r [
        | err e ↦ aborted e w'
        | ok u ↦
            settle_step (mark_running i s l) i s
              (dispatch_step json semver db bus show_duration s w')
      ]

  unfoldable pub round : Ls → Wd → Progress
  unfolding find_runnable run_step stuck
  round l w = elim (find_runnable l.done l.steps) [
    | none ↦ broke (stuck l) w
    | some (i, s) ↦ run_step l i s w
  ]

  -- The `loop`; `none` means that the fuel ran out.
  unfoldable pub run_loop : ℕ → Ls → Wd → Option (Result Ls Error × Wd)
  unfolding round
  run_loop zero l w = none
  run_loop (suc fuel) l w = elim (round l w) [
    | continued l' w' ↦ run_loop fuel l' w'
    | broke l' w' ↦ some (ok l', w')
    | aborted e w' ↦ some (err e, w')
  ]

  -- One turn of the compensation pass: an error is logged and the pass goes on.
  unfoldable pub compensate_at : ℕ → Ls × Wd → Ls × Wd
  unfolding compensate_step
  compensate_at i (l, w) = elim (get_elem? l.steps i) [
    | none ↦ (l, w)
    | some s ↦
        let (r, w') = compensate_step json semver db bus show_duration s w in
        (
          elim r [
            | ok b ↦
                (if b
                  then record l { steps = set l.steps i (record s { status = compensated }) }
                  else l)
            | err e ↦ l
          ],
          w',
        )
  ]

  unfoldable pub compensate_all : List ℕ → Ls × Wd → Ls × Wd
  unfolding compensate_at
  compensate_all [] x = x
  compensate_all (i ∷ is) x = compensate_all is (compensate_at i x)

  unfoldable pub roll_back : Ls → Wd → Ls × Wd
  unfolding compensate_all
  roll_back l w =
      if l.failed_flag then compensate_all (reverse l.succeeded_order) (l, w) else (l, w)

  abbrev pub final_status : Ls → PlanStatus
  final_status l = if l.failed_flag then plan_failed else plan_succeeded

  abbrev pub Outcome : Type 0
  Outcome = Option (Result PlanStatus Error × Wd)

  unfoldable pub finish_with : ℕ → PlanStatus → Wd → Result PlanStatus Error × Wd
  unfolding finish_plan
  finish_with plan_id status w =
      let (r, w') = finish_plan json semver db plan_id status w in
      (elim r [ err e ↦ err e | ok u ↦ ok status ], w')

  unfoldable pub conclude : ℕ → Option (Result Ls Error × Wd) → Outcome
  unfolding roll_back finish_with
  conclude plan_id none = none
  conclude plan_id (some (err e, w)) = some (err e, w)
  conclude plan_id (some (ok l, w)) =
      let (l', w') = roll_back l w in some (finish_with plan_id (final_status l) w')

  unfoldable pub run_steps : ℕ → Result (List St) Error × Wd → Outcome
  unfolding run_loop conclude
  run_steps plan_id (err e, w) = some (err e, w)
  run_steps plan_id (ok [], w) = some (finish_with plan_id plan_succeeded w)
  run_steps plan_id (ok (s ∷ ss), w) =
      conclude plan_id (run_loop (suc (length (s ∷ ss))) (init (s ∷ ss)) w)

  unfoldable pub run_plan : ℕ → Wd → Outcome
  unfolding start_plan list_steps run_steps
  run_plan plan_id w =
      let (r, w') = start_plan json semver db plan_id w in
      elim r [
        | err e ↦ some (err e, w')
        | ok u ↦ run_steps plan_id (list_steps json semver db plan_id w')
      ]
