-- ===== src/Orchestrator/Store.antt =====
-- crates/daimon-orchestrator/src/service.rs: the statements on `public.plans` and
-- `public.plan_steps`. Postgres is a parameter: which statements fail, and the time of each.
use daimon.Common.{
  ℕ, suc, Bool, true, false, Option, none, some, List, [], ◌∷◌, ◌++◌, map, filter, find,
  if◌then◌else◌, ◌==◌, leb,
}
use daimon.Common.Text.{Text, codes}
use daimon.Common.Result.{Result, ok, err}
use daimon.Common.Json.{Json, Semver}
use daimon.Runtime.Dispatcher.{AgentEnvelope}
use daimon.Orchestrator.Plan.{
  Error, pg, PlanStatus, executing, plan_succeeded, plan_failed, StepStatus, succeeded, failed,
  compensated, Plan, Step,
}

-- crates/daimon-memory/src/service.rs: the typed record that a terminal plan leaves in the memory tier.
pub data TypedBody : Type 0 where
  decision : (title context decision_text rationale : Text) → TypedBody
  incident : (title impact resolution : Text) → TypedBody
  lesson : (title lesson_text : Text) → TypedBody

-- What Postgres does at the n-th statement; how an id prints, and the ids drawn; and whether there is
-- a memory service that takes a record.
pub record Database : Type 0 where
  pub fault : ℕ → Option Error
  pub now : ℕ → ℕ
  pub show_id : ℕ → Text
  pub new_id : ℕ → ℕ
  pub remembers : TypedBody → Bool

module _ (json : Json) (semver : Semver) where
  -- The two tables, the statements and dispatches made so far, what was sent over the bus, and
  -- what was captured in memory.
  pub record World : Type 0 where
    pub plans : List (Plan json.Value)
    pub plan_steps : List (Step json.Value)
    pub statements : ℕ
    pub dispatches : ℕ
    pub sent : List (AgentEnvelope json semver)
    pub captured : List TypedBody

  -- `COALESCE(started_at, now())`.
  abbrev pub coalesce : Option ℕ → ℕ → Option ℕ
  coalesce none now = some now
  coalesce (some t) now = some t

  unfoldable pub start_plan_row : ℕ → ℕ → Plan json.Value → Plan json.Value
  start_plan_row plan_id now p =
      if p.id == plan_id
      then record p { status = executing; started_at = coalesce p.started_at now; updated_at = now }
      else p

  unfoldable pub finish_plan_row : ℕ → PlanStatus → ℕ → Plan json.Value → Plan json.Value
  finish_plan_row plan_id status now p =
      if p.id == plan_id
      then record p { status = status; finished_at = some now; updated_at = now }
      else p

  -- The three UPDATE texts of `set_step_status`.
  unfoldable pub written : StepStatus → json.Value → Bool → ℕ → Step json.Value → Step json.Value
  written status result true now s = record s {
    status = status;
    started_at = coalesce s.started_at now;
  }
  written succeeded result false now s = record s {
    status = succeeded;
    result = some result;
    finished_at = some now;
  }
  written failed result false now s = record s {
    status = failed;
    result = some result;
    finished_at = some now;
  }
  written compensated result false now s = record s {
    status = compensated;
    result = some result;
    finished_at = some now;
  }
  written status result false now s = record s { status = status; result = some result }

  unfoldable pub set_step_row :
      ℕ → StepStatus → json.Value → Bool → ℕ → Step json.Value → Step json.Value
  unfolding written
  set_step_row step_id status result set_started now s =
      if s.id == step_id then written status result set_started now s else s

  abbrev pub or_null : Option json.Value → json.Value
  or_null none = json.null
  or_null (some v) = v

  -- `ORDER BY step_index ASC`, over the rows of one plan.
  unfoldable pub insert_step : Step json.Value → List (Step json.Value) → List (Step json.Value)
  insert_step s [] = s ∷ []
  insert_step s (t ∷ ts) =
      if leb s.step_index t.step_index then s ∷ t ∷ ts else t ∷ insert_step s ts

  unfoldable pub sort_steps : List (Step json.Value) → List (Step json.Value)
  unfolding insert_step
  sort_steps [] = []
  sort_steps (s ∷ ss) = insert_step s (sort_steps ss)

module _ (json : Json) (semver : Semver) (db : Database) where
  abbrev Wd : Type 0
  Wd = World json semver

  abbrev pub unless_fault {ℓ} :
      {A : Type ℓ} → Option Error → Wd → (Wd → Result A Error × Wd) → Result A Error × Wd
  unless_fault (some e) w run = (err e, w)
  unless_fault none w run = run w

  -- A statement that fails counts too.
  abbrev pub attempt {ℓ} : {A : Type ℓ} → Wd → (Wd → Result A Error × Wd) → Result A Error × Wd
  attempt w run =
      unless_fault (db.fault w.statements) (record w { statements = suc w.statements }) run

  unfoldable pub start_plan : ℕ → Wd → Result (Unit {0}) Error × Wd
  unfolding start_plan_row
  start_plan plan_id w = attempt w (λ w'. (
    ok tt,
    record w' { plans = map (start_plan_row json semver plan_id (db.now w.statements)) w'.plans },
  ))

  unfoldable pub list_steps : ℕ → Wd → Result (List (Step json.Value)) Error × Wd
  unfolding sort_steps
  list_steps plan_id w =
      attempt w
        (λ w'. (ok (sort_steps json semver (filter (λ s. s.plan_id == plan_id) w'.plan_steps)), w'))

  unfoldable pub set_step_status :
      ℕ → StepStatus → Option json.Value → Bool → Wd → Result (Unit {0}) Error × Wd
  unfolding set_step_row
  set_step_status step_id status result set_started w = attempt w (λ w'. (
    ok tt,
    record w' {
      plan_steps =
          map
            (set_step_row json semver step_id status (or_null json semver result) set_started
              (db.now w.statements))
            w'.plan_steps;
    },
  ))

  unfoldable pub terminal_record : PlanStatus → ℕ → Text → Option TypedBody
  terminal_record plan_succeeded plan_id intent = some (
      decision (codes "plan completed: " ++ intent) intent (codes "plan completed")
        (codes "plan " ++ (db.show_id plan_id ++ codes " reached terminal state Succeeded")))
  terminal_record plan_failed plan_id intent = some (
      incident (codes "plan failed: " ++ intent) intent (
        codes "plan "
        ++ (db.show_id plan_id
            ++ codes " failed / rolled back (compensation pass ran for succeeded write steps)")))
  terminal_record _ plan_id intent = none

  -- Fail-soft: a memory that takes nothing changes nothing else.
  unfoldable pub capture : Option TypedBody → Wd → Wd
  capture none w = w
  capture (some body) w =
      if db.remembers body then record w { captured = w.captured ++ body ∷ [] } else w

  -- `query_one` on an UPDATE that touches no row is an error.
  unfoldable pub finish_plan : ℕ → PlanStatus → Wd → Result (Unit {0}) Error × Wd
  unfolding finish_plan_row terminal_record capture
  finish_plan plan_id status w = attempt w (λ w'. elim (find (λ p. p.id == plan_id) w'.plans) [
    | none ↦ (err (pg (codes "query returned an unexpected number of rows")), w')
    | some p ↦ (
      ok tt,
      capture (terminal_record status plan_id p.intent) (record w' {
        plans = map (finish_plan_row json semver plan_id status (db.now w.statements)) w'.plans;
      }),
    )
  ])
