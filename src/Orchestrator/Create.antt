-- ===== src/Orchestrator/Create.antt =====
-- crates/daimon-orchestrator/src/service.rs, `create_plan`: a plan and its steps, written in one
-- transaction. The mirror to the graph database comes after the commit, touches no table and fails
-- softly; it is left out. To begin the transaction counts as a part of its first statement.
pub mod Atomic
use daimon.Common.{ℕ, zero, suc, Option, none, some, List, [], ◌∷◌, ◌++◌, length, get_elem?}
use daimon.Common.Text.{Text}
use daimon.Common.Result.{Result, ok, err}
use daimon.Common.Json.{Json, Semver}
use daimon.Orchestrator.Plan.{Error, planning, pending, StepDef, Plan, Step}
use daimon.Orchestrator.Store.{Database, World, attempt}

-- `filter_map` of `step_ids.get`: an index out of range is dropped.
unfoldable pub depends_on : List ℕ → List ℕ → List ℕ
depends_on step_ids [] = []
depends_on step_ids (idx ∷ rest) =
    let more = depends_on step_ids rest in
    elim (get_elem? step_ids idx) [ none ↦ more | some d ↦ d ∷ more ]

module _ (json : Json) (semver : Semver) (db : Database) where
  -- `count` fresh ids, from the n-th on.
  unfoldable pub draw_ids : ℕ → ℕ → List ℕ
  draw_ids n zero = []
  draw_ids n (suc count) = db.new_id n ∷ draw_ids (suc n) count

  abbrev pub new_step : ℕ → List ℕ → ℕ → ℕ → StepDef json.Value → Step json.Value
  unfolding depends_on
  new_step plan_id step_ids id i def = record {
    id = id;
    plan_id = plan_id;
    step_index = i;
    capability_name = def.capability_name;
    capability_version = def.capability_version;
    target_ref = def.target_ref;
    credential_ref = def.credential_ref;
    params = def.params;
    depends_on = depends_on step_ids def.depends_on_index;
    compensating_step_id = none;
    status = pending;
    result = none;
    started_at = none;
    finished_at = none;
  }

  -- The rows of the definitions from the i-th on; `ids` are the ids that are left.
  unfoldable pub new_steps :
      ℕ → List ℕ → List ℕ → ℕ → List (StepDef json.Value) → List (Step json.Value)
  unfolding depends_on
  new_steps plan_id step_ids ids i [] = []
  new_steps plan_id step_ids [] i (def ∷ defs) = []
  new_steps plan_id step_ids (id ∷ ids) i (def ∷ defs) =
      new_step plan_id step_ids id i def ∷ new_steps plan_id step_ids ids (suc i) defs

  abbrev pub Wd : Type 0
  Wd = World json semver

  unfoldable pub insert_steps : List (Step json.Value) → Wd → Result (Unit {0}) Error × Wd
  insert_steps [] w = (ok tt, w)
  insert_steps (s ∷ ss) w =
      attempt json semver db w
        (λ w'. insert_steps ss (record w' { plan_steps = w'.plan_steps ++ s ∷ [] }))

  unfoldable pub commit :
      Plan json.Value → Result (Unit {0}) Error × Wd → Result (Plan json.Value) Error × Wd
  commit plan (err e, w) = (err e, w)
  commit plan (ok u, w) = attempt json semver db w (λ w'. (ok plan, w'))

  -- A transaction that is dropped leaves the tables as they were.
  unfoldable pub transact :
      Wd → Result (Plan json.Value) Error × Wd → Result (Plan json.Value) Error × Wd
  transact before (err e, w) =
      (err e, record w { plans = before.plans; plan_steps = before.plan_steps })
  transact before (ok plan, w) = (ok plan, w)

  abbrev pub new_plan : ℕ → Option ℕ → Text → ℕ → Plan json.Value
  new_plan id created_by intent now = record {
    id = id;
    created_by = created_by;
    intent = intent;
    status = planning;
    metadata = json.object [];
    created_at = now;
    updated_at = now;
    started_at = none;
    finished_at = none;
  }

  -- The plan's id is drawn by the database, those of the steps after it.
  abbrev pub created : Option ℕ → Text → Wd → Plan json.Value
  created created_by intent w =
      new_plan (db.new_id w.statements) created_by intent (db.now w.statements)

  unfoldable pub drawn : List (StepDef json.Value) → Wd → List ℕ
  unfolding draw_ids
  drawn steps w = draw_ids (suc w.statements) (length steps)

  unfoldable pub create_plan :
      Option ℕ → Text → List (StepDef json.Value) → Wd → Result (Plan json.Value) Error × Wd
  unfolding transact commit insert_steps new_steps drawn
  create_plan created_by intent steps w =
      let plan = created created_by intent w in
      transact w (
        attempt json semver db w (λ w'. commit plan (
          insert_steps (new_steps plan.id (drawn steps w) (drawn steps w) 0 steps)
            (record w' { plans = w'.plans ++ plan ∷ [] }))))
