-- ===== src/Orchestrator/Plan.antt =====
-- crates/daimon-orchestrator/src/plan.rs and error.rs: the rows of plans and steps.
use daimon.Common.{ℕ, ◌≡◌, refl, Option, List, if◌then◌else◌}
use daimon.Common.Text.{Text, codes, text_eq}

pub data Error : Type 0 where
  pg pool dispatch_failed decode other : Text → Error
  plan_not_found : ℕ → Error
  dag_cycle : Error

pub data PlanStatus : Type 0 where
  planning awaiting_approval executing plan_succeeded plan_failed cancelled rolled_back : PlanStatus

pub data StepStatus : Type 0 where
  pending running succeeded failed skipped compensated : StepStatus

unfoldable pub plan_status_str : PlanStatus → Text
plan_status_str planning = codes "planning"
plan_status_str awaiting_approval = codes "awaiting_approval"
plan_status_str executing = codes "executing"
plan_status_str plan_succeeded = codes "succeeded"
plan_status_str plan_failed = codes "failed"
plan_status_str cancelled = codes "cancelled"
plan_status_str rolled_back = codes "rolled_back"

unfoldable pub plan_status_from : Text → PlanStatus
unfolding text_eq
plan_status_from s =
    if text_eq s (codes "planning")
    then planning
    else if text_eq s (codes "awaiting_approval")
    then awaiting_approval
    else if text_eq s (codes "executing")
    then executing
    else if text_eq s (codes "succeeded")
    then plan_succeeded
    else if text_eq s (codes "failed")
    then plan_failed
    else if text_eq s (codes "cancelled")
    then cancelled
    else if text_eq s (codes "rolled_back")
    then rolled_back
    else plan_failed

unfoldable pub step_status_str : StepStatus → Text
step_status_str pending = codes "pending"
step_status_str running = codes "running"
step_status_str succeeded = codes "succeeded"
step_status_str failed = codes "failed"
step_status_str skipped = codes "skipped"
step_status_str compensated = codes "compensated"

unfoldable pub step_status_from : Text → StepStatus
unfolding text_eq
step_status_from s =
    if text_eq s (codes "pending")
    then pending
    else if text_eq s (codes "running")
    then running
    else if text_eq s (codes "succeeded")
    then succeeded
    else if text_eq s (codes "failed")
    then failed
    else if text_eq s (codes "skipped")
    then skipped
    else if text_eq s (codes "compensated")
    then compensated
    else failed

-- What `as_str` writes to a table, `from_str` reads back, for plans and for steps.
pub status_round_trip :
    ((s : PlanStatus) → plan_status_from (plan_status_str s) ≡ s)
    × ((s : StepStatus) → step_status_from (step_status_str s) ≡ s)
unfolding plan_status_from plan_status_str step_status_from step_status_str
status_round_trip = (plans, steps)
  where
    plans : (s : PlanStatus) → plan_status_from (plan_status_str s) ≡ s
    plans planning = refl
    plans awaiting_approval = refl
    plans executing = refl
    plans plan_succeeded = refl
    plans plan_failed = refl
    plans cancelled = refl
    plans rolled_back = refl

    steps : (s : StepStatus) → step_status_from (step_status_str s) ≡ s
    steps pending = refl
    steps running = refl
    steps succeeded = refl
    steps failed = refl
    steps skipped = refl
    steps compensated = refl

-- `J` is the type of JSON values.
pub record StepDef (J : Type 0) : Type 0 where
  pub capability_name : Text
  pub capability_version : Text
  pub target_ref : Option Text
  pub credential_ref : Option Text
  pub params : J
  pub depends_on_index : List ℕ

pub record Plan (J : Type 0) : Type 0 where
  pub id : ℕ
  pub created_by : Option ℕ
  pub intent : Text
  pub status : PlanStatus
  pub metadata : J
  pub created_at : ℕ
  pub updated_at : ℕ
  pub started_at : Option ℕ
  pub finished_at : Option ℕ

pub record Step (J : Type 0) : Type 0 where
  pub id : ℕ
  pub plan_id : ℕ
  pub step_index : ℕ
  pub capability_name : Text
  pub capability_version : Text
  pub target_ref : Option Text
  pub credential_ref : Option Text
  pub params : J
  pub depends_on : List ℕ
  pub compensating_step_id : Option ℕ
  pub status : StepStatus
  pub result : Option J
  pub started_at : Option ℕ
  pub finished_at : Option ℕ
