-- ===== src/Examples/Calls.antt =====
-- Dispatches and plans at concrete inputs: a bus with one agent that offers `network.drop` and
-- `network.undo`, and the steps of a plan.
use daimon.Common.{ℕ, ◌⊎◌, ◌≡◌, refl, true, false, Option, none, some, List, [], ◌∷◌, ◌++◌, map}
use daimon.Common.Text.{Text, codes, text_eq}
use daimon.Common.Result.{ok, err}
use daimon.Core.Capability.{Capability, CompensatingCapability}
use daimon.Runtime.Registry.Laws.{IsProvided}
use daimon.Runtime.Registry.{RegistryEntry, CapabilityRegistry, require_by_capability}
use daimon.Runtime.Dispatcher.{
  direct, by_capability, AgentEnvelope, Received, envelope, Bus, dispatch, new_envelope,
}
use daimon.Runtime.Dispatcher.Replies.{IsHeard, IsAsked, dispatch_answered}
use daimon.Orchestrator.Plan.{
  Error, Plan, planning, Step, StepStatus, pending, succeeded, compensated,
}
use daimon.Orchestrator.Store.{Database, World, set_step_row}
use daimon.Orchestrator.Dispatch.{
  compensation_params, step_sender, capability_body, step_dispatch_timeout_ms, compensator_for,
  compensator_req, dispatch_step, compensate_step,
}
use daimon.Orchestrator.Dispatch.Replies.{
  IsRefusal, dispatch_step_reported, compensate_step_any_reply,
}
use daimon.Examples.Values.{Value, string, boolean, field, json, semver}

abbrev offered : Text → Option Text → Capability ℕ Value
offered name undo = record {
  name = name;
  version = 1;
  description = none;
  schema = none;
  compensating = elim undo [
    | none ↦ none
    | some u ↦ some (record { name = u; version_req = none })
  ];
  irreversible = false;
}

abbrev agents : CapabilityRegistry json semver
agents =
    (
      codes "net",
      record {
        agent_id = codes "net";
        capabilities =
            offered (codes "network.drop") (some (codes "network.undo"))
            ∷ offered (codes "network.undo") none
            ∷ [];
      },
    )
    ∷ []

abbrev reply_to : Text → Value → Received json semver
reply_to from body = envelope (record {
  correlation_id = 5;
  from = codes "net";
  to = direct from;
  reply_to = none;
  body = body;
})

abbrev good : Value
good = field (codes "success") (boolean true) Value.empty

abbrev bad : Value
bad = field (codes "success") (boolean false) Value.empty

-- Callers that are answered, each at any dispatch; the compensator's reply is a failure.
abbrev pub bus : Bus json semver
bus = record {
  registry = λ n. agents;
  correlation = λ n. 5;
  heard = λ n.
      reply_to (codes "orchestrator:" ++ (1 ∷ (codes ":" ++ 10 ∷ []))) good
      ∷ reply_to (codes "orchestrator:" ++ (1 ∷ (codes ":" ++ 11 ∷ []))) good
      ∷ reply_to ((codes "orchestrator:" ++ (1 ∷ (codes ":" ++ 10 ∷ []))) ++ codes ":compensate")
          bad
      ∷ [];
}

abbrev sender : Text
sender = codes "orchestrator:" ++ (1 ∷ (codes ":" ++ 11 ∷ []))

abbrev request : AgentEnvelope json semver
unfolding new_envelope
request =
    new_envelope json semver 5 sender (by_capability (codes "network.drop") (some 1)) Value.null

dispatch_answered_example :
    ((entry : RegistryEntry json semver) × IsProvided json semver
        (codes "network.drop")
        (some 1)
        agents
        entry)
    × ((env : AgentEnvelope json semver) × (some request ≡ some env)
        × IsAsked json semver 5 sender (codes "network.drop") (some 1) Value.null env)
    × IsHeard json semver 5 sender (bus.heard 0) good
unfolding dispatch text_eq request
dispatch_answered_example =
    dispatch_answered json semver bus 0 sender (codes "network.drop") (some 1) Value.null 60 good
      (some request) refl

abbrev pub db : Database
db = record {
  fault = λ n. none;
  now = λ n. n;
  show_id = λ n. n ∷ [];
  new_id = λ n. n;
  remembers = λ b. true;
}

abbrev pub show_duration : ℕ → Text
show_duration n = n ∷ []

abbrev pub show_error : Error → Text
show_error e = codes "error"

abbrev pub step : ℕ → ℕ → List ℕ → StepStatus → Step Value
step id index depends_on status = record {
  id = id;
  plan_id = 1;
  step_index = index;
  capability_name = codes "network.drop";
  capability_version = codes "1";
  target_ref = some (codes "target://r1");
  credential_ref = none;
  params = field (codes "comment") (string (codes "c")) Value.empty;
  depends_on = depends_on;
  compensating_step_id = none;
  status = status;
  result = none;
  started_at = none;
  finished_at = none;
}

abbrev pub the_plan : Plan Value
the_plan = record {
  id = 1;
  created_by = none;
  intent = codes "drop";
  status = planning;
  metadata = Value.null;
  created_at = 0;
  updated_at = 0;
  started_at = none;
  finished_at = none;
}

abbrev pub with_steps : List (Step Value) → World json semver
with_steps steps = record {
  plans = the_plan ∷ [];
  plan_steps = steps;
  statements = 0;
  dispatches = 0;
  sent = [];
  captured = [];
}

abbrev pub ready : World json semver
ready = with_steps (step 11 1 (10 ∷ []) pending ∷ step 10 0 [] pending ∷ [])

-- The second step of the plan, run by itself.
abbrev second : Step Value
second = step 11 1 [] pending

abbrev target : Text
target = codes "target://r1"

abbrev asked_second : Option (AgentEnvelope json semver)
asked_second =
    (dispatch json semver bus 0 (step_sender json semver db bus show_duration second)
      (codes "network.drop") (some 1)
      (capability_body json semver (codes "network.drop") target second.params)
      step_dispatch_timeout_ms).1

dispatch_step_reported_example :
    (IsRefusal json good
      × ((e : Error) × ((dispatch_step json semver db bus show_duration second ready).0 ≡ err e)))
    ⊎ ((IsRefusal json good → ⊥)
        × ((dispatch_step json semver db bus show_duration second ready).0 ≡ ok good))
unfolding dispatch text_eq
dispatch_step_reported_example =
    dispatch_step_reported json semver db bus show_duration second ready (some 1) target good
      asked_second refl refl refl

-- The first step, which succeeded, and is undone by a compensator that reports a failure.
abbrev first : Step Value
first = step 10 0 [] succeeded

abbrev undo : CompensatingCapability
undo = record { name = codes "network.undo"; version_req = none }

abbrev asked_undo : Option (AgentEnvelope json semver)
asked_undo =
    (dispatch json semver bus 0
      (step_sender json semver db bus show_duration first ++ codes ":compensate")
      (codes "network.undo") semver.any
      (capability_body json semver (codes "network.undo") target
        (compensation_params json semver first.params))
      step_dispatch_timeout_ms).1

compensate_step_any_reply_example :
    ((compensate_step json semver db bus show_duration first ready).0 ≡ ok true)
    × ((compensate_step json semver db bus show_duration first ready).1.plan_steps
        ≡ map (set_step_row json semver 10 compensated bad false 0) ready.plan_steps)
unfolding dispatch text_eq compensator_for require_by_capability compensator_req
compensate_step_any_reply_example =
    compensate_step_any_reply json semver db bus show_duration first ready undo semver.any target
      bad asked_undo refl refl refl refl refl
