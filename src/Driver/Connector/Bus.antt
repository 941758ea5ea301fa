-- ===== src/Driver/Connector/Bus.antt =====
-- The handler of a connector on the bus, and the verbs of the `Driver` trait. `from_value` of a
-- request is derived by serde and a parameter.
use daimon.Common.{ℕ, not, Option, none, some, List, [], ◌∷◌, ◌++◌, if◌then◌else◌}
use daimon.Common.Text.{Text, codes}
use daimon.Common.Result.{Result, ok, err, map_err, ◌>>=◌}
use daimon.Common.Json.{Json, Semver}
use daimon.Guard.Approvals.{Pool}
use daimon.Guard.PreFlight.{Guard}
use daimon.Broker.Execute.{Services}
use daimon.Runtime.Dispatcher.{AgentEnvelope, reply_envelope}
use daimon.Driver.Class.{
  TargetClass, compute, network, storage, orchestrator, firewall, DriverError, unsupported,
}
use daimon.Driver.Returns.{TargetShape, StateDoc, Finding, info, Receipt}
use daimon.Driver.Profile.{ConnectorError, capability_failed, driver_error}
use daimon.Driver.Connector.{ConnectorDriver, ConnectorOutput, Shown, Failure, Wd, dispatch}
use daimon.Driver.Connector.Reply.{
  default_timeout_secs, ConnectorRequest, ConnectorReply, reply_err, from_output, reply_value,
  or_object,
}

-- `Debug` of a class.
unfoldable pub show_class : TargetClass → Text
show_class compute = codes "Compute"
show_class network = codes "Network"
show_class storage = codes "Storage"
show_class orchestrator = codes "Orchestrator"
show_class firewall = codes "Firewall"

module _ (json : Json) (semver : Semver) (services : Services json.Value)
    (shown : Shown json.Value (Failure json semver services)) where
  unfoldable pub reply_of : Result (ConnectorOutput json.Value) ConnectorError → ConnectorReply
  unfolding from_output reply_err
  reply_of (ok out) = from_output json shown.status out
  reply_of (err e) = reply_err (shown.error e)

  -- The answer of a verb from that of the dispatch, with `?`.
  unfoldable pub answer :
      {A : Type 0}
      → (ConnectorOutput json.Value → Result A ConnectorError)
      → Option (Result (ConnectorOutput json.Value) ConnectorError × Wd json semver services)
      → Option (Result A DriverError × Wd json semver services)
  unfolding driver_error
  answer f none = none
  answer f (some (r, w)) = some (map_err (r >>= f) (driver_error shown.error), w)

  unfoldable pub describe :
      ConnectorDriver semver.Version json.Value → Text → TargetShape json.Value
  unfolding show_class
  describe driver target = record {
    class = driver.class;
    identity = json.object ((codes "target", json.string target) ∷ []);
    summary = show_class driver.class ++ (codes " connector target " ++ target);
  }

  unfoldable pub diagnose :
      ConnectorDriver semver.Version json.Value → Text → Text → List (Finding json.Value)
  diagnose driver target symptom =
      record {
        title = codes "connector `" ++ (driver.id ++ codes "` has no built-in diagnostics");
        severity = info;
        detail =
            codes "symptom `" ++ (symptom ++ codes "`: use the read capabilities to gather state");
        suggested_capability = none;
        suggested_params = json.object [];
      }
      ∷ []

  unfoldable pub state_doc :
      Text → ConnectorOutput json.Value → Result (StateDoc json.Value) ConnectorError
  state_doc target out = ok (record {
    target = target;
    doc = json.object (
        (codes "capability", json.string out.capability)
        ∷ (codes "status", json.integer out.status)
        ∷ (codes "result", out.payload)
        ∷ []);
  })

  -- A write that failed is an error.
  unfoldable pub receipt :
      Text
      → Text
      → json.Value
      → ConnectorOutput json.Value
      → Result (Receipt json.Value) ConnectorError
  receipt target capability params out =
      if not out.success
      then err (capability_failed capability out.status)
      else ok (record {
        capability = capability;
        changed = json.object (
            (codes "target", json.string target)
            ∷ (codes "params", params)
            ∷ (codes "status", json.integer out.status)
            ∷ (codes "result", out.payload)
            ∷ []);
      })

  module _ (pool : Pool json.Value) (show_id : ℕ → Text) (attached : Option Guard)
      (driver : ConnectorDriver semver.Version json.Value) where
    unfoldable pub read_state :
        Text
        → json.Value
        → Wd json semver services
        → Option (Result (StateDoc json.Value) DriverError × Wd json semver services)
    unfolding dispatch answer state_doc
    read_state target selector w =
        let named : Option Text = elim (json.get selector (codes "capability")) [
          | none ↦ none
          | some v ↦ json.as_str v
        ] in
        elim named [
          | none ↦
              some
                (err (unsupported (codes "read_state selector must carry a `capability` field")), w)
          | some capability ↦ answer (state_doc target) (
              dispatch json semver services shown pool show_id attached driver driver.actor_id
                capability target (or_object json (json.get selector (codes "params")))
                default_timeout_secs w)
        ]

    unfoldable pub remediate :
        Text
        → Text
        → json.Value
        → Wd json semver services
        → Option (Result (Receipt json.Value) DriverError × Wd json semver services)
    unfolding dispatch answer receipt
    remediate target capability params w = answer (receipt target capability params) (
        dispatch json semver services shown pool show_id attached driver driver.actor_id capability
          target params default_timeout_secs w)

    -- `none` where the wait for an operator runs out of fuel; otherwise the reply that is sent.
    unfoldable pub serve :
        AgentEnvelope json semver
        → Result (ConnectorRequest json.Value) Text
        → Wd json semver services
        → Option (AgentEnvelope json semver × Wd json semver services)
    unfolding reply_err reply_value reply_envelope dispatch reply_of
    serve env (err e) w = some (
      reply_envelope json semver env driver.id
          (reply_value json (reply_err (codes "invalid request: " ++ e))),
      w,
    )
    serve env (ok req) w =
        elim (dispatch json semver services shown pool show_id attached driver env.from
          req.capability req.target_ref (or_object json req.params)
          (elim req.timeout_secs [ none ↦ default_timeout_secs | some t ↦ t ]) w) [
            | none ↦ none
            | some (r, v) ↦
                some (reply_envelope json semver env driver.id (reply_value json (reply_of r)), v)
          ]

    unfoldable pub handle :
        (json.Value → Result (ConnectorRequest json.Value) Text)
        → AgentEnvelope json semver
        → Wd json semver services
        → Option (AgentEnvelope json semver × Wd json semver services)
    unfolding serve
    handle from_value env w = serve env (from_value env.body) w
