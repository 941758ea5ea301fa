-- ===== src/Orchestrator/Dispatch.antt =====
-- crates/daimon-orchestrator/src/service.rs: dispatching one step, and the compensator of one step.
pub mod Executed
pub mod Replies
pub mod Reports
use daimon.Common.{
  ℕ, suc, Bool, true, false, not, Option, none, some, List, [], ◌∷◌, ◌++◌, find, if◌then◌else◌,
}
use daimon.Common.Text.{Text, codes, text_eq}
use daimon.Common.Result.{Result, ok, err, ok_or, map_err, ◌>>=◌}
use daimon.Common.Json.{Json, Semver}
use daimon.Core.Capability.{Capability, CompensatingCapability}
use daimon.Runtime.Registry.{RegistryEntry, require_by_capability}
use daimon.Runtime.Dispatcher.{
  Bus, DispatchError, capability_not_found, timeout, bus_closed, core, dispatch, AgentEnvelope,
}
use daimon.Orchestrator.Plan.{Error, dispatch_failed, Step, StepStatus, compensated}
use daimon.Orchestrator.Store.{Database, World, set_step_status}

abbrev pub step_dispatch_timeout_ms : ℕ
step_dispatch_timeout_ms = 60000

-- `Display` of the dispatcher's errors; the text of a duration is the library's.
unfoldable pub show_dispatch_error : (ℕ → Text) → DispatchError → Text
show_dispatch_error show_duration (capability_not_found name) =
    codes "no agent provides capability `" ++ (name ++ codes "`")
show_dispatch_error show_duration (timeout ms) =
    codes "dispatch timed out after " ++ show_duration ms
show_dispatch_error show_duration bus_closed = codes "bus closed before a reply arrived"
show_dispatch_error show_duration (core e) = codes "core: " ++ e

module _ (json : Json) (semver : Semver) where
  abbrev pub value_or {ℓ} : {A : Type ℓ} → Option A → A → A
  value_or none d = d
  value_or (some a) d = a

  abbrev pub and_then {ℓ κ} : {A : Type ℓ} {B : Type κ} → Option A → (A → Option B) → Option B
  and_then none f = none
  and_then (some a) f = f a

  unfoldable pub capability_body : Text → Text → json.Value → json.Value
  capability_body capability target_ref params = json.object (
      (codes "capability", json.string capability)
      ∷ (codes "target_ref", json.string target_ref)
      ∷ (
        codes "timeout_secs",
        json.number (value_or (and_then (json.get params (codes "timeout_secs")) json.as_u64) 30),
      )
      ∷ (codes "params", params)
      ∷ [])

  -- The `comment` of the original parameters becomes the `match` of the compensator's, unless there
  -- is one.
  unfoldable pub compensation_params : json.Value → json.Value
  compensation_params original = elim (json.get original (codes "match")) [
    | some m ↦ original
    | none ↦ elim (and_then (json.get original (codes "comment")) json.as_str) [
      | none ↦ original
      | some comment ↦ json.insert (codes "match") (json.string comment) original
    ]
  ]

  -- An explicit `success: false` in a reply.
  unfoldable pub reports_failure : json.Value → Bool
  reports_failure reply = elim (and_then (json.get reply (codes "success")) json.as_bool) [
    | some b ↦ not b
    | none ↦ false
  ]

module _ (json : Json) (semver : Semver) (db : Database) (bus : Bus json semver)
    (show_duration : ℕ → Text) where
  abbrev Wd : Type 0
  Wd = World json semver

  abbrev St : Type 0
  St = Step json.Value

  -- `self.dispatcher.dispatch`, with what it sends noted.
  unfoldable pub send : Text → Text → semver.Req → json.Value → Wd → Result json.Value Error × Wd
  send from name req body w =
      let (r, out) =
        dispatch json semver bus w.dispatches from name req body step_dispatch_timeout_ms in
      (
        map_err r (λ e. dispatch_failed (show_dispatch_error show_duration e)),
        record w {
          dispatches = suc w.dispatches;
          sent = elim out [ none ↦ w.sent | some env ↦ w.sent ++ env ∷ [] ];
        },
      )

  unfoldable pub target_of : St → Result Text Error
  target_of step =
      ok_or step.target_ref
        (dispatch_failed (codes "step " ++ (db.show_id step.id ++ codes " has no target_ref")))

  -- What precedes the dispatch: the version requirement and the target, or the step's error.
  unfoldable pub step_call : St → Result (semver.Req × Text) Error
  unfolding target_of
  step_call step = elim (semver.parse_req step.capability_version) [
    | err e ↦ err (
        dispatch_failed (
          codes "bad capability_version `"
          ++ (step.capability_version
              ++ (codes "` for step " ++ (db.show_id step.id ++ (codes ": " ++ e))))))
    | ok req ↦ elim (target_of step) [ err e ↦ err e | ok target ↦ ok (req, target) ]
  ]

  abbrev pub step_sender : St → Text
  step_sender step =
      codes "orchestrator:" ++ (db.show_id step.plan_id ++ (codes ":" ++ db.show_id step.id))

  unfoldable pub failure_detail : json.Value → Text
  failure_detail reply =
      value_or json semver (and_then json semver (json.get reply (codes "error")) json.as_str)
        (codes "capability reported failure")

  unfoldable pub check_reply : St → Result json.Value Error → Result json.Value Error
  unfolding reports_failure failure_detail
  check_reply step (err e) = err e
  check_reply step (ok reply) =
      if reports_failure json semver reply
      then err (
          dispatch_failed (
            codes "step "
            ++ (db.show_id step.id
                ++ (codes " capability `"
                    ++ (step.capability_name ++ (codes "` failed: " ++ failure_detail reply))))))
      else ok reply

  unfoldable pub dispatch_step : St → Wd → Result json.Value Error × Wd
  unfolding step_call send check_reply capability_body
  dispatch_step step w = elim (step_call step) [
    | err e ↦ (err e, w)
    | ok (req, target) ↦
        let (r, w') =
          send (step_sender step) step.capability_name req
            (capability_body json semver step.capability_name target step.params) w in
        (check_reply step r, w')
  ]

  -- The compensator that the registry names for a capability, of any version.
  unfoldable pub compensator_for : Text → Wd → Option CompensatingCapability
  unfolding require_by_capability
  compensator_for capability_name w =
      and_then json semver
        (require_by_capability json semver capability_name semver.any (bus.registry w.dispatches))
        (λ entry.
          and_then json semver (find (λ c. text_eq c.name capability_name) entry.capabilities)
            (λ c. c.compensating))

  unfoldable pub compensator_req : CompensatingCapability → Result semver.Req Error
  compensator_req comp = elim comp.version_req [
    | none ↦ ok semver.any
    | some s ↦
        map_err (semver.parse_req s) (λ e.
          dispatch_failed (codes "bad compensating version_req `" ++ (s ++ (codes "`: " ++ e))))
  ]

  unfoldable pub call_compensator :
      St → CompensatingCapability → Wd → Result (Option json.Value) Error × Wd
  unfolding compensator_req target_of send capability_body compensation_params
  call_compensator step comp w = elim (compensator_req comp) [
    | err e ↦ (err e, w)
    | ok req ↦ elim (target_of step) [
      | err e ↦ (err e, w)
      | ok target ↦
          let (r, w') =
            send (step_sender step ++ codes ":compensate") comp.name req
              (capability_body json semver comp.name target
                (compensation_params json semver step.params))
              w in
          (elim r [ ok reply ↦ ok (some reply) | err e ↦ err e ], w')
    ]
  ]

  -- `ok none` where the capability has no compensator.
  unfoldable pub dispatch_compensator : St → Wd → Result (Option json.Value) Error × Wd
  unfolding compensator_for call_compensator
  dispatch_compensator step w = elim (compensator_for step.capability_name w) [
    | none ↦ (ok none, w)
    | some comp ↦ call_compensator step comp w
  ]

  unfoldable pub mark_compensated :
      St → Result (Option json.Value) Error × Wd → Result Bool Error × Wd
  unfolding set_step_status
  mark_compensated step (err e, w) = (err e, w)
  mark_compensated step (ok none, w) = (ok false, w)
  mark_compensated step (ok (some reply), w) =
      let (r, w') = set_step_status json semver db step.id compensated (some reply) false w in
      (elim r [ ok u ↦ ok true | err e ↦ err e ], w')

  unfoldable pub compensate_step : St → Wd → Result Bool Error × Wd
  unfolding dispatch_compensator mark_compensated
  compensate_step step w = mark_compensated step (dispatch_compensator step w)
