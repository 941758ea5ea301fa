-- ===== src/RouterOs/Dispatch.antt =====
-- The dispatch of a capability of the RouterOS driver through the broker, and the messages on the
-- bus. `from_value` of a request is derived by serde and a parameter.
pub mod Sends
pub mod Answers
use daimon.Common.{
  ℕ, max, Bool, true, false, Option, none, some, List, [], ◌∷◌, ◌++◌, find, if◌then◌else◌,
}
use daimon.Common.Text.{Text, codes, text_eq}
use daimon.Common.Integer.{ℤ}
use daimon.Common.Result.{Result, ok, err, map_err, ◌>>=◌}
use daimon.Common.Json.{Json, Semver}
use daimon.Core.Capability.{Capability}
use daimon.Inventory.Refspec.{TargetRef, RefParseError, parse}
use daimon.Guard.Approvals.{Pool}
use daimon.Guard.PreFlight.{Guard}
use daimon.Broker.Op.{Op, OpResult, shell_command, shell_output}
use daimon.Broker.Request.{ExecRequest, new, with_capability, with_capability_meta}
use daimon.Broker.Execute.{Services, World, BrokerError, execute}
use daimon.Runtime.Dispatcher.{AgentEnvelope, reply_envelope}
use daimon.RouterOs.Command.{RouterOsError, bad_target, broker, wrong_op_result, build_command}
use daimon.RouterOs.Catalog.{build_capabilities}

abbrev pub default_timeout_secs : ℕ
default_timeout_secs = 30

pub record NetworkRequest (J : Type 0) : Type 0 where
  pub capability : Text
  pub target_ref : Text
  pub timeout_secs : Option ℕ
  pub params : Option J

pub record NetworkOutput : Type 0 where
  pub command : Text
  pub stdout : Text
  pub stderr : Text
  pub exit_status : ℤ

pub record NetworkResponse : Type 0 where
  pub success : Bool
  pub output : Option NetworkOutput
  pub error : Option Text

unfoldable pub response_ok : NetworkOutput → NetworkResponse
response_ok output = record { success = true; output = some output; error = none }

unfoldable pub response_error : Text → NetworkResponse
response_error msg = record { success = false; output = none; error = some msg }

module _ (json : Json) where
  -- `to_value`: a member that is `none` is left out.
  unfoldable pub output_value : NetworkOutput → json.Value
  output_value out = json.object (
      (codes "command", json.string out.command)
      ∷ (codes "stdout", json.string out.stdout)
      ∷ (codes "stderr", json.string out.stderr)
      ∷ (codes "exit_status", json.integer out.exit_status)
      ∷ [])

  abbrev pub optional_member :
      {A : Type 0} → Text → (A → json.Value) → Option A → List (Text × json.Value)
  optional_member name f none = []
  optional_member name f (some a) = (name, f a) ∷ []

  unfoldable pub response_value : NetworkResponse → json.Value
  unfolding output_value
  response_value resp = json.object (
      (codes "success", json.boolean resp.success)
      ∷ (optional_member (codes "output") output_value resp.output
          ++ optional_member (codes "error") (λ e. json.string e) resp.error))

-- `E` is the broker's error and `R` the result of an operation; `Display` and `Debug` of the types
-- of the driver.
pub record Shown (J E : Type 0) : Type 0 where
  pub ref_error : RefParseError → Text
  pub result : OpResult J → Text
  pub error : RouterOsError E → Text
  pub broker_error : E → Text

module _ (json : Json) (semver : Semver) (services : Services json.Value) where
  abbrev pub Failure : Type 0
  Failure = BrokerError services.VaultError services.TransportError

  abbrev pub Err : Type 0
  Err = RouterOsError Failure

  abbrev pub Req : Type 0
  Req = ExecRequest semver.Version json.Value

  abbrev pub Wd : Type 0
  Wd = World json.Value

  module _ (shown : Shown json.Value Failure) where
    -- The request with the descriptor of the capability, or with its name alone.
    unfoldable pub attach : Text → Option (Capability semver.Version json.Value) → Req → Req
    unfolding with_capability with_capability_meta
    attach capability (some cap) req = with_capability_meta cap req
    attach capability none req = with_capability capability false req

    unfoldable pub build_exec_request :
        Text → Text → Text → Text → ℕ → List (Capability semver.Version json.Value) → Result Req Err
    unfolding parse new attach text_eq
    build_exec_request actor_id capability target_ref command timeout_secs capabilities =
        map_err (parse target_ref) (λ e. bad_target (shown.ref_error e)) >>= λ target. ok (
          attach capability (find (λ c. text_eq c.name capability) capabilities)
            (new actor_id target (shell_command command (max timeout_secs 1))))

    -- The match on what the broker answers.
    unfoldable pub output_of :
        Text → Result (OpResult json.Value) Failure → Result NetworkOutput Err
    output_of command (err e) = err (broker e)
    output_of command (ok (shell_output out errors status)) =
        ok (record { command = command; stdout = out; stderr = errors; exit_status = status })
    output_of command (ok other) = err (wrong_op_result (shown.result other))

    -- What is made before the broker is asked.
    unfoldable pub prepare : Text → Text → Text → Option json.Value → ℕ → Result (Text × Req) Err
    unfolding build_command build_exec_request build_capabilities
    prepare actor_id capability target_ref params timeout_secs =
        build_command json capability params >>= λ command.
        (build_exec_request actor_id capability target_ref command timeout_secs
            (build_capabilities json semver)
          >>= λ exec_req. ok (command, exec_req))

    module _ (pool : Pool json.Value) (show_id : ℕ → Text) (attached : Option Guard) where
      unfoldable pub submit : Result (Text × Req) Err → Wd → Option (Result NetworkOutput Err × Wd)
      unfolding execute output_of
      submit (err e) w = some (err e, w)
      submit (ok (command, exec_req)) w =
          elim (execute json semver services pool show_id attached exec_req w) [
            | none ↦ none
            | some (r, v) ↦ some (output_of command r, v)
          ]

      unfoldable pub dispatch :
          Text → Text → Text → Option json.Value → ℕ → Wd → Option (Result NetworkOutput Err × Wd)
      unfolding prepare submit
      dispatch actor_id capability target_ref params timeout_secs w =
          submit (prepare actor_id capability target_ref params timeout_secs) w

      unfoldable pub response_of : Result NetworkOutput Err → NetworkResponse
      unfolding response_ok response_error
      response_of (ok out) = response_ok out
      response_of (err e) = response_error (shown.error e)

      -- `none` where the wait for an operator runs out of fuel; otherwise the reply that is sent.
      unfoldable pub serve :
          Text
          → AgentEnvelope json semver
          → Result (NetworkRequest json.Value) Text
          → Wd
          → Option (AgentEnvelope json semver × Wd)
      unfolding response_error response_value reply_envelope dispatch response_of
      serve id env (err e) w = some (
        reply_envelope json semver env id
            (response_value json (response_error (codes "invalid request: " ++ e))),
        w,
      )
      serve id env (ok req) w =
          elim (dispatch env.from req.capability req.target_ref req.params
            (elim req.timeout_secs [ none ↦ default_timeout_secs | some t ↦ t ]) w) [
              | none ↦ none
              | some (r, v) ↦
                  some (reply_envelope json semver env id (response_value json (response_of r)), v)
            ]

      unfoldable pub handle :
          (json.Value → Result (NetworkRequest json.Value) Text)
          → Text
          → AgentEnvelope json semver
          → Wd
          → Option (AgentEnvelope json semver × Wd)
      unfolding serve
      handle from_value id env w = serve id env (from_value env.body) w
