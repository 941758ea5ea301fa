-- ===== src/Driver/Connector.antt =====
-- crates/daimon-driver/src/connector.rs: the driver of declarative profiles, from the profiles to the
-- dispatch of a declared capability through the broker.
pub mod Load
pub mod Chars
pub mod Bus
pub mod Reply
pub mod Honest
pub mod Classes
pub mod Served
use daimon.Common.{
  ℕ, Bool, true, false, ◌&&◌, Option, none, some, List, [], ◌∷◌, ◌++◌, if◌then◌else◌, map, ◌==◌,
  leb,
}
use daimon.Common.Text.{Text, codes}
use daimon.Common.Integer.{ℤ, pos, negsuc, int_eq}
use daimon.Common.Result.{Result, ok, err, ok_or, map_err, ◌>>=◌}
use daimon.Common.Json.{Json, Semver}
use daimon.Common.Map.{lookup, insert, text_Eq}
use daimon.Core.Capability.{Capability}
use daimon.Inventory.Refspec.{RefParseError, parse}
use daimon.Guard.Approvals.{Pool}
use daimon.Guard.PreFlight.{Guard}
use daimon.Broker.Op.{
  AuthScheme, bearer, Op, OpResult, shell_output, http_response, snmp_values, snmp_set_ack,
  structured, SnmpValue, nonnegative, negative, unsigned, text, oid_value,
}
use daimon.Broker.Request.{ExecRequest, new, with_capability_meta}
use daimon.Broker.Execute.{Services, World, BrokerError, execute}
use daimon.Driver.Param.{ParamClass, validate}
use daimon.Driver.Class.{TargetClass, class_eq}
use daimon.Driver.Class as Class
use daimon.Driver.Profile.{
  to_scheme, target_class, ProfileTransport, rest, ssh, snmp, ProfileCapability, ConnectorProfile,
  ConnectorError, unknown_capability, bad_target, broker_error, wrong_op_result, missing_param,
  bad_param, project_capability,
}
use daimon.Driver.Render.{Validated, render_http_op, render_ssh_op, render_snmp_op}

pub record DeclaredCap (V J : Type 0) : Type 0 where
  pub cap : ProfileCapability V J
  pub auth : AuthScheme
  pub transport : ProfileTransport

pub record ConnectorDriver (V J : Type 0) : Type 0 where
  pub id : Text
  pub class : TargetClass
  pub capabilities : List (Capability V J)
  pub declared : List (Text × DeclaredCap V J)
  pub actor_id : Text

-- What the dispatch hands on.
pub record ConnectorOutput (J : Type 0) : Type 0 where
  pub capability : Text
  pub success : Bool
  pub status : ℤ
  pub payload : J

-- `Display` and `Debug` of the types of the program: `E` is the broker's error.
pub record Shown (J E : Type 0) : Type 0 where
  pub ref_error : RefParseError → Text
  pub result : OpResult J → Text
  pub broker_error : E → Text
  pub error : ConnectorError → Text
  pub status : ℤ → Text

module _ (json : Json) where
  -- A number and a Boolean are printed; an array, an object and `null` are no parameter.
  unfoldable pub scalar_text : json.Value → Option Text
  scalar_text v = elim (json.as_str v) [
    | some s ↦ some s
    | none ↦ elim (json.number_text v) [
      | some n ↦ some n
      | none ↦ elim (json.as_bool v) [
        | some b ↦ some (if b then codes "true" else codes "false")
        | none ↦ none
      ]
    ]
  ]

  unfoldable pub extract_param : json.Value → Text → Option Text
  unfolding scalar_text
  extract_param params name = elim (json.get params name) [ none ↦ none | some v ↦ scalar_text v ]

  -- The loop over the declared parameters.
  unfoldable pub validate_params :
      Text → json.Value → List (Text × ParamClass) → Validated → Result Validated ConnectorError
  unfolding extract_param validate insert
  validate_params capability params [] validated = ok validated
  validate_params capability params ((name, class) ∷ later) validated =
      ok_or (extract_param params name) (missing_param capability name) >>= λ raw.
      (map_err (validate raw class) (λ e. bad_param name e) >>= λ u.
      validate_params capability params later (insert name raw validated))

  unfoldable pub snmp_json : SnmpValue → json.Value
  snmp_json (nonnegative n) = json.integer (pos n)
  snmp_json (negative n) = json.integer (negsuc n)
  snmp_json (unsigned n) = json.number n
  snmp_json (text s) = json.string s
  snmp_json (oid_value o) = json.string o

  abbrev snmp_member : Text × SnmpValue → Text × json.Value
  unfolding snmp_json
  snmp_member (oid, v) = (oid, snmp_json v)

  -- Success, status and payload; the hint is not read.
  unfoldable pub parse_result :
      (OpResult json.Value → Text)
      → OpResult json.Value
      → Result (Bool × (ℤ × json.Value)) ConnectorError
  unfolding snmp_member int_eq
  parse_result show (http_response status body headers) =
      ok (leb 200 status && leb status 299, (pos status, body))
  parse_result show (structured doc) = ok (true, (pos 0, doc))
  parse_result show (shell_output out errors exit_status) = ok (
    int_eq exit_status (pos 0),
    (
      exit_status,
      json.object (
          (codes "stdout", json.string out)
          ∷ (codes "stderr", json.string errors)
          ∷ (codes "exit_status", json.integer exit_status)
          ∷ []),
    ),
  )
  parse_result show (snmp_values values) = ok (true, (pos 0, json.object (map snmp_member values)))
  parse_result show snmp_set_ack = err (wrong_op_result (show snmp_set_ack))

module _ (json : Json) (semver : Semver) (services : Services json.Value) where
  abbrev pub Failure : Type 0
  Failure = BrokerError services.VaultError services.TransportError

  abbrev pub Req : Type 0
  Req = ExecRequest semver.Version json.Value

  abbrev pub Wd : Type 0
  Wd = World json.Value

  abbrev pub Declared : Type 0
  Declared = DeclaredCap semver.Version json.Value

  module _ (shown : Shown json.Value Failure) where
    unfoldable pub render : Declared → Text → Validated → ℕ → Result (Op json.Value) ConnectorError
    unfolding render_http_op render_ssh_op render_snmp_op
    render d capability validated timeout_secs = elim d.transport [
      | rest ↦ render_http_op json d.cap.op capability validated d.auth
      | ssh ↦ render_ssh_op json d.cap.op capability validated timeout_secs
      | snmp ↦ render_snmp_op json d.cap.op capability validated
    ]

    -- What is made before the broker is asked.
    unfoldable pub prepare :
        Declared → Text → Text → Text → json.Value → ℕ → Result Req ConnectorError
    unfolding validate_params render parse new with_capability_meta project_capability
    prepare d actor_id capability target_ref params timeout_secs =
        validate_params json capability params d.cap.params [] >>= λ validated.
        (render d capability validated timeout_secs >>= λ op.
        (map_err (parse target_ref) (λ e. bad_target (shown.ref_error e)) >>= λ target.
        ok (with_capability_meta (project_capability json d.cap) (new actor_id target op))))

    unfoldable pub output_of :
        Text
        → Result (OpResult json.Value) Failure
        → Result (ConnectorOutput json.Value) ConnectorError
    unfolding parse_result
    output_of capability (err e) = err (broker_error (shown.broker_error e))
    output_of capability (ok r) = parse_result json shown.result r >>= λ t.
        ok (record { capability = capability; success = t.0; status = t.1.0; payload = t.1.1 })

    module _ (pool : Pool json.Value) (show_id : ℕ → Text) (attached : Option Guard) where
      abbrev pub Answer : Type 0
      Answer = Option (Result (ConnectorOutput json.Value) ConnectorError × Wd)

      unfoldable pub submit : Text → Result Req ConnectorError → Wd → Answer
      unfolding execute output_of
      submit capability (err e) w = some (err e, w)
      submit capability (ok exec_req) w =
          elim (execute json semver services pool show_id attached exec_req w) [
            | none ↦ none
            | some (r, v) ↦ some (output_of capability r, v)
          ]

      unfoldable pub dispatch :
          ConnectorDriver semver.Version json.Value
          → Text
          → Text
          → Text
          → json.Value
          → ℕ
          → Wd
          → Answer
      unfolding lookup prepare submit
      dispatch driver actor_id capability target_ref params timeout_secs w =
          submit capability
            (ok_or (lookup capability driver.declared) (unknown_capability capability) >>= λ d.
              prepare d actor_id capability target_ref params timeout_secs)
            w
