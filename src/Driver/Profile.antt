-- ===== src/Driver/Profile.antt =====
-- crates/daimon-driver/src/connector.rs: the profiles of the connectors, and the capabilities that
-- they declare.
use daimon.Common.{
  ℕ, Bool, true, false, Option, none, some, List, [], ◌∷◌, ◌++◌, if◌then◌else◌, map, filter, not,
}
use daimon.Common.Text.{Text, codes, text_eq, strip_prefix, split, trim}
use daimon.Common.Result.{Result, ok, err}
use daimon.Common.Integer.{ℤ}
use daimon.Common.Json.{Json}
use daimon.Core.Capability.{Capability, read_only}
use daimon.Broker.Op.{
  AuthScheme, bearer, no_auth, header, HttpMethod, get_method, post_method, put_method,
  patch_method, delete_method,
}
use daimon.Driver.Param.{ParamClass, safe_text, cidr, identifier, int, enum, ParamError}
use daimon.Driver.Class.{TargetClass, DriverError, param, unsupported, broker, parse, other}
use daimon.Driver.Class as Class

pub record ProfileAuth : Type 0 where
  pub scheme : Option Text
  pub header_name : Option Text
  pub header_value : Option Text

unfoldable pub header_scheme : Option Text → Option Text → AuthScheme
header_scheme (some h) (some v) = header h v
header_scheme _ _ = bearer

unfoldable pub scheme_of : Option Text → Option Text → Option Text → AuthScheme
unfolding text_eq header_scheme
scheme_of none h v = bearer
scheme_of (some s) h v =
    if text_eq s (codes "none")
    then no_auth
    else (if text_eq s (codes "header") then header_scheme h v else bearer)

unfoldable pub to_scheme : ProfileAuth → AuthScheme
unfolding scheme_of
to_scheme auth = scheme_of auth.scheme auth.header_name auth.header_value

pub data ProfileClass : Type 0 where
  compute network storage orchestrator firewall : ProfileClass

unfoldable pub target_class : ProfileClass → TargetClass
target_class compute = Class.compute
target_class network = Class.network
target_class storage = Class.storage
target_class orchestrator = Class.orchestrator
target_class firewall = Class.firewall

pub data ProfileTransport : Type 0 where
  rest ssh snmp : ProfileTransport

-- The members of `enum:a,b,c`.
unfoldable pub is_empty : Text → Bool
is_empty [] = true
is_empty (c ∷ s) = false

unfoldable pub members_of : Text → List Text
unfolding split trim is_empty
members_of members = filter (λ m. not (is_empty m)) (map trim (split b',' members))

unfoldable pub enum_class : List Text → Result ParamClass Text
enum_class [] = err (codes "enum: param class needs at least one member")
enum_class (m ∷ ms) = ok (enum (m ∷ ms))

unfoldable pub parse_param_class : Text → Result ParamClass Text
unfolding text_eq strip_prefix members_of enum_class
parse_param_class s =
    if text_eq s (codes "safe_text")
    then ok safe_text
    else (if text_eq s (codes "cidr")
        then ok cidr
        else (if text_eq s (codes "identifier")
            then ok identifier
            else (if text_eq s (codes "int")
                then ok int
                else elim (strip_prefix s (codes "enum:")) [
                  | some members ↦ enum_class (members_of members)
                  | none ↦ err (
                      codes "unknown param class `"
                      ++ (s ++ codes "` (expected safe_text|cidr|identifier|int|enum:a,b,c)"))
                ])))

pub data ProfileHttpMethod : Type 0 where
  get post put patch delete : ProfileHttpMethod

unfoldable pub http_method : ProfileHttpMethod → HttpMethod
http_method get = get_method
http_method post = post_method
http_method put = put_method
http_method patch = patch_method
http_method delete = delete_method

-- `J` is the type of JSON values and `V` that of versions.
pub record ProfileOp (J : Type 0) : Type 0 where
  pub method : ProfileHttpMethod
  pub path : Text
  pub body : Option J
  pub command : Option Text
  pub timeout_secs : Option ℕ
  pub oid : Option Text
  pub walk : Bool

pub data ParseHint : Type 0 where
  json_hint : ParseHint

-- `params` is in the order of the names.
pub record ProfileCapability (V J : Type 0) : Type 0 where
  pub name : Text
  pub version : V
  pub description : Option Text
  pub compensating : Option Text
  pub irreversible : Bool
  pub is_read_only : Bool
  pub params : List (Text × ParamClass)
  pub op : ProfileOp J
  pub hint : Option ParseHint

pub record ConnectorProfile (V J : Type 0) : Type 0 where
  pub name : Text
  pub class : ProfileClass
  pub transport : ProfileTransport
  pub auth : Option ProfileAuth
  pub capabilities : List (ProfileCapability V J)

pub data ConnectorError : Type 0 where
  io parse_profile : (path source : Text) → ConnectorError
  unknown_capability bad_target broker_error wrong_op_result bad_profile : Text → ConnectorError
  missing_param undeclared_param_class : (capability param : Text) → ConnectorError
  bad_param : (param : Text) → (source : ParamError) → ConnectorError
  capability_failed : (capability : Text) → (status : ℤ) → ConnectorError

-- `show` is the `Display` of the error.
unfoldable pub driver_error : (ConnectorError → Text) → ConnectorError → DriverError
driver_error show (bad_param name source) = param source
driver_error show (broker_error m) = broker m
driver_error show (unknown_capability m) = unsupported m
driver_error show (wrong_op_result m) = parse m
driver_error show e = other (show e)

unfoldable pub class_slug : TargetClass → Text
class_slug Class.compute = codes "compute"
class_slug Class.network = codes "network"
class_slug Class.storage = codes "storage"
class_slug Class.orchestrator = codes "orchestrator"
class_slug Class.firewall = codes "firewall"

module _ (json : Json) where
  unfoldable pub type_name : ParamClass → Text
  type_name int = codes "integer"
  type_name _ = codes "string"

  abbrev property : Text × ParamClass → Text × json.Value
  unfolding type_name
  property (name, class) = (name, json.object ((codes "type", json.string (type_name class)) ∷ []))

  unfoldable pub schema_from_params : List (Text × ParamClass) → json.Value
  unfolding property
  schema_from_params params = json.object (
      (codes "type", json.string (codes "object"))
      ∷ (codes "required", json.array (map (λ p. json.string p.0) params))
      ∷ (codes "properties", json.object (map property params))
      ∷ [])

module _ {V : Type 0} (json : Json) where
  unfoldable pub project_capability : ProfileCapability V json.Value → Capability V json.Value
  unfolding read_only schema_from_params
  project_capability cap = if cap.is_read_only then read_only cap.name cap.version else record {
    name = cap.name;
    version = cap.version;
    description = cap.description;
    schema = some (schema_from_params json cap.params);
    compensating = elim cap.compensating [
      | none ↦ none
      | some name ↦ some (record { name = name; version_req = none })
    ];
    irreversible = cap.irreversible;
  }
