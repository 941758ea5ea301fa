-- ===== src/Examples/Drivers.antt =====
-- The drivers at the installation of Examples/Broker, whose transport answers `done` with exit status 0.
use daimon.Common.{ℕ, ◌≡◌, refl, inl, inr, true, false, not, none, some, [], ◌∷◌, ◌++◌, all, In}
use daimon.Common.Text.{Text, codes, text_eq, contains_char, decimal, decimal_from, is_digit}
use daimon.Common.Result.{Result, ok, err}
use daimon.Common.Map.{lookup}
use daimon.Broker.Op.{bearer}
use daimon.Broker.Execute.{World}
use daimon.Runtime.Dispatcher.{AgentEnvelope, by_capability, direct}
use daimon.Orchestrator.Dispatch.{compensation_params, reports_failure}
use daimon.Driver.Param.{
  ParamError, cidr_char, safe_text_char, safe_text, identifier, int, validate, parse_i64, up_to,
  as_neg,
}
use daimon.Driver.Param.Inert.{plain_char, is_plain, validate-plain}
use daimon.Driver.Render.Chars.{literals}
use daimon.Driver.Class.{TargetClass, DriverError}
use daimon.Driver.Class as Class
use daimon.Driver.Profile.{
  ProfileCapability, ProfileOp, ProfileTransport, ssh, ConnectorProfile, ConnectorError,
  target_class, class_slug, project_capability,
}
use daimon.Driver.Profile as Profile
use daimon.Driver.Render.{substitute}
use daimon.Driver.Render.Template.{substitute-filled}
use daimon.Driver.Connector.{DeclaredCap, ConnectorDriver, ConnectorOutput}
use daimon.Driver.Connector as Connector
use daimon.Driver.Connector.Chars.{dispatch-SendsMade, SendsMade}
use daimon.Driver.Connector.Load.{from_dir}
use daimon.Driver.Connector.Served.{from_dir-serves}
use daimon.Driver.Connector.Reply.{ConnectorRequest}
use daimon.Driver.Connector.Bus as Bus
use daimon.Driver.Connector.Honest.{handle-honest, succeeded}
use daimon.RouterOs.Command.{param, text_param, build_command, push_options, check, required}
use daimon.RouterOs.Command.Inverse.{build_command-remove_rule}
use daimon.RouterOs.Dispatch.{NetworkRequest, NetworkOutput, Shown, Err, Failure, dispatch, handle}
use daimon.RouterOs.Dispatch.Sends.{dispatch-SendsPlain, SendsPlain}
use daimon.RouterOs.Dispatch.Answers.{handle-answers, TellsRun}
use daimon.Examples.Gate.{J, show_id, pool}
use daimon.Examples.Broker.{services, idle}
use daimon.Examples.Values.{json, semver, get, fields, is_object}

abbrev shown : Shown J (Failure json semver services)
shown = record {
  ref_error = λ e. [];
  result = λ r. [];
  error = λ e. codes "error";
  broker_error = λ e. [];
}

-- A rule with a comment of one word.
abbrev rule : J
rule = json.object (
    (codes "dst_address", json.string (codes "10.0.0.0/8"))
    ∷ (codes "comment", json.string (codes "blocked"))
    ∷ [])

dispatch-SendsPlain_example :
    (r : Result NetworkOutput (Err json semver services)) × (v : World J) × (dispatch json semver
        services shown pool show_id none
        (codes "a")
        (codes "network.routeros.firewall_add_drop_rule")
        (codes "target://r1")
        (some rule)
        30
        idle
      ≡ some (r, v))
    × SendsPlain json semver services shown 30 idle v
dispatch-SendsPlain_example =
    dispatch-SendsPlain json semver services shown pool show_id none (codes "a")
      (codes "network.routeros.firewall_add_drop_rule") (codes "target://r1") (some rule) 30 idle

abbrev add_rule : NetworkRequest J
add_rule = record {
  capability = codes "network.routeros.firewall_add_drop_rule";
  target_ref = codes "target://r1";
  timeout_secs = none;
  params = some rule;
}

abbrev envelope : AgentEnvelope json semver
envelope = record {
  correlation_id = 5;
  from = codes "a";
  to = by_capability (codes "network.routeros.firewall_add_drop_rule") none;
  reply_to = none;
  body = rule;
}

handle-answers_example :
    (v : World J) × (reply : AgentEnvelope json semver) × (handle json semver services shown pool
        show_id none
        (λ b. ok add_rule)
        (codes "r")
        envelope
        idle
      ≡ some (reply, v))
    × (reply.correlation_id ≡ 5)
    × (reply.to ≡ direct (codes "a"))
    × TellsRun json semver services shown pool show_id none (codes "a") add_rule idle v reply.body
handle-answers_example =
    handle-answers json semver services shown pool show_id none (λ b. ok add_rule) (codes "r")
      envelope idle add_rule refl

-- A rule with a comment of two words.
abbrev rule_of_two : J
rule_of_two = json.object (
    (codes "dst_address", json.string (codes "10.0.0.0/8"))
    ∷ (codes "comment", json.string (codes "no ssh"))
    ∷ [])

build_command-remove_rule_example :
    (validate (codes "no ssh") safe_text ≡ ok tt)
    × ((e : ParamError) × (build_command {B = Text} json
            (codes "network.routeros.firewall_remove_rule")
            (some (compensation_params json semver rule_of_two))
          ≡ err (param e)))
unfolding get fields text_eq is_object text_param build_command validate push_options check required
    cidr_char safe_text_char
build_command-remove_rule_example =
    build_command-remove_rule json semver {B = Text} rule_of_two (codes "no ssh")
      (codes
        "/ip firewall filter add chain=forward action=drop dst-address=10.0.0.0/8 comment=\"no ssh\"")
      refl refl refl (inr (inr (inl refl))) refl

abbrev connector_shown : Connector.Shown J (Connector.Failure json semver services)
connector_shown = record {
  ref_error = λ e. [];
  result = λ r. [];
  broker_error = λ e. [];
  error = λ e. codes "error";
  status = λ i. codes "1";
}

abbrev template : Text
template = codes "systemctl restart {service}"

abbrev restart : ProfileCapability ℕ J
restart = record {
  name = codes "compute.linux.restart";
  version = 1;
  description = none;
  compensating = none;
  irreversible = true;
  is_read_only = false;
  params = (codes "service", identifier) ∷ [];
  op = record {
    method = Profile.get;
    path = [];
    body = none;
    command = some template;
    timeout_secs = none;
    oid = none;
    walk = false;
  };
  hint = none;
}

abbrev linux : ConnectorProfile ℕ J
linux = record {
  name = codes "linux";
  class = Profile.compute;
  transport = ssh;
  auth = none;
  capabilities = restart ∷ [];
}

abbrev connector : ConnectorDriver ℕ J
connector = record {
  id = codes "agent:connector:compute";
  class = Class.compute;
  capabilities = [];
  declared =
      (codes "compute.linux.restart", record { cap = restart; auth = bearer; transport = ssh })
      ∷ [];
  actor_id = codes "agent:connector";
}

abbrev nginx : J
nginx = json.object ((codes "service", json.string (codes "nginx")) ∷ [])

dispatch-SendsMade_example :
    (r : Result (ConnectorOutput J) ConnectorError) × (v : World J) × (Connector.dispatch json
        semver services connector_shown pool show_id none connector
        (codes "a")
        (codes "compute.linux.restart")
        (codes "target://r1")
        nginx
        30
        idle
      ≡ some (r, v))
    × SendsMade plain_char (λ c h. h) json semver services connector_shown idle v
unfolding plain_char literals is_plain
dispatch-SendsMade_example =
    dispatch-SendsMade plain_char (λ c h. h) json semver services connector_shown pool show_id none
      connector (codes "a") (codes "compute.linux.restart") (codes "target://r1") nginx 30 idle
      (((refl, (refl, tt)), (refl, tt)), tt)

substitute-filled_example :
    substitute
      (codes "systemctl restart {service} --now")
      (codes "c")
      ((codes "service", codes "nginx") ∷ [])
    ≡ ok (codes "systemctl restart nginx --now")
unfolding lookup text_eq contains_char
substitute-filled_example =
    substitute-filled (codes "c") ((codes "service", codes "nginx") ∷ [])
      (codes "systemctl restart ") ((codes "service", codes " --now") ∷ []) (refl, refl, refl)

from_dir-serves_example :
    (d : ConnectorDriver ℕ J) × In d
      (from_dir json (codes "agent:connector") (linux ∷ []) (codes "a"))
    × (d.class ≡ target_class Profile.compute)
    × (d.id ≡ codes "agent:connector" ++ (codes ":" ++ class_slug (target_class Profile.compute)))
    × In (project_capability json restart) d.capabilities
from_dir-serves_example =
    from_dir-serves json (codes "agent:connector") (codes "a") (linux ∷ []) linux restart (inl refl)
      (inl refl)

abbrev restart_nginx : ConnectorRequest J
restart_nginx = record {
  capability = codes "compute.linux.restart";
  target_ref = codes "target://r1";
  timeout_secs = none;
  params = some nginx;
}

abbrev asking : AgentEnvelope json semver
asking = record {
  correlation_id = 6;
  from = codes "a";
  to = direct (codes "agent:connector:compute");
  reply_to = none;
  body = nginx;
}

handle-honest_example :
    (r : Result (ConnectorOutput J) ConnectorError) × (v : World J) × (reply : AgentEnvelope json
      semver)
    × (Connector.dispatch json semver services connector_shown pool show_id none connector
          (codes "a")
          (codes "compute.linux.restart")
          (codes "target://r1")
          nginx
          30
          idle
        ≡ some (r, v))
    × (Bus.handle json semver services connector_shown pool show_id none connector
          (λ b. ok restart_nginx)
          asking
          idle
        ≡ some (reply, v))
    × (reply.correlation_id ≡ 6)
    × (reply.to ≡ direct (codes "a"))
    × (reports_failure json semver reply.body
        ≡ not (succeeded json semver services connector_shown pool show_id none connector r))
handle-honest_example =
    handle-honest json semver services connector_shown pool show_id none connector
      (λ b. ok restart_nginx) asking idle restart_nginx refl

validate-plain_example : all plain_char (codes "-12") ≡ true
unfolding validate is_plain parse_i64 decimal decimal_from is_digit up_to as_neg
validate-plain_example = validate-plain (codes "-12") int refl refl
