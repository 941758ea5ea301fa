-- ===== src/RouterOs/Verbs.antt =====
-- The verbs of the `Driver` trait on RouterOS devices.
use daimon.Common.{ℕ, Option, none, some, List, [], ◌∷◌, ◌++◌, ◌||◌, if◌then◌else◌}
use daimon.Common.Text.{Text, codes, text_eq, trim}
use daimon.Common.Result.{Result, ok, err}
use daimon.Common.Json.{Json, Semver}
use daimon.Guard.Approvals.{Pool}
use daimon.Guard.PreFlight.{Guard}
use daimon.Broker.Execute.{Services}
use daimon.Driver.Class.{TargetClass, firewall, DriverError, unsupported, other, parse}
use daimon.Driver.Class as Class
use daimon.Driver.Returns.{TargetShape, StateDoc, Finding, info, Receipt}
use daimon.RouterOs.Command.{
  RouterOsError, unknown_capability, missing_param, bad_target, wrong_op_result, param, broker,
  text_param,
}
use daimon.RouterOs.Catalog.{is_write_capability}
use daimon.RouterOs.Dispatch.{
  NetworkOutput, Shown, Failure, Err, Wd, default_timeout_secs, dispatch,
}

unfoldable pub driver_err : {E : Type 0} → (E → Text) → RouterOsError E → DriverError
driver_err show_broker (param e) = Class.param e
driver_err show_broker (broker e) = Class.broker (show_broker e)
driver_err show_broker (bad_target m) = other (codes "invalid target_ref: " ++ m)
driver_err show_broker (unknown_capability m) = unsupported m
driver_err show_broker (missing_param m) = other m
driver_err show_broker (wrong_op_result m) = parse m

-- The capability that reads a table.
unfoldable pub table_capability : Text → Option Text
unfolding text_eq
table_capability table =
    if text_eq table (codes "system") || text_eq table (codes "system_info")
    then some (codes "network.routeros.system_info")
    else (if text_eq table (codes "interface") || text_eq table (codes "interface_list")
        then some (codes "network.routeros.interface_list")
        else (if text_eq table (codes "ip.address") || text_eq table (codes "ip_addresses")
            then some (codes "network.routeros.ip_addresses")
            else (if text_eq table (codes "firewall.filter")
                  || text_eq table (codes "firewall_filter_list")
                then some (codes "network.routeros.firewall_filter_list")
                else none)))

module _ (json : Json) (semver : Semver) (services : Services json.Value)
    (shown : Shown json.Value (Failure json semver services)) where
  -- The answer of a verb from that of the dispatch: `map_err(driver_err)?` and the value built.
  unfoldable pub answer :
      {A : Type 0}
      → (NetworkOutput → A)
      → Option (Result NetworkOutput (Err json semver services) × Wd json semver services)
      → Option (Result A DriverError × Wd json semver services)
  unfolding driver_err
  answer f none = none
  answer f (some (ok out, w)) = some (ok (f out), w)
  answer f (some (err e, w)) = some (err (driver_err shown.broker_error e), w)

  module _ (pool : Pool json.Value) (show_id : ℕ → Text) (attached : Option Guard)
      (actor_id : Text) where
    abbrev Doing : Type 0 → Type 0
    Doing A = Option (Result A DriverError × Wd json semver services)

    abbrev run :
        Text
        → Text
        → Option json.Value
        → Wd json semver services
        → Option (Result NetworkOutput (Err json semver services) × Wd json semver services)
    unfolding dispatch
    run capability target params w =
        dispatch json semver services shown pool show_id attached actor_id capability target params
          default_timeout_secs w

    unfoldable pub describe : Text → Wd json semver services → Doing (TargetShape json.Value)
    unfolding answer run trim
    describe target w =
        answer
          (λ out. record {
            class = firewall;
            identity = json.object ((codes "system_identity", json.string (trim out.stdout)) ∷ []);
            summary = codes "RouterOS device " ++ target;
          })
          (run (codes "network.routeros.system_info") target none w)

    unfoldable pub state_doc : Text → Text → NetworkOutput → StateDoc json.Value
    state_doc target table out = record {
      target = target;
      doc = json.object (
          (codes "table", json.string table)
          ∷ (codes "command", json.string out.command)
          ∷ (codes "raw", json.string out.stdout)
          ∷ (codes "exit_status", json.integer out.exit_status)
          ∷ []);
    }

    unfoldable pub read_state :
        Text → json.Value → Wd json semver services → Doing (StateDoc json.Value)
    unfolding answer run text_param table_capability state_doc
    read_state target selector w =
        let table : Text = elim (text_param json selector (codes "table")) [
          | none ↦ codes "system"
          | some t ↦ t
        ] in
        elim (table_capability table) [
          | none ↦ some (
            err (
                unsupported (codes "read_state: unknown selector table `" ++ (table ++ codes "`"))),
            w,
          )
          | some capability ↦ answer (state_doc target table) (run capability target none w)
        ]

    unfoldable pub diagnose :
        Text → Text → Wd json semver services → Doing (List (Finding json.Value))
    unfolding answer run
    diagnose target symptom w =
        answer
          (λ out.
            record {
              title = codes "firewall filter table for symptom `" ++ (symptom ++ codes "`");
              severity = info;
              detail = out.stdout;
              suggested_capability = some (codes "network.routeros.firewall_remove_rule");
              suggested_params = json.object [];
            }
            ∷ [])
          (run (codes "network.routeros.firewall_filter_list") target none w)

    unfoldable pub receipt : Text → Text → json.Value → NetworkOutput → Receipt json.Value
    receipt target capability params out = record {
      capability = capability;
      changed = json.object (
          (codes "target", json.string target)
          ∷ (codes "params", params)
          ∷ (codes "command", json.string out.command)
          ∷ (codes "exit_status", json.integer out.exit_status)
          ∷ []);
    }

    unfoldable pub remediate :
        Text → Text → json.Value → Wd json semver services → Doing (Receipt json.Value)
    unfolding answer run is_write_capability receipt
    remediate target capability params w =
        let written =
          answer (receipt target capability params) (run capability target (some params) w) in
        if is_write_capability capability
        then written
        else some (
          err (
              unsupported (
                codes "remediate: `"
                ++ (capability ++ codes "` is not a RouterOS write capability"))),
          w,
        )
