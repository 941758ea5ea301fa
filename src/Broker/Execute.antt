-- ===== src/Broker/Execute.antt =====
-- crates/daimon-broker/src/broker.rs: `execute`, from the guard over inventory, vault and transport
-- to the audit log. Inventory, vault, transports and sink are interfaces of the broker, taken here
-- as the record `Services`.
pub mod Gate
pub mod Outcome
use daimon.Common.{
  ℕ, suc, Bool, true, false, Option, none, some, List, [], ◌∷◌, ◌++◌, if◌then◌else◌,
}
use daimon.Common.Text.{Text, codes}
use daimon.Common.Result.{Result, ok, err, map_err}
use daimon.Common.Json.{Json, Semver}
use daimon.Core.Capability.{Capability, is_read}
use daimon.Audit.Event.{
  NewAuditEvent, AuditResult, success, error, broker_execute, new, with_target, with_credential,
  with_op_summary, with_latency_ms, with_metadata,
}
use daimon.Vault.Refspec.{CredentialRef, RefParseError, parse}
use daimon.Inventory.Refspec.{TargetRef, to_string}
use daimon.Inventory.Target.{TransportKind, ManagedTarget}
use daimon.Inventory.Registry.{InventoryError}
use daimon.Guard.Error.{Error}
use daimon.Guard.Approvals.{Pool}
use daimon.Guard.PreFlight.{Guard, pre_flight}
use daimon.Guard.PreFlight as PreFlight
use daimon.Broker.Op.{Op, OpResult, op_summary_for}
use daimon.Broker.Request.{ExecRequest}

-- `V` and `T` are the errors of the vault and of the transports.
pub data BrokerError (V T : Type 0) : Type 0 where
  inventory : InventoryError → BrokerError V T
  vault : V → BrokerError V T
  transport : T → BrokerError V T
  guard : Error → BrokerError V T
  credential_ref_parse : RefParseError → BrokerError V T
  no_transport : TransportKind → BrokerError V T
  admin_backend_not_available : Text → BrokerError V T
  audit : Text → BrokerError V T

-- The inventory answers as it stands at the n-th lookup. `transports` is the map from kinds to
-- transports, each a function of host, port, operation and credential. `audits` says whether there is
-- a sink, and `accepts` whether it takes an event; `show_error` is the `Display` of an error.
pub record Services (J : Type 0) : Type 1 where
  pub Credential : Type 0
  pub VaultError : Type 0
  pub TransportError : Type 0
  pub managed : ℕ → TargetRef → Result ManagedTarget InventoryError
  pub resolve : CredentialRef → Result Credential VaultError
  pub transports :
      TransportKind → Option (Text → ℕ → Op J → Credential → Result (OpResult J) TransportError)
  pub audits : Bool
  pub accepts : NewAuditEvent → Bool
  pub elapsed_ms : ℕ
  pub show_error : BrokerError VaultError TransportError → Text

-- An operation that a transport was given.
pub record Sent (J : Type 0) : Type 0 where
  pub kind : TransportKind
  pub host : Text
  pub port : ℕ
  pub op : Op J

pub record World (J : Type 0) : Type 0 where
  pub guarded : PreFlight.World J
  pub lookups : ℕ
  pub sent : List (Sent J)
  pub events : List NewAuditEvent

unfoldable pub derive_read_only : {V J : Type 0} → ExecRequest V J → Bool
unfolding is_read
derive_read_only req = elim req.capability_meta [ none ↦ false | some c ↦ is_read c ]

unfoldable pub capability_of : {V J : Type 0} → ExecRequest V J → Text
capability_of req = elim req.capability [ none ↦ codes "broker.execute" | some name ↦ name ]

module _ {V : Type 0} (json : Json) where
  -- The parameters that an approval shows.
  unfoldable pub approval_params : ExecRequest V json.Value → json.Value
  unfolding to_string op_summary_for
  approval_params req = json.object (
      (codes "target_ref", json.string (to_string req.target_ref))
      ∷ (codes "op_summary", json.string (op_summary_for req.op))
      ∷ [])

module _ (json : Json) (semver : Semver) (services : Services json.Value) where
  abbrev pub Failure : Type 0
  Failure = BrokerError services.VaultError services.TransportError

  abbrev pub Reply : Type 0
  Reply = Result (OpResult json.Value) Failure

  abbrev Wd : Type 0
  Wd = World json.Value

  abbrev Req : Type 0
  Req = ExecRequest semver.Version json.Value

  -- Steps 3 to 5.
  unfoldable pub dispatch_op : Req → ManagedTarget → services.Credential → Wd → Reply × Wd
  dispatch_op req target credential w = elim (services.transports target.transport) [
    | none ↦ (err (no_transport target.transport), w)
    | some run ↦ (
      map_err (run target.host target.port req.op credential) (λ e. transport e),
      record w {
        sent =
            w.sent
            ++ record {
              kind = target.transport;
              host = target.host;
              port = target.port;
              op = req.op;
            }
              ∷ [];
      },
    )
  ]

  unfoldable pub with_vault :
      Req → ManagedTarget → Result services.Credential services.VaultError → Wd → Reply × Wd
  unfolding dispatch_op
  with_vault req target (err e) w = (err (vault e), w)
  with_vault req target (ok credential) w = dispatch_op req target credential w

  unfoldable pub with_ref :
      Req → ManagedTarget → Result CredentialRef RefParseError → Wd → Reply × Wd
  unfolding with_vault
  with_ref req target (err e) w = (err (credential_ref_parse e), w)
  with_ref req target (ok vref) w = with_vault req target (services.resolve vref) w

  unfoldable pub with_target_row : Req → Result ManagedTarget InventoryError → Wd → Reply × Wd
  unfolding with_ref parse
  with_target_row req (err e) w = (err (inventory e), w)
  with_target_row req (ok target) w = with_ref req target (parse target.credential_ref) w

  -- Steps 1 to 5.
  unfoldable pub carry_out : Req → Wd → Reply × Wd
  unfolding with_target_row
  carry_out req w =
      with_target_row req (services.managed w.lookups req.target_ref)
        (record w { lookups = suc w.lookups })

  abbrev pub Answer : Type 0
  Answer = Option (Reply × Wd)

  unfoldable pub after_guard :
      Req → Option (Result (Unit {0}) Error × PreFlight.World json.Value) → Wd → Answer
  unfolding carry_out
  after_guard req none w = none
  after_guard req (some (err e, g)) w = some (err (guard e), record w { guarded = g })
  after_guard req (some (ok u, g)) w = some (carry_out req (record w { guarded = g }))

  unfoldable pub credential_of : Result ManagedTarget InventoryError → Option Text
  credential_of (ok m) = some m.credential_ref
  credential_of (err e) = none

  unfoldable pub result_tag : Reply → AuditResult
  result_tag (ok r) = success
  result_tag (err e) = error

  unfoldable pub note_credential : Option Text → NewAuditEvent → NewAuditEvent
  unfolding with_credential
  note_credential none ev = ev
  note_credential (some c) ev = with_credential c ev

  unfoldable pub note_error : Reply → NewAuditEvent → NewAuditEvent
  unfolding with_metadata
  note_error (ok r) ev = ev
  note_error (err e) ev = with_metadata (codes "error") (services.show_error e) ev

  unfoldable pub event_of : Req → Reply → Option Text → NewAuditEvent
  unfolding new with_target with_op_summary with_latency_ms note_credential note_error result_tag
      to_string op_summary_for
  event_of req result credential_ref = note_error result (
      note_credential credential_ref (
        with_latency_ms services.elapsed_ms (
          with_op_summary (op_summary_for req.op) (
            with_target (to_string req.target_ref)
              (new req.actor_id broker_execute (result_tag result))))))

  -- A sink that fails is only logged.
  unfoldable pub audit_execute : Req → Reply → Wd → Wd
  unfolding event_of credential_of
  audit_execute req result w =
      let ev = event_of req result (credential_of (services.managed w.lookups req.target_ref)) in
      let v = record w { lookups = suc w.lookups } in
      if services.audits
      then (if services.accepts ev then record v { events = w.events ++ ev ∷ [] } else v)
      else w

  unfoldable pub audited : Req → Answer → Answer
  unfolding audit_execute
  audited req none = none
  audited req (some (r, w)) = some (r, audit_execute req r w)

  module _ (pool : Pool json.Value) (show_id : ℕ → Text) where
    unfoldable pub execute_inner : Option Guard → Req → Wd → Answer
    unfolding after_guard carry_out pre_flight derive_read_only capability_of approval_params
        to_string
    execute_inner none req w = some (carry_out req w)
    execute_inner (some g) req w =
        after_guard req
          (pre_flight pool show_id g req.actor_id (capability_of req)
            (some (to_string req.target_ref)) (approval_params json req) (derive_read_only req)
            w.guarded)
          w

    -- `none` means that the fuel of the wait for an operator ran out.
    unfoldable pub execute : Option Guard → Req → Wd → Answer
    unfolding execute_inner audited
    execute attached req w = audited req (execute_inner attached req w)
