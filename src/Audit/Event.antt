-- ===== src/Audit/Event.antt =====
-- crates/daimon-audit/src/event.rs: the kinds of audited actions, and an event before the sink gives
-- it an id and a time.
use daimon.Common.{ℕ, ◌≡◌, refl, Option, none, some, List, [], if◌then◌else◌}
use daimon.Common.Text.{Text, codes, text_eq}
use daimon.Common.Map.{text_Eq, insert}

pub data ActionKind : Type 0 where
  broker_execute vault_resolve vault_reveal vault_create vault_update vault_rename vault_delete
        inventory_upsert inventory_remove inventory_resolve transport_dispatch guard_approve
        guard_deny memory_ingest memory_retrieve memory_write other :
      ActionKind

unfoldable pub action_str : ActionKind → Text
action_str broker_execute = codes "broker.execute"
action_str vault_resolve = codes "vault.resolve"
action_str vault_reveal = codes "vault.reveal"
action_str vault_create = codes "vault.create"
action_str vault_update = codes "vault.update"
action_str vault_rename = codes "vault.rename"
action_str vault_delete = codes "vault.delete"
action_str inventory_upsert = codes "inventory.upsert"
action_str inventory_remove = codes "inventory.remove"
action_str inventory_resolve = codes "inventory.resolve"
action_str transport_dispatch = codes "transport.dispatch"
action_str guard_approve = codes "guard.approve"
action_str guard_deny = codes "guard.deny"
action_str memory_ingest = codes "memory.ingest"
action_str memory_retrieve = codes "memory.retrieve"
action_str memory_write = codes "memory.write"
action_str other = codes "other"

unfoldable pub action_from : Text → ActionKind
unfolding text_eq
action_from s =
    if text_eq s (codes "broker.execute")
    then broker_execute
    else if text_eq s (codes "vault.resolve")
    then vault_resolve
    else if text_eq s (codes "vault.reveal")
    then vault_reveal
    else if text_eq s (codes "vault.create")
    then vault_create
    else if text_eq s (codes "vault.update")
    then vault_update
    else if text_eq s (codes "vault.rename")
    then vault_rename
    else if text_eq s (codes "vault.delete")
    then vault_delete
    else if text_eq s (codes "inventory.upsert")
    then inventory_upsert
    else if text_eq s (codes "inventory.remove")
    then inventory_remove
    else if text_eq s (codes "inventory.resolve")
    then inventory_resolve
    else if text_eq s (codes "transport.dispatch")
    then transport_dispatch
    else if text_eq s (codes "guard.approve")
    then guard_approve
    else if text_eq s (codes "guard.deny")
    then guard_deny
    else if text_eq s (codes "memory.ingest")
    then memory_ingest
    else if text_eq s (codes "memory.retrieve")
    then memory_retrieve
    else if text_eq s (codes "memory.write")
    then memory_write
    else other

pub data AuditResult : Type 0 where
  success error denied : AuditResult

unfoldable pub result_str : AuditResult → Text
result_str success = codes "success"
result_str error = codes "error"
result_str denied = codes "denied"

unfoldable pub result_from : Text → AuditResult
unfolding text_eq
result_from s =
    if text_eq s (codes "success")
    then success
    else if text_eq s (codes "error")
    then error
    else if text_eq s (codes "denied")
    then denied
    else error

-- What the log stores of an action's kind and of its result, it reads back.
pub audit_round_trip :
    ((a : ActionKind) → action_from (action_str a) ≡ a)
    × ((r : AuditResult) → result_from (result_str r) ≡ r)
unfolding action_from action_str result_from result_str
audit_round_trip = (actions, results)
  where
    actions : (a : ActionKind) → action_from (action_str a) ≡ a
    actions broker_execute = refl
    actions vault_resolve = refl
    actions vault_reveal = refl
    actions vault_create = refl
    actions vault_update = refl
    actions vault_rename = refl
    actions vault_delete = refl
    actions inventory_upsert = refl
    actions inventory_remove = refl
    actions inventory_resolve = refl
    actions transport_dispatch = refl
    actions guard_approve = refl
    actions guard_deny = refl
    actions memory_ingest = refl
    actions memory_retrieve = refl
    actions memory_write = refl
    actions other = refl

    results : (r : AuditResult) → result_from (result_str r) ≡ r
    results success = refl
    results error = refl
    results denied = refl

pub record NewAuditEvent : Type 0 where
  pub actor_id : Text
  pub action : ActionKind
  pub target_ref : Option Text
  pub credential_ref : Option Text
  pub op_summary : Option Text
  pub result : AuditResult
  pub latency_ms : Option ℕ
  pub metadata : List (Text × Text)

unfoldable pub new : Text → ActionKind → AuditResult → NewAuditEvent
new actor_id action result = record {
  actor_id = actor_id;
  action = action;
  target_ref = none;
  credential_ref = none;
  op_summary = none;
  result = result;
  latency_ms = none;
  metadata = [];
}

unfoldable pub with_target : Text → NewAuditEvent → NewAuditEvent
with_target target ev = record ev { target_ref = some target }

unfoldable pub with_credential : Text → NewAuditEvent → NewAuditEvent
with_credential cred ev = record ev { credential_ref = some cred }

unfoldable pub with_op_summary : Text → NewAuditEvent → NewAuditEvent
with_op_summary s ev = record ev { op_summary = some s }

unfoldable pub with_latency_ms : ℕ → NewAuditEvent → NewAuditEvent
with_latency_ms ms ev = record ev { latency_ms = some ms }

unfoldable pub with_metadata : Text → Text → NewAuditEvent → NewAuditEvent
unfolding insert
with_metadata key value ev = record ev { metadata = insert key value ev.metadata }
