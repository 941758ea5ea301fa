-- ===== src/Examples/Broker.antt =====
-- The broker at a concrete installation, whose guard is that of Examples/Gate.
use daimon.Common.{ℕ, ◌≡◌, refl, ◌↔◌, ◌⊎◌, inl, true, false, none, some, [], ◌∷◌, ◌++◌, All}
use daimon.Common.Text.{Text, codes}
use daimon.Common.Result.{ok}
use daimon.Core.Capability.{Capability, is_read}
use daimon.Audit.Event.{NewAuditEvent}
use daimon.Audit.Event as Event
use daimon.Vault.Refspec.{CredentialRef}
use daimon.Inventory.Target.{ManagedTarget, ssh, network}
use daimon.Guard.Policy.{Decision, allow, deny, require_approval, PolicyEngine, evaluate}
use daimon.Guard.Policy as Policy
use daimon.Guard.Approvals.{
  ApprovalRecord, ApprovalStatus, pending, approved, Write, decision, Pool, Session, is_decided,
  wait_for_decision,
}
use daimon.Guard.Approvals as Approvals
use daimon.Broker.Op.{OpResult, shell_command, shell_output}
use daimon.Common.Integer.{pos}
use daimon.Broker.Request.{ExecRequest}
use daimon.Broker.Request as Request
use daimon.Broker.Lint.{lint_write_capabilities, names}
use daimon.Broker.Lint.Coherent.{IsCoherent, lint_write_capabilities_iff}
use daimon.Broker.Execute.{Services, Reply, execute, derive_read_only, capability_of}
use daimon.Broker.Execute as Execute
use daimon.Broker.Execute.Outcome.{execute_audits, SentOnce, Notes}
use daimon.Broker.Execute.Gate.{execute_gated, execute_write_approved, IsGranted, IsApprovedFor}
use daimon.Examples.Gate.{J, show_id, pool, guarded, quiet, after, approved_row, engine}
use daimon.Examples.Values.{json, semver}

abbrev pub managed_router : ManagedTarget
managed_router = record {
  ref = record { name = codes "r1" };
  kind = network;
  transport = ssh;
  host = codes "10.0.0.1";
  port = 22;
  credential_ref = codes "vault://r1";
  labels = [];
  capabilities = codes "network.drop" ∷ [];
}

abbrev pub done : OpResult J
done = shell_output (codes "done") [] (pos 0)

-- Each target is the router, each reference resolves, each transport succeeds.
abbrev pub services : Services J
services = record {
  Credential = CredentialRef;
  VaultError = Text;
  TransportError = Text;
  managed = λ n r. ok managed_router;
  resolve = λ r. ok r;
  transports = λ k. some (λ h p o c. ok done);
  audits = true;
  accepts = λ ev. true;
  elapsed_ms = 3;
  show_error = λ e. codes "error";
}

abbrev drop_rule : Capability ℕ J
drop_rule = record {
  name = codes "network.drop";
  version = 1;
  description = none;
  schema = none;
  compensating = none;
  irreversible = true;
}

abbrev request : ExecRequest ℕ J
unfolding Request.with_capability_meta Request.new
request =
    Request.with_capability_meta drop_rule
      (Request.new (codes "a") (record { name = codes "r1" }) (shell_command (codes "drop") 30))

abbrev pub idle : Execute.World J
idle = record { guarded = quiet; lookups = 0; sent = []; events = [] }

execute_audits_example :
    (r : Reply json semver services) × (w : Execute.World J) × (execute json semver services pool
        show_id
        (some guarded)
        request
        idle
      ≡ some (r, w))
    × SentOnce json semver services request idle w
    × ((ev : NewAuditEvent) × (w.events ≡ [] ++ ev ∷ []) × Notes json semver services request r ev)
execute_audits_example =
    execute_audits json semver services pool show_id (some guarded) request idle refl (λ ev. refl)

lint_write_capabilities_iff_example :
    (lint_write_capabilities (some guarded) (drop_rule ∷ []) ≡ ok tt)
    ↔ All (IsCoherent (some guarded) (names (drop_rule ∷ []))) (drop_rule ∷ [])
lint_write_capabilities_iff_example = lint_write_capabilities_iff (some guarded) (drop_rule ∷ [])

abbrev carried : Execute.World J
carried = record {
  guarded = record after {
    inbox = record {
      rows =
          record approved_row {
            created_at = 5;
            target_ref = some (codes "target://r1");
            params = json.object (
                (codes "target_ref", json.string (codes "target://r1"))
                ∷ (codes "op_summary", json.string (codes "ssh:exec:drop"))
                ∷ []);
          }
          ∷ [];
      statements = 2;
      clock = 10;
    };
    published =
        record {
          approval_id = 7;
          capability = codes "network.drop";
          target_ref = some (codes "target://r1");
          actor = codes "a";
        }
        ∷ [];
  };
  lookups = 2;
  sent =
      record {
        kind = ssh;
        host = codes "10.0.0.1";
        port = 22;
        op = shell_command (codes "drop") 30;
      }
      ∷ [];
  events =
      record {
        actor_id = codes "a";
        action = Event.broker_execute;
        target_ref = some (codes "target://r1");
        credential_ref = some (codes "vault://r1");
        op_summary = some (codes "ssh:exec:drop");
        result = Event.success;
        latency_ms = some 3;
        metadata = [];
      }
      ∷ [];
}

carried_out :
    execute json semver services pool show_id (some guarded) request idle ≡ some (ok done, carried)
unfolding execute Policy.glob_match wait_for_decision Approvals.enqueue Approvals.settle
    Approvals.get Approvals.read Approvals.writes Approvals.decide_row request evaluate
carried_out = refl

execute_gated_example :
    (carried.sent ≡ []) ⊎ IsGranted json semver services pool show_id guarded request idle carried
execute_gated_example =
    execute_gated json semver services pool show_id guarded request idle (λ n. (tt, tt)) tt
      (ok done) carried carried_out

execute_write_approved_example :
    (carried.sent ≡ [])
    ⊎ ((false ≡ false)
        × ((evaluate engine (codes "network.drop")).decision ≡ require_approval)
        × IsApprovedFor json semver services pool show_id guarded request carried)
unfolding lint_write_capabilities is_read evaluate Policy.glob_match request
execute_write_approved_example =
    execute_write_approved json semver services pool show_id guarded request idle (λ n. (tt, tt)) tt
      (drop_rule ∷ []) drop_rule refl (inl refl) refl refl refl (ok done) carried carried_out
