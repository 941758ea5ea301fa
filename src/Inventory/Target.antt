-- ===== src/Inventory/Target.antt =====
-- crates/daimon-inventory/src/target.rs: a managed target, and the view of it that workers see.
use daimon.Common.{ℕ, List, Bool, true, false}
use daimon.Common.Text.{Text}
use daimon.Inventory.Refspec.{TargetRef}

pub data TargetKind : Type 0 where
  platform network host_machine app : TargetKind

pub data TransportKind : Type 0 where
  ssh rest snmp grpc : TransportKind

pub record TargetMetadata : Type 0 where
  pub ref : TargetRef
  pub kind : TargetKind
  pub transport : TransportKind
  pub host : Text
  pub port : ℕ
  pub labels : List (Text × Text)
  pub capabilities : List Text

pub record ManagedTarget : Type 0 where
  pub ref : TargetRef
  pub kind : TargetKind
  pub transport : TransportKind
  pub host : Text
  pub port : ℕ
  pub credential_ref : Text
  pub labels : List (Text × Text)
  pub capabilities : List Text

unfoldable pub metadata : ManagedTarget → TargetMetadata
metadata t = record {
  ref = t.ref;
  kind = t.kind;
  transport = t.transport;
  host = t.host;
  port = t.port;
  labels = t.labels;
  capabilities = t.capabilities;
}

-- `PartialEq` of the two enums.
unfoldable pub kind_eq : TargetKind → TargetKind → Bool
kind_eq platform platform = true
kind_eq network network = true
kind_eq host_machine host_machine = true
kind_eq app app = true
kind_eq _ _ = false

unfoldable pub transport_eq : TransportKind → TransportKind → Bool
transport_eq ssh ssh = true
transport_eq rest rest = true
transport_eq snmp snmp = true
transport_eq grpc grpc = true
transport_eq _ _ = false
