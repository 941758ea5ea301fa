-- ===== src/Broker/Request.antt =====
-- crates/daimon-broker/src/request.rs: what an agent asks of the broker.
use daimon.Common.{Bool, false, Option, none, some}
use daimon.Common.Text.{Text}
use daimon.Core.Capability.{Capability, is_read}
use daimon.Inventory.Refspec.{TargetRef}
use daimon.Broker.Op.{Op}

-- `V` is the type of versions and `J` that of JSON values.
pub record ExecRequest (V J : Type 0) : Type 0 where
  pub target_ref : TargetRef
  pub op : Op J
  pub actor_id : Text
  pub capability : Option Text
  pub is_read_only : Bool
  pub capability_meta : Option (Capability V J)

module _ {V J : Type 0} where
  unfoldable pub new : Text → TargetRef → Op J → ExecRequest V J
  new actor_id target_ref op = record {
    target_ref = target_ref;
    op = op;
    actor_id = actor_id;
    capability = none;
    is_read_only = false;
    capability_meta = none;
  }

  unfoldable pub with_capability : Text → Bool → ExecRequest V J → ExecRequest V J
  with_capability capability is_read_only req = record req {
    capability = some capability;
    is_read_only = is_read_only;
  }

  unfoldable pub with_capability_meta : Capability V J → ExecRequest V J → ExecRequest V J
  unfolding is_read
  with_capability_meta capability req = record req {
    is_read_only = is_read capability;
    capability = some capability.name;
    capability_meta = some capability;
  }
