-- ===== src/Core/Capability.antt =====
-- crates/daimon-core/src/capability.rs: a capability and its server-side read-only disposition.
pub mod Disposition
use daimon.Common.{Bool, true, false, ◌&&◌, not, Option, none, some, List, [], ◌∷◌, any}
use daimon.Common.Text.{Text, codes, contains}

pub record CompensatingCapability : Type 0 where
  pub name : Text
  pub version_req : Option Text

-- `V` is the type of semantic versions and `J` that of JSON schemas, both of other crates.
pub record Capability (V J : Type 0) : Type 0 where
  pub name : Text
  pub version : V
  pub description : Option Text
  pub schema : Option J
  pub compensating : Option CompensatingCapability
  pub irreversible : Bool

abbrev pub is_none : Option CompensatingCapability → Bool
is_none none = true
is_none (some c) = false

unfoldable pub read_markers : List Text
read_markers =
    codes "_info"
    ∷ codes "_list"
    ∷ codes "list_"
    ∷ codes ".list"
    ∷ codes "_addresses"
    ∷ codes "ip_addresses"
    ∷ codes "_status"
    ∷ codes ".status"
    ∷ codes ".read"
    ∷ codes "_read"
    ∷ codes "read_state"
    ∷ codes "describe"
    ∷ codes "diagnose"
    ∷ codes ".get"
    ∷ codes "_get"
    ∷ codes "_show"
    ∷ codes "_print"
    ∷ []

unfoldable pub name_is_read : Text → Bool
unfolding contains read_markers
name_is_read name = any (contains name) read_markers

module _ {V J : Type 0} where
  unfoldable pub read_only : Text → V → Capability V J
  read_only name version = record {
    name = name;
    version = version;
    description = none;
    schema = none;
    compensating = none;
    irreversible = false;
  }

  unfoldable pub is_read : Capability V J → Bool
  is_read c = is_none c.compensating && (not c.irreversible && name_is_read c.name)
