-- ===== src/Driver/Class.antt =====
-- crates/daimon-driver/src/lib.rs and error.rs: target classes and the errors of a driver.
use daimon.Common.{Bool, true, false, Option, none, some, List, [], ◌∷◌, if◌then◌else◌, any}
use daimon.Common.Text.{Text, codes, text_eq, split_at}
use daimon.Driver.Param.{ParamError}

pub data TargetClass : Type 0 where
  compute network storage orchestrator firewall : TargetClass

-- `PartialEq`.
unfoldable pub class_eq : TargetClass → TargetClass → Bool
class_eq compute compute = true
class_eq network network = true
class_eq storage storage = true
class_eq orchestrator orchestrator = true
class_eq firewall firewall = true
class_eq _ _ = false

unfoldable pub firewall_subsystems : List Text
firewall_subsystems =
    codes "firewall" ∷ codes "routeros" ∷ codes "fortigate" ∷ codes "palo" ∷ codes "paloalto" ∷ []

-- The second segment of a name, given what follows the first.
unfoldable pub second_segment : Option Text → Text
unfolding split_at
second_segment none = []
second_segment (some rest) = (split_at b'.' rest).0

unfoldable pub parse_class : Text → TargetClass
unfolding split_at second_segment firewall_subsystems text_eq
parse_class capability_name =
    let (head, rest) = split_at b'.' capability_name in
    if text_eq head (codes "network")
    then (if any (text_eq (second_segment rest)) firewall_subsystems then firewall else network)
    else (if text_eq head (codes "compute")
        then compute
        else (if text_eq head (codes "storage")
            then storage
            else (if text_eq head (codes "orchestrator") then orchestrator else compute)))

pub data DriverError : Type 0 where
  param : ParamError → DriverError
  unsupported broker parse other : Text → DriverError
