-- ===== src/Guard/Kill.antt =====
-- crates/daimon-guard/src/kill_switch.rs: the shared kill state.
use daimon.Common.{Bool, true, false, []}
use daimon.Common.Text.{Text}

pub record KillState : Type 0 where
  pub engaged : Bool
  pub reason : Text

unfoldable pub new : KillState
new = record { engaged = false; reason = [] }

unfoldable pub engage : Text → KillState → KillState
engage reason k = record { engaged = true; reason = reason }

unfoldable pub release : KillState → KillState
release k = record { engaged = false; reason = [] }
