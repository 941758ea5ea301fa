-- ===== src/Driver/Returns.antt =====
-- crates/daimon-driver/src/types.rs: what the verbs of a driver return.
use daimon.Common.{Option}
use daimon.Common.Text.{Text}
use daimon.Driver.Class.{TargetClass}

-- `J` is the type of JSON values.
pub record TargetShape (J : Type 0) : Type 0 where
  pub class : TargetClass
  pub identity : J
  pub summary : Text

pub record StateDoc (J : Type 0) : Type 0 where
  pub target : Text
  pub doc : J

pub data Severity : Type 0 where
  info warning error critical : Severity

pub record Finding (J : Type 0) : Type 0 where
  pub title : Text
  pub severity : Severity
  pub detail : Text
  pub suggested_capability : Option Text
  pub suggested_params : J

pub record Receipt (J : Type 0) : Type 0 where
  pub capability : Text
  pub changed : J
