-- ===== src/Guard/Error.antt =====
-- crates/daimon-guard/src/error.rs. A message of a library (`io`, `toml`, `pool`, `pg`) is kept as
-- its text.
use daimon.Common.Text.{Text}

pub data Error : Type 0 where
  io toml pool pg decode : Text → Error
  kill_engaged policy_denied approval_required approval_timeout other : Text → Error
