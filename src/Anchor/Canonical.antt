-- ===== src/Anchor/Canonical.antt =====
-- crates/daimon-anchor/src/canonical.rs: the text of an audit row that is hashed. How a time and a
-- latency print, and SHA-256, are parameters. Texts stand for their UTF-8 bytes.
use daimon.Common.{Option, none, some, List, [], ◌∷◌, ◌++◌}
use daimon.Common.Text.{Text, codes}

-- `T` and `L` are the types of times and of latencies.
pub record AuditRow (T L : Type 0) : Type 0 where
  pub ts : T
  pub actor_id : Text
  pub action : Text
  pub target_ref : Option Text
  pub credential_ref : Option Text
  pub op_summary : Option Text
  pub result : Text
  pub latency_ms : Option L
  pub metadata_json : Text

abbrev pub or_default : Option Text → Text
or_default none = []
or_default (some t) = t

abbrev pub metadata_of : Text → Text
metadata_of [] = codes "{}"
metadata_of (c ∷ t) = c ∷ t

-- `parts.join("|")`.
unfoldable pub join_bar : List Text → Text
join_bar [] = []
join_bar (p ∷ []) = p
join_bar (p ∷ q ∷ ps) = p ++ (b'|' ∷ join_bar (q ∷ ps))

module _ {T L : Type 0} (show_ts : T → Text) (show_latency : L → Text) where
  abbrev pub latency_of : Option L → Text
  latency_of none = []
  latency_of (some n) = show_latency n

  unfoldable pub canonicalize : AuditRow T L → Text
  unfolding join_bar
  canonicalize row = join_bar (
      show_ts row.ts
      ∷ row.actor_id
      ∷ row.action
      ∷ or_default row.target_ref
      ∷ or_default row.credential_ref
      ∷ or_default row.op_summary
      ∷ row.result
      ∷ latency_of row.latency_ms
      ∷ metadata_of row.metadata_json
      ∷ [])

unfoldable pub compute_row_hash : (Text → Text) → Text → Text → Text
compute_row_hash sha256 canonical prev_hash = sha256 (canonical ++ prev_hash)
