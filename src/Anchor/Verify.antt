-- ===== src/Anchor/Verify.antt =====
-- crates/daimon-anchor/src/verify.rs: the walk over the chain, oldest row first. The rows are those
-- that the query yields; a stored hash is a text of bytes, and so is the first previous hash.
use daimon.Common.{ℕ, List, [], ◌∷◌, length, if◌then◌else◌}
use daimon.Common.Text.{Text, text_eq}
use daimon.Anchor.Canonical.{AuditRow, canonicalize, compute_row_hash}

pub record StoredRow (T L : Type 0) : Type 0 where
  pub event_id : ℕ
  pub row : AuditRow T L
  pub row_hash : Text

-- The two hashes are kept as bytes; the code prints them in hexadecimal.
pub record ChainBreak (T : Type 0) : Type 0 where
  pub event_id : ℕ
  pub ts : T
  pub expected : Text
  pub stored : Text

pub record VerifyReport (T : Type 0) : Type 0 where
  pub rows_checked : ℕ
  pub breaks : List (ChainBreak T)

module _ {T L : Type 0} (show_ts : T → Text) (show_latency : L → Text) (sha256 : Text → Text) where
  abbrev pub computed : StoredRow T L → Text → Text
  unfolding compute_row_hash canonicalize
  computed r prev = compute_row_hash sha256 (canonicalize show_ts show_latency r.row) prev

  unfoldable pub breaks_from : Text → List (StoredRow T L) → List (ChainBreak T)
  unfolding text_eq compute_row_hash canonicalize
  breaks_from expected_prev [] = []
  breaks_from expected_prev (r ∷ rs) =
      let rest = breaks_from r.row_hash rs in
      if text_eq (computed r expected_prev) r.row_hash
      then rest
      else record {
        event_id = r.event_id;
        ts = r.row.ts;
        expected = computed r expected_prev;
        stored = r.row_hash;
      }
        ∷ rest

  unfoldable pub verify : Text → List (StoredRow T L) → VerifyReport T
  unfolding breaks_from
  verify genesis_prev_hash rows = record {
    rows_checked = length rows;
    breaks = breaks_from genesis_prev_hash rows;
  }
