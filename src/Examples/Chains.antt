-- ===== src/Examples/Chains.antt =====
-- A chain of one row, under a hash that is the text itself.
use daimon.Common.{ℕ, ◌≡◌, ◌↔◌, none, some, List, [], ◌∷◌}
use daimon.Common.Text.{Text, codes}
use daimon.Anchor.Canonical.{AuditRow}
use daimon.Anchor.Verify.{StoredRow, verify}
use daimon.Anchor.Chain.{IsChained, verify_iff}

abbrev show : ℕ → Text
show n = n ∷ []

abbrev row : AuditRow ℕ ℕ
row = record {
  ts = 1;
  actor_id = codes "a";
  action = codes "vault.reveal";
  target_ref = none;
  credential_ref = some (codes "vault://r1");
  op_summary = none;
  result = codes "success";
  latency_ms = some 3;
  metadata_json = [];
}

abbrev rows : List (StoredRow ℕ ℕ)
rows = record { event_id = 7; row = row; row_hash = codes "forged" } ∷ []

verify_iff_example :
    ((verify show show (λ t. t) (0 ∷ []) rows).breaks ≡ [])
    ↔ IsChained show show (λ t. t) (0 ∷ []) rows
verify_iff_example = verify_iff show show (λ t. t) (0 ∷ []) rows
