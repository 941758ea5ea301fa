-- ===== src/Examples/Records.antt =====
-- Names, references, registries, rows and policies at concrete inputs.
use native.Mathlib.Omega.{arith}
use daimon.Common.{
  ℕ, ◌≡◌, refl, ◌↔◌, inl, true, false, none, some, List, [], ◌∷◌, In, All, get_elem?, take,
}
use daimon.Common.Text.{Text, codes, contains_char}
use daimon.Common.Result.{ok}
use daimon.Core.Capability.{Capability, is_read, read_markers}
use daimon.Core.Capability.Disposition.{Within, is_read_iff}
use daimon.Vault.Refspec.{CredentialRef, named, path}
use daimon.Vault.Refspec as Vault
use daimon.Vault.Refspec.Printing.{to_string-parse}
use daimon.Inventory.Refspec.{TargetRef, to_string, parse}
use daimon.Inventory.Refspec.RoundTrip.{parse-to_string}
use daimon.Guard.Policy.{allow, require_approval, PolicyRule, new, glob_match, evaluate}
use daimon.Guard.Policy.Glob.{Matches, glob_match_iff}
use daimon.Guard.Policy.Verdict.{Skips, evaluate_allow}
use daimon.Guard.Approvals.{ApprovalRecord, denied, approved, decision, expiry, writes}
use daimon.Guard.Approvals.Rows.{writes_closed}

abbrev router : TargetRef
router = record { name = codes "r1" }

parse-to_string_example : parse (to_string router) ≡ ok router
parse-to_string_example =
    parse-to_string router ((λ e. ground (arith, e)), unfold contains_char in refl)

to_string-parse_example :
    Vault.to_string (path (codes "o") (codes "c") (codes "i")) ≡ codes "vault://o/c/i"
unfolding Vault.parse
to_string-parse_example =
    to_string-parse (codes "vault://o/c/i") (path (codes "o") (codes "c") (codes "i")) refl

-- The name of a write that has a read marker in it.
abbrev list_add : Capability ℕ ℕ
list_add = record {
  name = codes "network.firewall.address_list.add";
  version = 1;
  description = none;
  schema = none;
  compensating = none;
  irreversible = false;
}

is_read_iff_example : (is_read list_add ≡ true) ↔ (
    (list_add.compensating ≡ none)
    × (list_add.irreversible ≡ false)
    × ((m : Text) × In m read_markers × Within m list_add.name))
is_read_iff_example = is_read_iff list_add

glob_match_iff_example :
    (glob_match (codes "network.*") (codes "network.info") ≡ true)
    ↔ Matches (codes "network.*") (codes "network.info")
glob_match_iff_example = glob_match_iff (codes "network.*") (codes "network.info")

abbrev rules : List PolicyRule
rules =
    record { capability = codes "network.drop"; decision = require_approval; description = none }
    ∷ record { capability = codes "network.*"; decision = allow; description = none }
    ∷ []

evaluate_allow_example :
    (i : ℕ) × (rule : PolicyRule) × (get_elem? rules i ≡ some rule)
    × (rule.decision ≡ allow)
    × Matches rule.capability (codes "network.info")
    × All (Skips (codes "network.info")) (take i rules)
unfolding evaluate new glob_match
evaluate_allow_example = evaluate_allow rules (codes "network.info") refl

abbrev denied_row : ApprovalRecord ℕ
denied_row = record {
  id = 7;
  actor_id = codes "a";
  capability = codes "network.drop";
  target_ref = none;
  params = 0;
  status = denied;
  created_at = 1;
  decided_at = some 2;
  decided_by = some 9;
}

writes_closed_example :
    In denied_row (writes (decision 7 9 approved 3 ∷ expiry 7 4 ∷ []) (denied_row ∷ []))
writes_closed_example =
    writes_closed (decision 7 9 approved 3 ∷ expiry 7 4 ∷ []) (denied_row ∷ []) denied_row refl
      (inl refl)
