-- ===== src/Guard/Policy.antt =====
-- crates/daimon-guard/src/policy.rs: the ordered rules, their globs and the evaluation.
pub mod Glob
pub mod Verdict
use daimon.Common.{
  ℕ, suc, Bool, true, false, ◌||◌, Option, none, some, List, [], ◌∷◌, ◌++◌, if◌then◌else◌,
}
use daimon.Common.Text.{Text, codes, text_eq, starts_with, strip_suffix}

pub data Decision : Type 0 where
  allow deny require_approval : Decision

pub record PolicyRule : Type 0 where
  pub capability : Text
  pub decision : Decision
  pub description : Option Text

pub record PolicyVerdict : Type 0 where
  pub decision : Decision
  pub rule_index : Option ℕ

pub record PolicyEngine : Type 0 where
  pub rules : List PolicyRule
  pub default_decision : Decision

unfoldable pub new : List PolicyRule → PolicyEngine
new rules = record { rules = rules; default_decision = deny }

abbrev pub dot_star : Text
dot_star = codes ".*"

abbrev pub dot : Text
dot = codes "."

abbrev pub star : Text
star = codes "*"

glob_prefix : Option Text → Text → Text → Bool
unfolding text_eq starts_with
glob_prefix (some prefix) pattern value = text_eq value prefix || starts_with value (prefix ++ dot)
glob_prefix none pattern value = text_eq pattern star

unfoldable pub glob_match : Text → Text → Bool
unfolding glob_prefix text_eq strip_suffix
glob_match pattern value =
    if text_eq pattern value
    then true
    else glob_prefix (strip_suffix pattern dot_star) pattern value

-- The loop of `evaluate`, from the rule with index `i` on.
unfoldable pub evaluate_from : Decision → Text → ℕ → List PolicyRule → PolicyVerdict
evaluate_from default capability i [] = record { decision = default; rule_index = none }
evaluate_from default capability i (rule ∷ rules) =
    let rest = evaluate_from default capability (suc i) rules in
    if glob_match rule.capability capability
    then record { decision = rule.decision; rule_index = some i }
    else rest

unfoldable pub evaluate : PolicyEngine → Text → PolicyVerdict
unfolding evaluate_from
evaluate engine capability = evaluate_from engine.default_decision capability 0 engine.rules
