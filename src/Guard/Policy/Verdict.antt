-- ===== src/Guard/Policy/Verdict.antt =====
-- What `evaluate` answers.
use native.Mathlib.Omega.{arith}
use daimon.Common.{
  ℕ, suc, ◌+◌, ◌≡◌, refl, sym, ◌∙◌, inl, inr, false, none, some, List, [], ◌∷◌, Bool-cases,
  get_elem?, take, All,
}
use daimon.Common.Text.{Text}
use daimon.Guard.Policy.{
  Decision, allow, deny, PolicyRule, PolicyVerdict, PolicyEngine, new, glob_match, evaluate_from,
  evaluate,
}
use daimon.Guard.Policy.Glob.{Matches, glob_match_iff}

-- The rule does not match the capability.
abbrev pub Skips : Text → PolicyRule → Type 0
Skips capability rule = ¬ Matches rule.capability capability

-- The verdict is that of the first matching rule, or the default where no rule matches.
pub data FirstMatch (default : Decision) (rules : List PolicyRule) (capability : Text)
    (v : PolicyVerdict) : Type 0 where
  no_match :
      All (Skips capability) rules
      → v.rule_index ≡ none
      → v.decision ≡ default
      → FirstMatch default rules capability v
  at_rule :
      (i : ℕ) (rule : PolicyRule)
      → get_elem? rules i ≡ some rule
      → Matches rule.capability capability
      → All (Skips capability) (take i rules)
      → v.rule_index ≡ some i
      → v.decision ≡ rule.decision
      → FirstMatch default rules capability v

abbrev shifted : ℕ → PolicyVerdict → PolicyVerdict
shifted k v = record v { rule_index = elim v.rule_index [ none ↦ none | some i ↦ some (i + k) ] }

Skips-of_false :
    (rule : PolicyRule) (capability : Text)
    → glob_match rule.capability capability ≡ false
    → Skips capability rule
Skips-of_false rule capability e m =
    ground (arith, e, (glob_match_iff rule.capability capability).1 m)

evaluate_from-shift :
    (d : Decision) (capability : Text) (i : ℕ) (rules : List PolicyRule)
    → evaluate_from d capability i rules ≡ shifted i (evaluate_from d capability 0 rules)
unfolding evaluate_from
evaluate_from-shift d capability i [] = refl
evaluate_from-shift d capability i (rule ∷ rules) = ground (
  arith,
  evaluate_from-shift d capability (suc i) rules,
  evaluate_from-shift d capability 1 rules,
)

cons_FirstMatch :
    (d : Decision) (capability : Text) (rule : PolicyRule) (rules : List PolicyRule)
    (v : PolicyVerdict)
    → Skips capability rule
    → FirstMatch d rules capability v
    → FirstMatch d (rule ∷ rules) capability (shifted 1 v)
cons_FirstMatch d capability rule rules v s (no_match a i e) = no_match (s, a) (ground arith) e
cons_FirstMatch d capability rule rules v s (at_rule i r g m a x e) =
    at_rule (suc i) r g m (s, a) (ground arith) e

evaluate_from-FirstMatch :
    (d : Decision) (capability : Text) (rules : List PolicyRule)
    → FirstMatch d rules capability (evaluate_from d capability 0 rules)
unfolding evaluate_from
evaluate_from-FirstMatch d capability [] = no_match tt refl refl
evaluate_from-FirstMatch d capability (rule ∷ rules) =
    elim (Bool-cases (glob_match rule.capability capability)) [
      | inl e ↦ rw e (at_rule 0 rule refl ((glob_match_iff _ _).0 e) tt refl refl)
      | inr e ↦
          rw (e, evaluate_from-shift d capability 1 rules)
            (cons_FirstMatch d capability rule rules _ (Skips-of_false rule capability e)
              (evaluate_from-FirstMatch d capability rules))
    ]

-- `evaluate` answers with the decision and the index of the first rule whose pattern matches the
-- capability, and with the engine's default decision and no index where no rule matches.
pub evaluate-FirstMatch :
    (engine : PolicyEngine) (capability : Text)
    → FirstMatch engine.default_decision engine.rules capability (evaluate engine capability)
unfolding evaluate
evaluate-FirstMatch engine capability =
    evaluate_from-FirstMatch engine.default_decision capability engine.rules

-- An engine that `new` builds allows a capability only by a rule that says `allow`, whose pattern
-- matches, and before which no rule matches.
pub evaluate_allow :
    (rules : List PolicyRule) (capability : Text)
    → (evaluate (new rules) capability).decision ≡ allow
    → (i : ℕ) × (rule : PolicyRule) × (get_elem? rules i ≡ some rule)
      × (rule.decision ≡ allow)
      × Matches rule.capability capability
      × All (Skips capability) (take i rules)
unfolding new
evaluate_allow rules capability h = go (evaluate-FirstMatch (new rules) capability)
  where
    go :
        FirstMatch deny rules capability (evaluate (new rules) capability)
        → (i : ℕ) × (rule : PolicyRule) × (get_elem? rules i ≡ some rule)
          × (rule.decision ≡ allow)
          × Matches rule.capability capability
          × All (Skips capability) (take i rules)
    go (no_match a x e) = absurd (ground (arith, h, e))
    go (at_rule i rule g m a x e) = (i, rule, g, sym e ∙ h, m, a)
