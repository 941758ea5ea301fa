-- ===== src/Orchestrator/Dispatch/Reports.antt =====
-- How a step reads the reply of a driver.
use daimon.Common.{◌≡◌, refl, ◌∙◌, Bool, not, none, some, List, ◌∷◌}
use daimon.Common.Text.{Text, codes, text_eq}
use daimon.Common.Json.{Json, Semver, last_value}
use daimon.Orchestrator.Dispatch.{reports_failure}

module _ (json : Json) (semver : Semver) where
  reports_failure-boolean :
      (reply : json.Value) (b : Bool)
      → json.get reply (codes "success") ≡ some (json.boolean b)
      → reports_failure json semver reply ≡ not b
  unfolding reports_failure
  reports_failure-boolean reply b h = rw (reports_failure, h, json.as_bool-boolean b) refl

  -- A reply whose first member is `success`, given no later one.
  pub reports_failure-object :
      (b : Bool) (rest : List (Text × json.Value))
      → last_value (codes "success") rest ≡ none
      → reports_failure json semver (json.object ((codes "success", json.boolean b) ∷ rest)) ≡ not b
  unfolding last_value text_eq
  reports_failure-object b rest h =
      let members = (codes "success", json.boolean b) ∷ rest in
      let first : last_value (codes "success") members ≡ some (json.boolean b) = rw h refl in
      reports_failure-boolean (json.object members) b
        (json.get-object members (codes "success") ∙ first)
