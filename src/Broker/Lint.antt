-- ===== src/Broker/Lint.antt =====
-- crates/daimon-broker/src/broker.rs, `lint_write_capabilities`: the check of the registered
-- capabilities against the policy that the application makes when it starts.
pub mod Coherent
use daimon.Common.{
  Bool, true, false, Option, none, some, List, [], ◌∷◌, ◌++◌, any, if◌then◌else◌, map,
}
use daimon.Common.Text.{Text, codes, text_eq}
use daimon.Common.Result.{Result, ok, err}
use daimon.Core.Capability.{Capability, CompensatingCapability, is_read}
use daimon.Guard.Policy.{Decision, allow, evaluate}
use daimon.Guard.PreFlight.{Guard}

abbrev pub is_allow : Decision → Bool
is_allow allow = true
is_allow _ = false

unfoldable pub dangling : List Text → Option CompensatingCapability → Option CompensatingCapability
dangling present none = none
dangling present (some comp) = if any (text_eq comp.name) present then none else some comp

-- A guard is optional: without one there is no policy to check against.
unfoldable pub auto_allowed : Option Guard → Text → Bool
auto_allowed none name = false
auto_allowed (some guard) name = is_allow (evaluate guard.policy name).decision

module _ {V J : Type 0} where
  abbrev pub names : List (Capability V J) → List Text
  names caps = map (λ c. c.name) caps

  unfoldable pub lint_write : Option Guard → Capability V J → Result (Unit {0}) Text
  unfolding auto_allowed
  lint_write guard cap =
      if is_read cap
      then ok tt
      else if auto_allowed guard cap.name
      then err (
          codes "write capability `"
          ++ (cap.name
              ++ codes
                  "` resolves to Allow under the shipped policy — must be deny or require_approval"))
      else ok tt

  -- One turn of the loop: the compensator first, then the policy of a write.
  unfoldable pub lint_cap :
      Option Guard → Capability V J → Option CompensatingCapability → Result (Unit {0}) Text
  unfolding lint_write
  lint_cap guard cap (some comp) = err (
      codes "capability `"
      ++ (cap.name
          ++ (codes "` names compensator `"
              ++ (comp.name
                  ++ codes
                      "` which is not present in the registered capability set — saga rollback would have nothing to dispatch"))))
  lint_cap guard cap none = lint_write guard cap

  unfoldable pub lint_from :
      Option Guard → List Text → List (Capability V J) → Result (Unit {0}) Text
  unfolding lint_cap dangling
  lint_from guard present [] = ok tt
  lint_from guard present (cap ∷ caps) =
      let rest = lint_from guard present caps in
      elim (lint_cap guard cap (dangling present cap.compensating)) [ err e ↦ err e | ok u ↦ rest ]

  unfoldable pub lint_write_capabilities :
      Option Guard → List (Capability V J) → Result (Unit {0}) Text
  unfolding lint_from
  lint_write_capabilities guard caps = lint_from guard (names caps) caps
