-- ===== src/Guard/PreFlight.antt =====
-- crates/daimon-guard/src/lib.rs: the guard's facade and its pre-flight check.
pub mod Gate
pub mod Once
use daimon.Common.{
  ℕ, zero, suc, ◌+◌, ◌*◌, Bool, true, false, Option, none, some, List, [], ◌∷◌, ◌++◌, if◌then◌else◌,
  ltb,
}
use daimon.Common.Text.{Text, codes}
use daimon.Common.Result.{Result, ok, err}
use daimon.Guard.Error.{Error, kill_engaged, policy_denied, approval_timeout}
use daimon.Guard.Policy.{Decision, allow, deny, require_approval, PolicyEngine, evaluate}
use daimon.Guard.Kill.{KillState}
use daimon.Guard.Approvals.{
  ApprovalStatus, pending, approved, denied, expired, ApprovalRecord, Pool, Session, enqueue,
  wait_for_decision,
}

abbrev pub default_approval_timeout_secs : ℕ
default_approval_timeout_secs = 300

-- The body of the envelope that tells the alert router of a parked write; its `kind` and its
-- recipient are fixed.
pub record AwaitingApproval : Type 0 where
  pub approval_id : ℕ
  pub capability : Text
  pub target_ref : Option Text
  pub actor : Text

-- The kill state is shared with other tasks: its value at the n-th statement of the session is given.
-- `bus` says whether a bus handle was set.
pub record Guard : Type 0 where
  pub kill : ℕ → KillState
  pub policy : PolicyEngine
  pub approval_timeout_secs : ℕ
  pub bus : Bool

unfoldable pub new : (ℕ → KillState) → PolicyEngine → Guard
new kill policy = record {
  kill = kill;
  policy = policy;
  approval_timeout_secs = default_approval_timeout_secs;
  bus = false;
}

unfoldable pub set_bus : Guard → Guard
set_bus g = record g { bus = true }

unfoldable pub set_approval_timeout_secs : ℕ → Guard → Guard
set_approval_timeout_secs secs g =
    if ltb 0 secs then record g { approval_timeout_secs = secs } else g

-- The inbox and what was published on the bus.
pub record World (J : Type 0) : Type 0 where
  pub inbox : Session J
  pub published : List AwaitingApproval

abbrev pub poll_interval_ms : ℕ
poll_interval_ms = 2000

module _ {J : Type 0} (pool : Pool J) (show_id : ℕ → Text) (g : Guard) where
  -- Fail-soft: with no bus nothing is published, and nothing else changes.
  unfoldable pub publish_awaiting_approval : AwaitingApproval → World J → World J
  publish_awaiting_approval env w =
      if g.bus then record w { published = w.published ++ env ∷ [] } else w

  -- The `match rec.status`.
  unfoldable pub verdict_of : ℕ → Text → ApprovalStatus → Result (Unit {0}) Error
  verdict_of id capability approved = ok tt
  verdict_of id capability denied = err (
      policy_denied (
        codes "operator denied approval "
        ++ (show_id id ++ (codes " for `" ++ (capability ++ codes "`")))))
  verdict_of id capability _ = err (approval_timeout (show_id id))

  abbrev pub Answer : Type 0
  Answer = Option (Result (Unit {0}) Error × World J)

  unfoldable pub conclude :
      ℕ
      → Text
      → List AwaitingApproval
      → Option (Result (ApprovalRecord J) Error × Session J)
      → Answer
  unfolding verdict_of
  conclude id capability published none = none
  conclude id capability published (some (err e, s)) =
      some (err e, record { inbox = s; published = published })
  conclude id capability published (some (ok rec, s)) =
      some (verdict_of id capability rec.status, record { inbox = s; published = published })

  -- The rest of the `RequireApproval` arm, once the row is inserted or not.
  unfoldable pub park : Text → Text → Option Text → Result ℕ Error × World J → Answer
  unfolding publish_awaiting_approval conclude
  park actor_id capability target_ref (err e, w) = some (err e, w)
  park actor_id capability target_ref (ok id, w) =
      let w' =
        publish_awaiting_approval
          (record {
            approval_id = id;
            capability = capability;
            target_ref = target_ref;
            actor = actor_id;
          })
          w in
      conclude id capability w'.published (
        wait_for_decision pool show_id id (g.approval_timeout_secs * 1000) poll_interval_ms
          w'.inbox)

  unfoldable pub decide_by : Decision → Text → Text → Option Text → J → World J → Answer
  unfolding park
  decide_by allow actor_id capability target_ref params w = some (ok tt, w)
  decide_by deny actor_id capability target_ref params w =
      some
        (err (policy_denied (codes "policy denies capability `" ++ (capability ++ codes "`"))), w)
  decide_by require_approval actor_id capability target_ref params w =
      let (r, s) = enqueue pool actor_id capability target_ref params w.inbox in
      park actor_id capability target_ref (r, record w { inbox = s })

  -- `none` means that the fuel of the wait ran out.
  unfoldable pub pre_flight : Text → Text → Option Text → J → Bool → World J → Answer
  unfolding decide_by
  pre_flight actor_id capability target_ref params is_read_only w =
      let k = g.kill w.inbox.statements in
      if k.engaged
      then some (err (kill_engaged k.reason), w)
      else if is_read_only
      then some (ok tt, w)
      else decide_by (evaluate g.policy capability).decision actor_id capability target_ref params w
