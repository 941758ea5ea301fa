-- ===== src/Guard/PreFlight/Once.antt =====
-- `pre_flight` and the history of the kill switch.
use native.Mathlib.Omega.{arith}
use daimon.Common.{ℕ, ◌≡◌, refl, Bool, Option, none, some, List}
use daimon.Common.Text.{Text}
use daimon.Common.Result.{Result, ok, err}
use daimon.Guard.Error.{Error}
use daimon.Guard.Policy.{Decision, allow, deny, require_approval, evaluate}
use daimon.Guard.Kill.{KillState}
use daimon.Guard.Approvals.{ApprovalRecord, Pool, Session}
use daimon.Guard.PreFlight.{
  AwaitingApproval, Guard, World, verdict_of, conclude, park, decide_by, pre_flight,
}

-- The same guard, whose kill switch has another history.
abbrev pub with_kill : (ℕ → KillState) → Guard → Guard
with_kill kill g = record g { kill = kill }

module _ {J : Type 0} (pool : Pool J) (show_id : ℕ → Text) (g : Guard) (kill : ℕ → KillState) where
  conclude_kill :
      (id : ℕ) (capability : Text) (published : List AwaitingApproval)
      (o : Option (Result (ApprovalRecord J) Error × Session J))
      → conclude pool show_id (with_kill kill g) id capability published o
        ≡ conclude pool show_id g id capability published o
  unfolding conclude verdict_of
  conclude_kill id capability published none = refl
  conclude_kill id capability published (some (err e, s)) = refl
  conclude_kill id capability published (some (ok rec, s)) = ground arith

  park_kill :
      (actor capability : Text) (target : Option Text) (r : Result ℕ Error) (w : World J)
      → park pool show_id (with_kill kill g) actor capability target (r, w)
        ≡ park pool show_id g actor capability target (r, w)
  unfolding park
  park_kill actor capability target (err e) w = refl
  park_kill actor capability target (ok id) w = conclude_kill id capability _ _

  decide_by_kill :
      (d : Decision) (actor capability : Text) (target : Option Text) (params : J) (w : World J)
      → decide_by pool show_id (with_kill kill g) d actor capability target params w
        ≡ decide_by pool show_id g d actor capability target params w
  unfolding decide_by
  decide_by_kill allow actor capability target params w = refl
  decide_by_kill deny actor capability target params w = refl
  decide_by_kill require_approval actor capability target params w =
      park_kill actor capability target _ _

  -- The kill switch is read once: the answer of `pre_flight` is the same for every history of the
  -- switch that agrees when the call comes in, also where the switch is engaged while the call
  -- waits for an operator.
  pub pre_flight_kill_once :
      (actor capability : Text) (target : Option Text) (params : J) (is_read_only : Bool)
      (w : World J)
      → kill w.inbox.statements ≡ g.kill w.inbox.statements
      → pre_flight pool show_id (with_kill kill g) actor capability target params is_read_only w
        ≡ pre_flight pool show_id g actor capability target params is_read_only w
  unfolding pre_flight
  pre_flight_kill_once actor capability target params ro w e =
      rw
        (e, decide_by_kill (evaluate g.policy capability).decision actor capability target params w)
        refl
