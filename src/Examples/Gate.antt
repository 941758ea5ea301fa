-- ===== src/Examples/Gate.antt =====
-- Approvals, the guard and the broker at a concrete installation: an operator approves the request
-- with the id 7 before each statement, and the policy wants an approval for `network.drop`.
use daimon.Common.{ℕ, zero, suc, ◌≡◌, refl, ◌⊎◌, true, false, none, some, [], ◌∷◌, In}
use daimon.Common.Text.{Text, codes}
use daimon.Common.Result.{Result}
use daimon.Guard.Error.{Error}
use daimon.Guard.Policy.{Decision, allow, deny, require_approval, PolicyEngine, evaluate}
use daimon.Guard.Policy as Policy
use daimon.Guard.Kill.{KillState}
use daimon.Guard.Approvals.{
  ApprovalRecord, ApprovalStatus, pending, approved, Write, decision, Pool, Session, is_decided,
  wait_for_decision,
}
use daimon.Guard.Approvals as Approvals
use daimon.Guard.Approvals.Wait.{wait_for_decision_decided}
use daimon.Guard.PreFlight.{Guard, World, pre_flight}
use daimon.Guard.PreFlight.Gate.{pre_flight_answers, pre_flight_granted, IsApproved}
use daimon.Guard.PreFlight.Once.{pre_flight_kill_once, with_kill}
use daimon.Examples.Values.{Value}

abbrev pub J : Type 0
J = Value

abbrev pub show_id : ℕ → Text
show_id n = n ∷ []

abbrev pub pool : Pool J
pool = record {
  fault = λ n. none;
  latency = λ n. 5;
  new_id = λ n. 7;
  others = λ n. decision 7 1 approved 0 ∷ [];
}

abbrev pub asked : ApprovalRecord J
asked = record {
  id = 7;
  actor_id = codes "a";
  capability = codes "network.drop";
  target_ref = none;
  params = Value.null;
  status = pending;
  created_at = 0;
  decided_at = none;
  decided_by = none;
}

abbrev inbox : Session J
inbox = record { rows = asked ∷ []; statements = 0; clock = 0 }

abbrev pub approved_row : ApprovalRecord J
approved_row = record asked { status = approved; decided_at = some 0; decided_by = some 1 }

abbrev decided_inbox : Session J
decided_inbox = record { rows = approved_row ∷ []; statements = 1; clock = 5 }

wait_for_decision_decided_example :
    In approved_row decided_inbox.rows
    × (approved_row.id ≡ 7)
    × (is_decided approved_row.status ≡ true)
unfolding wait_for_decision Approvals.settle Approvals.get Approvals.read Approvals.begin
    Approvals.writes Approvals.decide_row
wait_for_decision_decided_example =
    wait_for_decision_decided pool show_id 7 10 2 inbox decided_inbox approved_row refl

abbrev pub engine : PolicyEngine
engine = record {
  rules =
      record { capability = codes "network.drop"; decision = require_approval; description = none }
      ∷ record { capability = codes "network.*"; decision = deny; description = none }
      ∷ [];
  default_decision = deny;
}

abbrev pub open_switch : ℕ → KillState
open_switch n = record { engaged = false; reason = [] }

-- Engaged from the second statement on.
abbrev late_switch : ℕ → KillState
late_switch zero = record { engaged = false; reason = [] }
late_switch (suc n) = record { engaged = true; reason = codes "stop" }

abbrev pub guarded : Guard
guarded = record { kill = open_switch; policy = engine; approval_timeout_secs = 1; bus = true }

abbrev pub quiet : World J
quiet = record { inbox = record { rows = []; statements = 0; clock = 0 }; published = [] }

pre_flight_answers_example :
    (r : Result (Unit {0}) Error) × (w : World J) × (pre_flight pool show_id guarded
        (codes "a")
        (codes "network.drop")
        none
        Value.null
        false
        quiet
      ≡ some (r, w))
pre_flight_answers_example =
    pre_flight_answers pool show_id guarded (codes "a") (codes "network.drop") none Value.null false
      quiet

pre_flight_kill_once_example :
    pre_flight pool show_id
      (with_kill late_switch guarded)
      (codes "a")
      (codes "network.drop")
      none
      Value.null
      false
      quiet
    ≡ pre_flight pool show_id guarded (codes "a") (codes "network.drop") none Value.null false quiet
pre_flight_kill_once_example =
    pre_flight_kill_once pool show_id guarded late_switch (codes "a") (codes "network.drop") none
      Value.null false quiet refl

abbrev pub after : World J
after = record {
  inbox = record { rows = record approved_row { created_at = 5 } ∷ []; statements = 2; clock = 10 };
  published =
      record {
        approval_id = 7;
        capability = codes "network.drop";
        target_ref = none;
        actor = codes "a";
      }
      ∷ [];
}

pre_flight_granted_example :
    ((guarded.kill 0).engaged ≡ false)
    × ((false ≡ true)
        ⊎ (((evaluate engine (codes "network.drop")).decision ≡ allow)
            ⊎ (((evaluate engine (codes "network.drop")).decision ≡ require_approval)
                × IsApproved pool show_id guarded
                    (codes "a")
                    (codes "network.drop")
                    none
                    Value.null
                    after)))
unfolding pre_flight evaluate Policy.glob_match wait_for_decision Approvals.enqueue Approvals.settle
    Approvals.get Approvals.read Approvals.writes Approvals.decide_row
pre_flight_granted_example =
    pre_flight_granted pool show_id guarded (codes "a") (codes "network.drop") none Value.null false
      quiet after (λ n. (tt, tt)) tt refl
