-- ===== src/Examples/Restarts.antt =====
-- An agent that crashes again and again, under a budget of two restarts.
use native.Mathlib.Omega.{arith}
use daimon.Common.{ℕ, ◌≤◌, ◌≡◌, refl, true, List, [], ◌∷◌, length, All}
use daimon.Runtime.Supervisor.{SupervisorConfig, Exit, failed, panicked, start_runner, supervise}
use daimon.Runtime.Supervisor.Budget.{supervise-All, supervise_budget}

abbrev config : SupervisorConfig
config = record {
  restart_initial_delay = 100;
  restart_max_delay = 150;
  restart_max_in_window = 2;
  restart_window = 60000;
}

abbrev runs : List (Exit × ℕ)
runs = (failed, 10) ∷ (panicked, 20) ∷ (failed, 30) ∷ []

supervise-All_example : All (λ d. d ≤ 150) (supervise config 0 (start_runner config 0) runs).0
supervise-All_example = supervise-All config 0 runs

supervise_budget_example :
    ((supervise config 0 (start_runner config 0) runs).1 ≡ true)
    × (length (supervise config 0 (start_runner config 0) runs).0 ≡ 2)
unfolding start_runner
supervise_budget_example =
    supervise_budget config 0 runs (omega arith)
      (refl, omega arith, (refl, omega arith, (refl, omega arith, tt)))
