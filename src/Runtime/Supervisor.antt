-- ===== src/Runtime/Supervisor.antt =====
-- crates/daimon-runtime/src/supervisor.rs: which envelopes an agent handles, and the loop that
-- restarts an agent. The task of an agent is a parameter: how each of its runs ends, and how long
-- it took. Times are milliseconds; `sleep` takes the time that it is given.
pub mod Budget
use daimon.Common.{
  ℕ, suc, ◌+◌, ◌-◌, ◌*◌, min, Bool, true, false, Option, none, some, List, [], ◌∷◌, any,
  if◌then◌else◌, ltb,
}
use daimon.Common.Text.{Text, text_eq}
use daimon.Common.Json.{Json, Semver}
use daimon.Runtime.Registry.{Cap, satisfies}
use daimon.Runtime.Dispatcher.{Recipient, direct, by_capability, AgentEnvelope}

module _ (json : Json) (semver : Semver) where
  unfoldable pub envelope_addressed_to :
      AgentEnvelope json semver → Text → List (Cap json semver) → Bool
  unfolding satisfies text_eq
  envelope_addressed_to env me my_capabilities = elim env.to [
    | direct id ↦ text_eq id me
    | by_capability name version_req ↦ any (satisfies json semver name version_req) my_capabilities
  ]

pub record SupervisorConfig : Type 0 where
  pub restart_initial_delay : ℕ
  pub restart_max_delay : ℕ
  pub restart_max_in_window : ℕ
  pub restart_window : ℕ

unfoldable pub default_config : SupervisorConfig
default_config = record {
  restart_initial_delay = 100;
  restart_max_delay = 30000;
  restart_max_in_window = 5;
  restart_window = 60000;
}

-- How a run of the agent's task ends.
pub data Exit : Type 0 where
  clean failed panicked aborted : Exit

abbrev pub is_crash : Exit → Bool
is_crash failed = true
is_crash panicked = true
is_crash _ = false

-- The local variables of the loop.
pub record Runner : Type 0 where
  pub delay : ℕ
  pub restarts : ℕ
  pub window_start : ℕ

module _ (config : SupervisorConfig) where
  unfoldable pub start_runner : ℕ → Runner
  start_runner now = record {
    delay = config.restart_initial_delay;
    restarts = 0;
    window_start = now;
  }

  unfoldable pub reset_window : ℕ → Runner → Runner
  reset_window now s =
      if ltb config.restart_window (now - s.window_start)
      then record s { window_start = now; restarts = 0 }
      else s

  -- `none` where the budget is spent.
  unfoldable pub count_restart : Runner → Option Runner
  count_restart s =
      if ltb config.restart_max_in_window (suc s.restarts)
      then none
      else some (record s {
        restarts = suc s.restarts;
        delay = min (s.delay * 2) config.restart_max_delay;
      })

  unfoldable pub on_exit : Exit → ℕ → Runner → Option Runner
  unfolding count_restart reset_window
  on_exit exit now s = if is_crash exit then count_restart (reset_window now s) else none

  -- The delays slept before each restart, and whether the loop has ended, for the runs given.
  unfoldable pub supervise : ℕ → Runner → List (Exit × ℕ) → List ℕ × Bool
  unfolding on_exit
  supervise clock s [] = ([], false)
  supervise clock s ((exit, ran) ∷ runs) = elim (on_exit exit (clock + ran) s) [
    | none ↦ ([], true)
    | some s' ↦ let rest = supervise (clock + ran + s.delay) s' runs in (s.delay ∷ rest.0, rest.1)
  ]
