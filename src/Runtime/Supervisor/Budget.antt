-- ===== src/Runtime/Supervisor/Budget.antt =====
-- The delays and the budget of restarts.
use native.Mathlib.Omega.{arith}
use mathlib.Core.Path.{subst}
use daimon.Common.{
  ℕ, suc, ◌+◌, ◌-◌, ◌*◌, ◌≤◌, ◌<◌, min, max, ◌≡◌, refl, ap, ◌∙◌, inl, inr, true, false, none, some,
  List, [], ◌∷◌, length, All, ltb, Bool-cases, Option-cases,
}
use daimon.Runtime.Supervisor.{
  SupervisorConfig, Exit, is_crash, Runner, start_runner, reset_window, count_restart, on_exit,
  supervise,
}

module _ (config : SupervisorConfig) where
  abbrev longest : ℕ
  longest = max config.restart_initial_delay config.restart_max_delay

  count_restart_delay :
      (s t : Runner) → count_restart config s ≡ some t → t.delay ≤ config.restart_max_delay
  unfolding count_restart
  count_restart_delay s t h =
      elim (Bool-cases (ltb config.restart_max_in_window (suc s.restarts))) [
        | inl e ↦ absurd (ground (arith, h, e))
        | inr e ↦
            let q : min (s.delay * 2) config.restart_max_delay ≡ t.delay = ground (arith, h, e) in
            subst (λ d. d ≤ config.restart_max_delay) q (omega arith)
      ]

  on_exit_delay :
      (exit : Exit) (now : ℕ) (s t : Runner)
      → on_exit config exit now s ≡ some t
      → t.delay ≤ config.restart_max_delay
  unfolding on_exit
  on_exit_delay exit now s t h = elim (Bool-cases (is_crash exit)) [
    | inl e ↦ count_restart_delay (reset_window config now s) t (rw (e, on_exit) at h)
    | inr e ↦ absurd (ground (arith, h, e))
  ]

  delays_from :
      (clock : ℕ) (s : Runner) (runs : List (Exit × ℕ))
      → s.delay ≤ longest
      → All (λ d. d ≤ longest) (supervise config clock s runs).0
  unfolding supervise
  delays_from clock s [] h = tt
  delays_from clock s ((exit, ran) ∷ runs) h =
      elim (Option-cases (on_exit config exit (clock + ran) s)) [
        | inl e ↦ rw (e, supervise) tt
        | inr (t, e) ↦
            rw (e, supervise)
              (
                h,
                delays_from (clock + ran + s.delay) t runs
                    (let k = on_exit_delay exit (clock + ran) s t e in omega arith),
              )
      ]

  -- However the runs of an agent end, no delay before a restart is longer than the longer of the
  -- initial and the maximal delay.
  pub supervise-All :
      (clock : ℕ) (runs : List (Exit × ℕ))
      → All
          (λ d. d ≤ max config.restart_initial_delay config.restart_max_delay)
          (supervise config clock (start_runner config clock) runs).0
  supervise-All clock runs =
      delays_from clock (start_runner config clock) runs (unfold start_runner in omega arith)

  -- All runs crash, and each ends before the window does.
  abbrev pub CrashInWindow : ℕ → Runner → List (Exit × ℕ) → Type 0
  CrashInWindow clock s [] = Unit
  CrashInWindow clock s ((exit, ran) ∷ runs) =
      (is_crash exit ≡ true)
      × (clock + ran ≤ s.window_start + config.restart_window)
      × CrashInWindow (clock + ran + s.delay)
          (record s {
            restarts = suc s.restarts;
            delay = min (s.delay * 2) config.restart_max_delay;
          })
          runs

  reset_window_same :
      (now : ℕ) (s : Runner)
      → now ≤ s.window_start + config.restart_window
      → reset_window config now s ≡ s
  unfolding reset_window
  reset_window_same now s h =
      let k : ltb config.restart_window (now - s.window_start) ≡ false = ground (arith, h) in
      rw k refl

  on_exit_crash :
      (exit : Exit) (now : ℕ) (s : Runner)
      → is_crash exit ≡ true
      → now ≤ s.window_start + config.restart_window
      → on_exit config exit now s ≡ count_restart config s
  unfolding on_exit
  on_exit_crash exit now s c h = rw c (ap (count_restart config) (reset_window_same now s h))

  abbrev bumped : Runner → Runner
  bumped s = record s {
    restarts = suc s.restarts;
    delay = min (s.delay * 2) config.restart_max_delay;
  }

  count_restart_full :
      (s : Runner)
      → ltb config.restart_max_in_window (suc s.restarts) ≡ true
      → count_restart config s ≡ none
  unfolding count_restart
  count_restart_full s e = rw e refl

  count_restart_left :
      (s : Runner)
      → ltb config.restart_max_in_window (suc s.restarts) ≡ false
      → count_restart config s ≡ some (bumped s)
  unfolding count_restart
  count_restart_left s e = rw e refl

  spent :
      (clock : ℕ) (s : Runner) (runs : List (Exit × ℕ))
      → s.restarts ≤ config.restart_max_in_window
      → config.restart_max_in_window < s.restarts + length runs
      → CrashInWindow clock s runs
      → ((supervise config clock s runs).1 ≡ true)
        × (s.restarts + length (supervise config clock s runs).0 ≡ config.restart_max_in_window)
  unfolding supervise
  spent clock s [] b n h = absurd (omega arith)
  spent clock s ((exit, ran) ∷ runs) b n (c, k, h) =
      elim (Bool-cases (ltb config.restart_max_in_window (suc s.restarts))) [
        | inl e ↦
            rw (on_exit_crash exit (clock + ran) s c k ∙ count_restart_full s e, supervise)
              (refl, ground (arith, e, b))
        | inr e ↦
            rw (on_exit_crash exit (clock + ran) s c k ∙ count_restart_left s e, supervise)
              (let ih =
                  spent (clock + ran + s.delay) (bumped s) runs (ground (arith, e)) (omega arith)
                    (h) in
                (ih.0, omega arith))
      ]

  -- An agent whose runs all crash, within one window, is restarted exactly as often as the budget
  -- allows, and is then given up, if there are more runs than the budget.
  pub supervise_budget :
      (clock : ℕ) (runs : List (Exit × ℕ))
      → config.restart_max_in_window < length runs
      → CrashInWindow clock (start_runner config clock) runs
      → ((supervise config clock (start_runner config clock) runs).1 ≡ true)
        × (length (supervise config clock (start_runner config clock) runs).0
            ≡ config.restart_max_in_window)
  unfolding start_runner
  supervise_budget clock runs n h =
      let r = spent clock (start_runner config clock) runs (omega arith) (omega arith) h in
      (r.0, omega arith)
