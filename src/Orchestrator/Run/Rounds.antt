-- ===== src/Orchestrator/Run/Rounds.antt =====
-- What one round of `run_plan` does to its local variables, whatever the bus and the database do, and
-- the rule for what the whole loop establishes.
use native.Mathlib.Omega.{arith}
use mathlib.Core.Path.{subst}
use daimon.Common.{
  ℕ, zero, suc, ◌<◌, ◌≡◌, refl, ap, ◌∙◌, ◌⊎◌, inl, inr, Bool, true, false, Option, none, some, List,
  [], ◌∷◌, get_elem?, Bool-cases, Option-cases,
}
use daimon.Common.Result.{Result, ok, err}
use daimon.Common.Json.{Json, Semver}
use daimon.Runtime.Dispatcher.{Bus}
use daimon.Common.Text.{Text, codes}
use daimon.Orchestrator.Plan.{Error, Step, StepStatus, running, succeeded, failed}
use daimon.Orchestrator.Store.{Database, World, set_step_status}
use daimon.Orchestrator.Dispatch.{dispatch_step}
use daimon.Orchestrator.Run.{
  LoopState, runnable, find_runnable, stuck, mark_running, mark_succeeded, mark_failed, Progress,
  continued, broke, aborted, settle_step, run_step, round, run_loop,
}

module _ {J : Type 0} where
  pub find_runnable_sound :
      (done : List ℕ) (steps : List (Step J)) (i : ℕ) (s : Step J)
      → find_runnable done steps ≡ some (i, s)
      → (get_elem? steps i ≡ some s) × (runnable done s ≡ true)
  unfolding find_runnable
  find_runnable_sound done [] i s h = absurd (ground (arith, h))
  find_runnable_sound done (t ∷ ts) i s h = elim (Bool-cases (runnable done t)) [
    | inl e ↦
        let q : t ≡ s = ground (arith, h, e) in
        let z : i ≡ 0 = ground (arith, h, e) in
        (rw z (ap some q), subst (λ x. runnable done x ≡ true) q e)
    | inr e ↦ elim (Option-cases (find_runnable done ts)) [
      | inl n ↦ absurd (ground (arith, h, e, n))
      | inr ((j, u), n) ↦
          let q : u ≡ s = ground (arith, h, e, n) in
          let z : i ≡ suc j = ground (arith, h, e, n) in
          let (g, r) = find_runnable_sound done ts j u n in
          (rw z (g ∙ ap some q), subst (λ x. runnable done x ≡ true) q r)
    ]
  ]

  pub find_runnable-none :
      (done : List ℕ) (steps : List (Step J)) (i : ℕ) (s : Step J)
      → find_runnable done steps ≡ none
      → get_elem? steps i ≡ some s
      → runnable done s ≡ false
  unfolding find_runnable
  find_runnable-none done [] i s h g = absurd (ground (arith, g))
  find_runnable-none done (t ∷ ts) zero s h g =
      let q : t ≡ s = ground (arith, g) in
      elim (Bool-cases (runnable done t)) [
        | inl e ↦ absurd (ground (arith, h, e))
        | inr e ↦ subst (λ x. runnable done x ≡ false) q e
      ]
  find_runnable-none done (t ∷ ts) (suc i) s h g = elim (Option-cases (find_runnable done ts)) [
    | inl n ↦ find_runnable-none done ts i s n g
    | inr ((j, u), n) ↦ absurd (ground (arith, h, n))
  ]

module _ (json : Json) (semver : Semver) (db : Database) (bus : Bus json semver)
    (show_duration : ℕ → Text) (show_error : Error → Text) where
  abbrev Pr : Type 0
  Pr = Progress json semver db bus show_duration show_error

  abbrev L : Type 0
  L = LoopState json.Value

  abbrev W : Type 0
  W = World json semver

  -- What is sent stays as it is.
  abbrev pub SameBus : W → W → Type 0
  SameBus w v = (v.dispatches ≡ w.dispatches) × (v.sent ≡ w.sent)

  pub set_step_status-SameBus :
      (id : ℕ) (status : StepStatus) (result : Option json.Value) (started : Bool) (w : W)
      → SameBus w (set_step_status json semver db id status result started w).1
  unfolding set_step_status
  set_step_status-SameBus id status result started w = elim (Option-cases (db.fault w.statements)) [
    | inl e ↦ rw e (refl, refl)
    | inr (x, e) ↦ rw e (refl, refl)
  ]

  -- The step was dispatched with this result, and the statements around that send nothing.
  abbrev pub Dispatches : Step json.Value → json.Value → W → W → Type 0
  Dispatches s result w w' =
      (u : W) × (v : W) × SameBus w u
      × (dispatch_step json semver db bus show_duration s u ≡ (ok result, v))
      × SameBus v w'

  -- The next step was found and dispatched, and its reply was recorded.
  abbrev pub Succeeds : L → W → L → W → Type 0
  Succeeds l w l' w' =
      (i : ℕ) × (s : Step json.Value) × (result : json.Value) × (find_runnable l.done l.steps
        ≡ some (i, s))
      × (l' ≡ mark_succeeded i s result (mark_running i s l))
      × Dispatches s result w w'

  -- No step was found; or the next step failed.
  abbrev pub Stops : L → W → L → W → Type 0
  Stops l w l' w' =
      ((find_runnable l.done l.steps ≡ none) × (l' ≡ stuck l) × (w' ≡ w))
      ⊎ ((i : ℕ) × (s : Step json.Value) × (find_runnable l.done l.steps ≡ some (i, s))
          × (l' ≡ mark_failed i s (mark_running i s l)))

  abbrev Leads : L → W → Pr → Type 0
  Leads l w (continued l' w') = Succeeds l w l' w'
  Leads l w (broke l' w') = Stops l w l' w'
  Leads l w (aborted e w') = Unit

  settle_step-Leads :
      (l : L) (i : ℕ) (s : Step json.Value) (w u : W) (x : Result json.Value Error × W)
      → find_runnable l.done l.steps ≡ some (i, s)
      → SameBus w u
      → dispatch_step json semver db bus show_duration s u ≡ x
      → Leads l w
          (settle_step json semver db bus show_duration show_error (mark_running i s l) i s x)
  unfolding settle_step
  settle_step-Leads l i s w u (ok result, v) h b d =
      after (set_step_status json semver db s.id succeeded (some result) false v)
        (set_step_status-SameBus s.id succeeded (some result) false v)
    where
      after :
          (y : Result (Unit {0}) Error × W)
          → SameBus v y.1
          → Leads l w (elim y.0 [
            | err e ↦ aborted e y.1
            | ok o ↦ continued (mark_succeeded i s result (mark_running i s l)) y.1
          ])
      after (ok o, w') c = (i, s, result, h, refl, (u, v, b, d, c))
      after (err e, w') c = tt
  settle_step-Leads l i s w u (err e', v) h b d = after (
      set_step_status json semver db s.id failed
        (some (json.object ((codes "error", json.string (show_error e')) ∷ []))) false v)
    where
      after :
          (y : Result (Unit {0}) Error × W)
          → Leads l w (elim y.0 [
            | err e ↦ aborted e y.1
            | ok o ↦ broke (mark_failed i s (mark_running i s l)) y.1
          ])
      after (ok o, w') = inr (i, s, h, refl)
      after (err e, w') = tt

  run_step-Leads :
      (l : L) (i : ℕ) (s : Step json.Value) (w : W)
      → find_runnable l.done l.steps ≡ some (i, s)
      → Leads l w (run_step json semver db bus show_duration show_error l i s w)
  unfolding run_step
  run_step-Leads l i s w h =
      after (set_step_status json semver db s.id running none true w)
        (set_step_status-SameBus s.id running none true w)
    where
      after :
          (y : Result (Unit {0}) Error × W)
          → SameBus w y.1
          → Leads l w (elim y.0 [
            | err e ↦ aborted e y.1
            | ok o ↦
                settle_step json semver db bus show_duration show_error
                  (mark_running i s l)
                  i
                  s
                  (dispatch_step json semver db bus show_duration s y.1)
          ])
      after (ok o, u) b = settle_step-Leads l i s w u _ h b refl
      after (err e, u) b = tt

  round-Leads : (l : L) (w : W) → Leads l w (round json semver db bus show_duration show_error l w)
  unfolding round
  round-Leads l w = go (find_runnable l.done l.steps) refl
    where
      go :
          (o : Option (ℕ × Step json.Value))
          → find_runnable l.done l.steps ≡ o
          → Leads l w (elim o [
            | none ↦ broke (stuck l) w
            | some (i, s) ↦ run_step json semver db bus show_duration show_error l i s w
          ])
      go none e = inl (e, refl, refl)
      go (some (i, s)) e = run_step-Leads l i s w e

  abbrev Looped : Type 0
  Looped = Option (Result L Error × World json semver)

  -- The state that the loop leaves by `break`.
  abbrev pub OnBreak : (L → W → Type 0) → Looped → Type 0
  OnBreak Q none = Unit
  OnBreak Q (some (ok l, w)) = Q l w
  OnBreak Q (some (err e, w)) = Unit

  -- What every successful round keeps holds whenever the loop tests, and so before it stops.
  module _ (P Q : L → W → Type 0)
      (keep : (l : L) (w : W) (l' : L) (w' : W) → P l w → Succeeds l w l' w' → P l' w')
      (stop : (l : L) (w : W) (l' : L) (w' : W) → P l w → Stops l w l' w' → Q l' w') where
    pub run_loop-OnBreak :
        (fuel : ℕ) (l : L) (w : World json semver)
        → P l w
        → OnBreak Q (run_loop json semver db bus show_duration show_error fuel l w)
    unfolding run_loop
    run_loop-OnBreak zero l w p = tt
    run_loop-OnBreak (suc fuel) l w p =
        go (round json semver db bus show_duration show_error l w) (round-Leads l w)
          (λ l' w' q. run_loop-OnBreak fuel l' w' q)
      where
        go :
            (x : Pr)
            → Leads l w x
            → ((l' : L) (w' : World json semver)
                → P l' w'
                → OnBreak Q (run_loop json semver db bus show_duration show_error fuel l' w'))
            → OnBreak Q (elim x [
              | continued l' w' ↦ run_loop json semver db bus show_duration show_error fuel l' w'
              | broke l' w' ↦ some (ok l', w')
              | aborted e w' ↦ some (err e, w')
            ])
        go (continued l' w') h rec = rec l' w' (keep l w l' w' p h)
        go (broke l' w') h rec = stop l w l' w' p h
        go (aborted e w') h rec = tt

  abbrev pub LoopEnds : Looped → Type 0
  LoopEnds o = (r : Result L Error) × (w : World json semver) × (o ≡ some (r, w))

  -- A number that every successful round lowers bounds the rounds.
  module _ (measure : L → ℕ)
      (falls : (l : L) (w : W) (l' : L) (w' : W)
        → Succeeds l w l' w'
        → measure l' < measure l) where
    pub run_loop_ends :
        (fuel : ℕ) (l : L) (w : World json semver)
        → measure l < fuel
        → LoopEnds (run_loop json semver db bus show_duration show_error fuel l w)
    unfolding run_loop
    run_loop_ends zero l w h = absurd (omega arith)
    run_loop_ends (suc fuel) l w h =
        go (round json semver db bus show_duration show_error l w) (round-Leads l w)
          (λ l' w' q. run_loop_ends fuel l' w' q)
      where
        go :
            (x : Pr)
            → Leads l w x
            → ((l' : L) (w' : World json semver)
                → measure l' < fuel
                → LoopEnds (run_loop json semver db bus show_duration show_error fuel l' w'))
            → LoopEnds (elim x [
              | continued l' w' ↦ run_loop json semver db bus show_duration show_error fuel l' w'
              | broke l' w' ↦ some (ok l', w')
              | aborted e w' ↦ some (err e, w')
            ])
        go (continued l' w') k rec = rec l' w' (omega (arith, falls l w l' w' k))
        go (broke l' w') k rec = (ok l', w', refl)
        go (aborted e w') k rec = (err e, w', refl)
