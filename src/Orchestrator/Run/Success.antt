-- ===== src/Orchestrator/Run/Success.antt =====
-- What a plan that `run_plan` reports as succeeded has done.
use native.Mathlib.Omega.{arith}
use mathlib.Core.Path.{subst}
use daimon.Common.{
  ℕ, suc, ◌+◌, ◌≡◌, refl, sym, ap, ◌∙◌, ◌++◌, ◌⊎◌, inl, inr, Option, none, some, List, [], ◌∷◌, map,
  length, In, All, All-map, Bool-cases, Option-cases, ◌==◌, ==_iff, filter, find, leb,
}
use daimon.Common.Text.{Text, codes}
use daimon.Common.Result.{Result, ok, err}
use daimon.Common.Json.{Json, Semver}
use daimon.Runtime.Dispatcher.{Bus, AgentEnvelope}
use daimon.Orchestrator.Plan.{Error, pg, Plan, PlanStatus, plan_succeeded, Step, pending}
use daimon.Orchestrator.Store.{
  Database, World, start_plan, list_steps, finish_plan, finish_plan_row, terminal_record, capture,
  TypedBody, sort_steps, insert_step,
}
use daimon.Orchestrator.Dispatch.Executed.{IsExecuted, dispatch_step-IsExecuted}
use daimon.Orchestrator.Run.{
  LoopState, roll_back, final_status, init, run_loop, conclude, finish_with, run_steps, run_plan,
}
use daimon.Orchestrator.Run.Rounds.{SameBus, Succeeds, Stops, run_loop-OnBreak, OnBreak}
use daimon.Orchestrator.Run.Total.{open_count}
use daimon.Orchestrator.Run.Order.{
  shape, Executes, nothing, LoopInv, LoopEnd, Settled, mark_succeeded-LoopInv, stuck-LoopEnd,
  mark_failed-LoopEnd,
}

-- The rows of a plan, in the order in which they are read.
abbrev pub plan_rows : (json : Json) → Semver → ℕ → List (Step json.Value) → List (Step json.Value)
plan_rows json semver plan_id rows =
    sort_steps json semver (filter (λ s. s.plan_id == plan_id) rows)

module _ (json : Json) (semver : Semver) where
  IsPending : Step json.Value → Type 0
  IsPending s = s.status ≡ pending

  All-insert_step :
      (P : Step json.Value → Type 0) (s : Step json.Value) (ss : List (Step json.Value))
      → P s
      → All P ss
      → All P (insert_step json semver s ss)
  unfolding insert_step
  All-insert_step P s [] p a = (p, tt)
  All-insert_step P s (t ∷ ts) p a = elim (Bool-cases (leb s.step_index t.step_index)) [
    | inl e ↦ rw e (p, a)
    | inr e ↦ rw e (a.0, All-insert_step P s ts p a.1)
  ]

  All-sort_steps :
      (P : Step json.Value → Type 0) (ss : List (Step json.Value))
      → All P ss
      → All P (sort_steps json semver ss)
  unfolding sort_steps
  All-sort_steps P [] a = tt
  All-sort_steps P (s ∷ ss) a = All-insert_step P s _ a.0 (All-sort_steps P ss a.1)

  pub All-plan_rows :
      (plan_id : ℕ) (P : Step json.Value → Type 0) (rows : List (Step json.Value))
      → All (λ s. s.plan_id ≡ plan_id → P s) rows
      → All P (plan_rows json semver plan_id rows)
  All-plan_rows plan_id P rows a = All-sort_steps P _ (go rows a)
    where
      go :
          (rs : List (Step json.Value))
          → All (λ s. s.plan_id ≡ plan_id → P s) rs
          → All P (filter (λ s. s.plan_id == plan_id) rs)
      go [] b = tt
      go (r ∷ rs) b = elim (Bool-cases (r.plan_id == plan_id)) [
        | inl e ↦ rw e (b.0 ((==_iff _ _).0 e), go rs b.1)
        | inr e ↦ rw e (go rs b.1)
      ]

pending_count :
    {J : Type 0} (steps : List (Step J))
    → All (λ s. s.status ≡ pending) steps
    → open_count steps + 0 ≡ length (map shape steps)
unfolding open_count
pending_count [] a = refl
pending_count (s ∷ ss) (e, a) = rw e (omega (arith, pending_count ss a))

module _ (json : Json) (semver : Semver) (db : Database) (bus : Bus json semver)
    (show_duration : ℕ → Text) (show_error : Error → Text) where
  abbrev St : Type 0
  St = Step json.Value

  abbrev W : Type 0
  W = World json semver

  abbrev IsRun : ℕ → St → AgentEnvelope json semver → Type 0
  IsRun = IsExecuted json semver db bus show_duration

  -- All steps were executed, one after another, each after all that it waits for, by as many requests
  -- as there are steps, and nothing else was sent from the first world to the second.
  abbrev pub RanInOrder : List St → W → W → Type 0
  RanInOrder shapes w w' =
      (done : List ℕ) × Executes IsRun w.dispatches w.sent shapes done w'.dispatches w'.sent
      × All (λ (s : St). In s.id done) shapes
      × (length done ≡ length shapes)

  abbrev Inv : List St → W → LoopState json.Value → W → Type 0
  Inv shapes w0 l w = LoopInv IsRun w0.dispatches w0.sent shapes l w.dispatches w.sent

  abbrev End : List St → W → LoopState json.Value → W → Type 0
  End shapes w0 l w = LoopEnd IsRun w0.dispatches w0.sent shapes l w.dispatches w.sent

  keep :
      (shapes : List St) (w0 : W) (l : LoopState json.Value) (w : W) (l' : LoopState json.Value)
      (w' : W)
      → Inv shapes w0 l w
      → Succeeds json semver db bus show_duration show_error l w l' w'
      → Inv shapes w0 l' w'
  keep shapes w0 l w l' w' inv (i, s, r, f, e, (u, v, b, d, c)) =
      let (env, x, (n, o)) = dispatch_step-IsExecuted json semver db bus show_duration s u v r d in
      subst (λ k. Inv shapes w0 k w') (sym e)
        (mark_succeeded-LoopInv IsRun w0.dispatches w0.sent shapes l w.dispatches w'.dispatches
          w.sent w'.sent i s r env f (subst (λ k. IsRun k s env) b.0 x)
          (c.0 ∙ n ∙ ap (λ k. suc k) b.0) (c.1 ∙ o ∙ ap (λ k. k ++ env ∷ []) b.1) inv)

  run_loop-LoopEnd :
      (fuel : ℕ) (steps : List (Step json.Value)) (w : World json semver)
      → All (λ s. s.status ≡ pending) steps
      → OnBreak json semver db bus show_duration show_error
          (End (map shape steps) w)
          (run_loop json semver db bus show_duration show_error fuel (init steps) w)
  run_loop-LoopEnd fuel steps w a =
      run_loop-OnBreak json semver db bus show_duration show_error (Inv (map shape steps) w)
        (End (map shape steps) w) (keep (map shape steps) w) stop fuel (init steps) w
        (record {
          same_shapes = refl;
          in_order = nothing;
          statuses = All-map (λ s. s.status ≡ pending) (Settled []) steps (λ s e. inl e) a;
          unflagged = refl;
          counted = pending_count steps a;
        })
    where
      stop :
          (l : LoopState json.Value) (v : W) (l' : LoopState json.Value) (v' : W)
          → Inv (map shape steps) w l v
          → Stops json semver db bus show_duration show_error l v l' v'
          → End (map shape steps) w l' v'
      stop l v l' v' inv (inl (f, e, q)) =
          subst (λ x. End (map shape steps) w l' x) (sym q)
            (subst (λ k. End (map shape steps) w k v) (sym e)
              (stuck-LoopEnd IsRun w.dispatches w.sent (map shape steps) l v.dispatches v.sent inv))
      stop l v l' v' inv (inr (i, s, f, e)) =
          subst (λ k. End (map shape steps) w k v') (sym e)
            (mark_failed-LoopEnd IsRun w.dispatches w.sent (map shape steps) l v'.dispatches v'.sent
              i s)

  -- A run seen from worlds with the same bus.
  moved :
      (shapes : List St) (w u v w' : W)
      → SameBus json semver db bus show_duration show_error w u
      → SameBus json semver db bus show_duration show_error v w'
      → RanInOrder shapes u v
      → RanInOrder shapes w w'
  moved shapes w u v w' b c (done, x, a, k) = (
    done,
    subst (λ n. Executes IsRun w.dispatches w.sent shapes done n w'.sent) (sym c.0)
        (subst (λ o. Executes IsRun w.dispatches w.sent shapes done v.dispatches o) (sym c.1)
          (subst (λ n. Executes IsRun n w.sent shapes done v.dispatches v.sent) b.0
            (subst (λ o. Executes IsRun u.dispatches o shapes done v.dispatches v.sent) b.1 x))),
    a,
    k,
  )

  capture-SameBus :
      (b : Option TypedBody) (w : W)
      → SameBus json semver db bus show_duration show_error w (capture json semver db b w)
  unfolding capture
  capture-SameBus none w = (refl, refl)
  capture-SameBus (some body) w = elim (Bool-cases (db.remembers body)) [
    | inl e ↦ rw (capture, e) (refl, refl)
    | inr e ↦ rw (capture, e) (refl, refl)
  ]

  finish_plan-SameBus :
      (plan_id : ℕ) (status : PlanStatus) (w : W)
      → SameBus json semver db bus show_duration show_error w
          (finish_plan json semver db plan_id status w).1
  unfolding finish_plan
  finish_plan-SameBus plan_id status w = elim (Option-cases (db.fault w.statements)) [
    | inr (x, e) ↦ rw (finish_plan, e) (refl, refl)
    | inl e ↦ rw (finish_plan, e) (found (find (λ p. p.id == plan_id) w.plans))
  ]
    where
      begun : W
      begun = record w { statements = suc w.statements }

      found :
          (o : Option (Plan json.Value))
          → SameBus json semver db bus show_duration show_error w
              (elim o as (λ _. Result (Unit {0}) Error × W) [
                | none ↦ (err (pg (codes "query returned an unexpected number of rows")), begun)
                | some p ↦ (
                  ok tt,
                  capture json semver db
                      (terminal_record json semver db status plan_id p.intent)
                      (record begun {
                        plans =
                            map
                              (finish_plan_row json semver plan_id status (db.now w.statements))
                              w.plans;
                      }),
                )
              ]).1
      found none = (refl, refl)
      found (some p) =
          capture-SameBus (terminal_record json semver db status plan_id p.intent) (record begun {
            plans = map (finish_plan_row json semver plan_id status (db.now w.statements)) w.plans;
          })

  -- A plan that is reported as succeeded is finished without a roll-back.
  conclude_succeeded :
      (plan_id : ℕ) (shapes : List St) (w0 : W)
      (o : Option (Result (LoopState json.Value) Error × World json semver)) (w : W)
      → OnBreak json semver db bus show_duration show_error (End shapes w0) o
      → conclude json semver db bus show_duration show_error plan_id o ≡ some (ok plan_succeeded, w)
      → RanInOrder shapes w0 w
  unfolding conclude finish_with
  conclude_succeeded plan_id shapes w0 none w k h = absurd (ground (arith, h))
  conclude_succeeded plan_id shapes w0 (some (err e, w')) w k h = absurd (ground (arith, h))
  conclude_succeeded plan_id shapes w0 (some (ok l, w')) w k h = elim (Bool-cases l.failed_flag) [
    | inl f ↦ absurd (ground (arith, h, f))
    | inr f ↦
        let calm : (roll_back json semver db bus show_duration show_error l w').1 ≡ w' =
          unfold roll_back in rw (roll_back, f) refl in
        let last =
          finish_plan json semver db plan_id
            (final_status json semver db bus show_duration show_error l)
            (roll_back json semver db bus show_duration show_error l w').1 in
        let q : last.1 ≡ w = ap (λ o. elim o [ none ↦ w | some p ↦ p.1 ]) h in
        let (x, a, m) = k f in
        moved shapes w0 w0 w' w (refl, refl)
          (subst (λ z. SameBus json semver db bus show_duration show_error z w) calm
            (subst
              (λ z.
                SameBus json semver db bus show_duration show_error
                  (roll_back json semver db bus show_duration show_error l w').1 z)
              q
              (finish_plan-SameBus plan_id
                (final_status json semver db bus show_duration show_error l) _)))
          (l.done, x, a, m)
  ]

  run_steps_succeeded :
      (plan_id : ℕ) (steps : List St) (w w' : W)
      → All (λ s. s.status ≡ pending) steps
      → run_steps json semver db bus show_duration show_error plan_id (ok steps, w)
        ≡ some (ok plan_succeeded, w')
      → RanInOrder (map shape steps) w w'
  unfolding run_steps
  run_steps_succeeded plan_id [] w w' a h =
      let q : (finish_plan json semver db plan_id plan_succeeded w).1 ≡ w' =
        unfold finish_with in ap (λ o. elim o [ none ↦ w' | some p ↦ p.1 ]) h in
      moved [] w w w w' (refl, refl)
        (subst (λ z. SameBus json semver db bus show_duration show_error w z) q
          (finish_plan-SameBus plan_id plan_succeeded w))
        ([], nothing, tt, refl)
  run_steps_succeeded plan_id (s ∷ ss) w w' a h =
      conclude_succeeded plan_id (map shape (s ∷ ss)) w _ w'
        (run_loop-LoopEnd (suc (length (s ∷ ss))) (s ∷ ss) w a) h

  pub start_plan-steps :
      (plan_id : ℕ) (w : World json semver)
      → (start_plan json semver db plan_id w).1.plan_steps ≡ w.plan_steps
  unfolding start_plan
  start_plan-steps plan_id w = ground arith

  start_plan-SameBus :
      (plan_id : ℕ) (w : W)
      → SameBus json semver db bus show_duration show_error w
          (start_plan json semver db plan_id w).1
  unfolding start_plan
  start_plan-SameBus plan_id w = elim (Option-cases (db.fault w.statements)) [
    | inl e ↦ rw (start_plan, e) (refl, refl)
    | inr (x, e) ↦ rw (start_plan, e) (refl, refl)
  ]

  pub list_steps_answer :
      (plan_id : ℕ) (w : World json semver)
      → ((w' : World json semver) × (list_steps json semver db plan_id w
            ≡ (ok (plan_rows json semver plan_id w.plan_steps), w'))
          × SameBus json semver db bus show_duration show_error w w')
        ⊎ ((e : Error) × (w' : World json semver) × (list_steps json semver db plan_id w
              ≡ (err e, w')))
  unfolding list_steps
  list_steps_answer plan_id w = elim (Option-cases (db.fault w.statements)) [
    | inl e ↦ inl (record w { statements = suc w.statements }, rw e refl, (refl, refl))
    | inr (x, e) ↦ inr (x, record w { statements = suc w.statements }, rw e refl)
  ]

  run_listed_succeeded :
      (plan_id : ℕ) (w w' : World json semver)
      → All (λ s. s.plan_id ≡ plan_id → s.status ≡ pending) w.plan_steps
      → run_steps json semver db bus show_duration show_error plan_id
          (list_steps json semver db plan_id w)
        ≡ some (ok plan_succeeded, w')
      → RanInOrder (map shape (plan_rows json semver plan_id w.plan_steps)) w w'
  run_listed_succeeded plan_id w w' a h = elim (list_steps_answer plan_id w) [
    | inl (v, e, b) ↦
        moved (map shape (plan_rows json semver plan_id w.plan_steps)) w v w' w' b (refl, refl)
          (run_steps_succeeded plan_id (plan_rows json semver plan_id w.plan_steps) v w'
            (All-plan_rows json semver plan_id (λ s. s.status ≡ pending) w.plan_steps a)
            (rw e at h))
    | inr (x, v, e) ↦ absurd (faulty x v w' (rw e at h))
  ]
    where
      faulty :
          (x : Error) (v v' : World json semver)
          → run_steps json semver db bus show_duration show_error plan_id (err x, v)
            ≡ some (ok plan_succeeded, v')
          → ⊥
      faulty x v v' k = unfold run_steps in ground (arith, k)

  -- If `run_plan` reports a plan, all of whose steps were pending, as succeeded, then all its
  -- steps were executed, one after another, each after all that it depends on: for each, one request
  -- for its capability, with its target and its parameters, was sent, and a reply to it was
  -- delivered that does not say `success: false`. As many requests were sent as the plan has steps,
  -- and nothing else was sent.
  pub run_plan_succeeded :
      (plan_id : ℕ) (w w' : World json semver)
      → All (λ s. s.plan_id ≡ plan_id → s.status ≡ pending) w.plan_steps
      → run_plan json semver db bus show_duration show_error plan_id w
        ≡ some (ok plan_succeeded, w')
      → RanInOrder (map shape (plan_rows json semver plan_id w.plan_steps)) w w'
  unfolding run_plan
  run_plan_succeeded plan_id w w' a h =
      subst (λ r. RanInOrder (map shape (plan_rows json semver plan_id r)) w w')
        (start_plan-steps plan_id w)
        (go (start_plan json semver db plan_id w) (start_plan-steps plan_id w)
          (start_plan-SameBus plan_id w) h)
    where
      go :
          (x : Result (Unit {0}) Error × World json semver)
          → x.1.plan_steps ≡ w.plan_steps
          → SameBus json semver db bus show_duration show_error w x.1
          → elim x.0 [
            | err e ↦ some (err e, x.1)
            | ok u ↦
                run_steps json semver db bus show_duration show_error plan_id
                  (list_steps json semver db plan_id x.1)
          ]
            ≡ some (ok plan_succeeded, w')
          → RanInOrder (map shape (plan_rows json semver plan_id x.1.plan_steps)) w w'
      go (err e, v) q b k = absurd (ground (arith, k))
      go (ok u, v) q b k =
          moved (map shape (plan_rows json semver plan_id v.plan_steps)) w v w' w' b (refl, refl)
            (run_listed_succeeded plan_id v w'
              (subst (All (λ s. s.plan_id ≡ plan_id → s.status ≡ pending)) (sym q) a) k)
