-- ===== src/Orchestrator/Dispatch/Executed.antt =====
-- What a step that `dispatch_step` answers for has done on the bus.
use native.Mathlib.Omega.{arith}
use mathlib.Core.Path.{subst}
use daimon.Common.{
  ℕ, suc, ◌≡◌, refl, sym, ap, ◌∙◌, inl, inr, Option, none, some, [], ◌∷◌, ◌++◌, Option-cases,
}
use daimon.Common.Text.{Text, codes, text_eq}
use daimon.Common.Result.{Result, ok, err, map_err, Result-cases}
use daimon.Common.Json.{Json, Semver, last_value}
use daimon.Runtime.Dispatcher.{Bus, AgentEnvelope, DispatchError, by_capability, dispatch}
use daimon.Runtime.Dispatcher.Replies.{IsHeard, dispatch_answered}
use daimon.Orchestrator.Plan.{Error, dispatch_failed, Step}
use daimon.Orchestrator.Store.{Database, World}
use daimon.Orchestrator.Dispatch.{
  step_dispatch_timeout_ms, show_dispatch_error, send, target_of, step_call, check_reply,
  dispatch_step, capability_body, step_sender,
}
use daimon.Orchestrator.Dispatch.Replies.{IsRefusal, reports_failure-IsRefusal}

module _ (json : Json) (semver : Semver) (db : Database) (bus : Bus json semver)
    (show_duration : ℕ → Text) where
  abbrev Wd : Type 0
  Wd = World json semver

  abbrev St : Type 0
  St = Step json.Value

  abbrev Env : Type 0
  Env = AgentEnvelope json semver

  -- The request `env`, sent by the n-th dispatch, asks for the step's capability with its target and
  -- its parameters, and the bus delivered a reply to it that does not say `success: false`.
  abbrev pub IsExecuted : ℕ → St → Env → Type 0
  IsExecuted n step env =
      (req : semver.Req) × (target : Text) × (reply : json.Value) × (semver.parse_req
          step.capability_version
        ≡ ok req)
      × (step.target_ref ≡ some target)
      × (env.correlation_id ≡ bus.correlation n)
      × (env.to ≡ by_capability step.capability_name req)
      × (json.get env.body (codes "capability") ≡ some (json.string step.capability_name))
      × (json.get env.body (codes "target_ref") ≡ some (json.string target))
      × (json.get env.body (codes "params") ≡ some step.params)
      × IsHeard json semver (bus.correlation n) env.from (bus.heard n) reply
      × (IsRefusal json reply → ⊥)

  check_reply-accepted :
      (step : St) (r : Result json.Value Error) (reply : json.Value)
      → check_reply json semver db bus show_duration step r ≡ ok reply
      → (r ≡ ok reply) × (IsRefusal json reply → ⊥)
  unfolding check_reply
  check_reply-accepted step (err e) reply h = absurd (ground (arith, h))
  check_reply-accepted step (ok x) reply h = elim (reports_failure-IsRefusal json semver x) [
    | inl (k, f) ↦ absurd (ground (arith, h, f))
    | inr (k, f) ↦
        let q : x ≡ reply = ground (arith, h, f) in
        (ap (λ y. ok y) q, subst (λ y. IsRefusal json y → ⊥) q k)
  ]

  -- What was asked, in the members of the body.
  body-members :
      (name target : Text) (params : json.Value)
      → (json.get (capability_body json semver name target params) (codes "capability")
          ≡ some (json.string name))
        × (json.get (capability_body json semver name target params) (codes "target_ref")
            ≡ some (json.string target))
        × (json.get (capability_body json semver name target params) (codes "params") ≡ some params)
  unfolding capability_body last_value text_eq
  body-members name target params = (
    json.get-object _ (codes "capability"),
    json.get-object _ (codes "target_ref"),
    json.get-object _ (codes "params"),
  )

  -- The bus after one more request.
  abbrev pub Sends : Env → Wd → Wd → Type 0
  Sends env w v = (v.dispatches ≡ suc w.dispatches) × (v.sent ≡ w.sent ++ env ∷ [])

  send_answered :
      (step : St) (w : Wd) (req : semver.Req) (target : Text) (reply : json.Value)
      → (x : Result json.Value DispatchError × Option Env)
      → dispatch json semver bus w.dispatches
          (step_sender json semver db bus show_duration step)
          step.capability_name
          req
          (capability_body json semver step.capability_name target step.params)
          step_dispatch_timeout_ms
        ≡ x
      → map_err x.0 (λ e. dispatch_failed (show_dispatch_error show_duration e)) ≡ ok reply
      → semver.parse_req step.capability_version ≡ ok req
      → step.target_ref ≡ some target
      → (IsRefusal json reply → ⊥)
      → (env : Env) × (x.1 ≡ some env) × IsExecuted w.dispatches step env
  send_answered step w req target reply (err e, out) d m p t k = absurd (ground (arith, m))
  send_answered step w req target reply (ok a, out) d m p t k =
      let q : a ≡ reply = ground (arith, m) in
      let (entry, (env, o, (c, f, to, b)), heard) =
        dispatch_answered json semver bus w.dispatches _ _ req _ step_dispatch_timeout_ms a out d in
      let (b1, b2, b3) = body-members step.capability_name target step.params in
      (
        env,
        o,
        (
          req,
          target,
          reply,
          p,
          t,
          c,
          to,
          ap (λ y. json.get y (codes "capability")) b ∙ b1,
          ap (λ y. json.get y (codes "target_ref")) b ∙ b2,
          ap (λ y. json.get y (codes "params")) b ∙ b3,
          subst
              (λ y.
                IsHeard json semver (bus.correlation w.dispatches) env.from (bus.heard w.dispatches)
                  y)
              q
              (subst
                (λ y.
                  IsHeard json semver (bus.correlation w.dispatches) y (bus.heard w.dispatches) a)
                (sym f) heard),
          k,
        ),
      )

  step_call_sound :
      (step : St) (req : semver.Req) (target : Text)
      → step_call json semver db bus show_duration step ≡ ok (req, target)
      → (semver.parse_req step.capability_version ≡ ok req) × (step.target_ref ≡ some target)
  unfolding step_call target_of
  step_call_sound step req target h =
      elim (Result-cases (semver.parse_req step.capability_version)) [
        | inr (e, p) ↦ absurd (ground (arith, h, p))
        | inl (r, p) ↦ elim (Option-cases step.target_ref) [
          | inl o ↦ absurd (ground (arith, h, p, o))
          | inr (x, o) ↦
              let q : r ≡ req = ground (arith, h, p, o) in
              let k : x ≡ target = ground (arith, h, p, o) in
              (p ∙ ap (λ y. ok y) q, o ∙ ap (λ y. some y) k)
        ]
      ]

  -- A step that is answered for was executed, by one request.
  pub dispatch_step-IsExecuted :
      (step : St) (w v : Wd) (reply : json.Value)
      → dispatch_step json semver db bus show_duration step w ≡ (ok reply, v)
      → (env : Env) × IsExecuted w.dispatches step env × Sends env w v
  dispatch_step-IsExecuted step w v reply h =
      go (step_call json semver db bus show_duration step) refl
    where
      go :
          (r : Result (semver.Req × Text) Error)
          → step_call json semver db bus show_duration step ≡ r
          → (env : Env) × IsExecuted w.dispatches step env × Sends env w v
      go (err e) q =
          let k : dispatch_step json semver db bus show_duration step w ≡ (err e, w) =
            unfold dispatch_step in rw (dispatch_step, q) refl in
          let m : err e ≡ ok reply = ap (λ x. x.0) (sym k ∙ h) in absurd (ground (arith, m))
      go (ok (req, target)) q =
          let from = step_sender json semver db bus show_duration step in
          let body = capability_body json semver step.capability_name target step.params in
          let x = send json semver db bus show_duration from step.capability_name req body w in
          let d =
            dispatch json semver bus w.dispatches from step.capability_name req body
              step_dispatch_timeout_ms in
          let c : dispatch_step json semver db bus show_duration step w
              ≡ (check_reply json semver db bus show_duration step x.0, x.1) =
            unfold dispatch_step in rw (dispatch_step, q) refl in
          let k = sym c ∙ h in
          let (m, a) = check_reply-accepted step x.0 reply (ap (λ y. y.0) k) in
          let (p, t) = step_call_sound step req target q in
          let dispatches : v.dispatches ≡ suc w.dispatches =
            unfold send in sym (ap (λ y. y.1.dispatches) k) in
          let sent : v.sent ≡ elim d.1 [ none ↦ w.sent | some z ↦ w.sent ++ z ∷ [] ] =
            unfold send in sym (ap (λ y. y.1.sent) k) in
          let (env, o, e) = send_answered step w req target reply d refl (unfold send in m) p t a in
          (
            env,
            e,
            (dispatches, sent ∙ ap (λ y. elim y [ none ↦ w.sent | some z ↦ w.sent ++ z ∷ [] ]) o),
          )
