-- ===== src/Orchestrator/Dispatch/Replies.antt =====
-- How the orchestrator reads the replies of a step and of a compensator.
use native.Mathlib.Omega.{arith}
use mathlib.Core.Path.{subst}
use daimon.Common.{
  ℕ, suc, ◌≡◌, refl, ap, ◌∙◌, inl, inr, ◌⊎◌, Bool, true, false, Option, none, some, [], ◌∷◌, ◌++◌,
  map, if◌then◌else◌, Bool-cases, Option-cases,
}
use daimon.Common.Text.{Text, codes, text_eq}
use daimon.Common.Result.{ok, err, map_err, Result-cases}
use daimon.Common.Json.{Json, Semver}
use daimon.Core.Capability.{CompensatingCapability}
use daimon.Runtime.Dispatcher.{Bus, AgentEnvelope, dispatch}
use daimon.Orchestrator.Plan.{Error, dispatch_failed, Step, compensated}
use daimon.Orchestrator.Store.{Database, World, set_step_row, set_step_status}
use daimon.Orchestrator.Dispatch.{
  compensator_for, compensator_req, call_compensator, show_dispatch_error, and_then,
  compensation_params, reports_failure, send, step_call, target_of, step_dispatch_timeout_ms,
  check_reply, dispatch_step, dispatch_compensator, mark_compensated, compensate_step,
  capability_body, step_sender,
}

module _ (json : Json) (semver : Semver) where
  -- Of parameters that are an object without `match` and with a text as `comment`, the compensator
  -- gets the same parameters with that text as `match`: every other key reads as before.
  pub get-compensation_params :
      (v : json.Value) (comment k : Text)
      → json.is_object v ≡ true
      → json.get v (codes "match") ≡ none
      → and_then json semver (json.get v (codes "comment")) json.as_str ≡ some comment
      → json.get (compensation_params json semver v) k
        ≡ (if text_eq (codes "match") k then some (json.string comment) else json.get v k)
  unfolding compensation_params
  get-compensation_params v comment k o m c =
      rw (m, c, compensation_params) (json.get-insert (codes "match") k (json.string comment) v o)

module _ (json : Json) where
  -- The reply says `success: false`.
  abbrev pub IsRefusal : json.Value → Type 0
  IsRefusal reply =
      (v : json.Value) × (json.get reply (codes "success") ≡ some v) × (json.as_bool v ≡ some false)

  pub reports_failure-IsRefusal :
      (semver : Semver) (reply : json.Value)
      → (IsRefusal reply × (reports_failure json semver reply ≡ true))
        ⊎ ((IsRefusal reply → ⊥) × (reports_failure json semver reply ≡ false))
  unfolding reports_failure
  reports_failure-IsRefusal semver reply = elim (Option-cases (json.get reply (codes "success"))) [
    | inl e ↦ inr (λ (v, g, b). absurd (ground (arith, e, g)), rw (reports_failure, e) refl)
    | inr (v, e) ↦ elim (Option-cases (json.as_bool v)) [
      | inl f ↦ inr (λ (u, g, b). absurd (other v u e g f b), rw (reports_failure, e, f) refl)
      | inr (b, f) ↦ elim (Bool-cases b) [
        | inl k ↦
            inr (λ (u, g, c). absurd (truthful v u b e g f k c), rw (reports_failure, e, f, k) refl)
        | inr k ↦ inl ((v, e, rw k at f), rw (reports_failure, e, f, k) refl)
      ]
    ]
  ]
    where
      same :
          (v u : json.Value)
          → json.get reply (codes "success") ≡ some v
          → json.get reply (codes "success") ≡ some u
          → v ≡ u
      same v u e g = ground (arith, e, g)

      other :
          (v u : json.Value)
          → json.get reply (codes "success") ≡ some v
          → json.get reply (codes "success") ≡ some u
          → json.as_bool v ≡ none
          → json.as_bool u ≡ some false
          → ⊥
      other v u e g f b =
          let k : json.as_bool u ≡ none = subst (λ x. json.as_bool x ≡ none) (same v u e g) f in
          ground (arith, k, b)

      truthful :
          (v u : json.Value) (b : Bool)
          → json.get reply (codes "success") ≡ some v
          → json.get reply (codes "success") ≡ some u
          → json.as_bool v ≡ some b
          → b ≡ true
          → json.as_bool u ≡ some false
          → ⊥
      truthful v u b e g f k c =
          let q : json.as_bool u ≡ some b = subst (λ x. json.as_bool x ≡ some b) (same v u e g) f in
          ground (arith, q, k, c)

module _ (json : Json) (semver : Semver) (db : Database) (bus : Bus json semver)
    (show_duration : ℕ → Text) where
  abbrev Wd : Type 0
  Wd = World json semver

  abbrev St : Type 0
  St = Step json.Value

  dispatch_step_called :
      (step : St) (w : Wd) (req : semver.Req) (target : Text)
      → semver.parse_req step.capability_version ≡ ok req
      → step.target_ref ≡ some target
      → (dispatch_step json semver db bus show_duration step w).0
        ≡ check_reply json semver db bus show_duration step
            (send json semver db bus show_duration
              (step_sender json semver db bus show_duration step)
              step.capability_name
              req
              (capability_body json semver step.capability_name target step.params)
              w).0
  unfolding dispatch_step step_call target_of
  dispatch_step_called step w req target p t =
      let c : step_call json semver db bus show_duration step ≡ ok (req, target) =
        unfold step_call in rw (step_call, p, target_of, t) refl in
      rw (dispatch_step, c) refl

  check_reply-refused :
      (step : St) (reply : json.Value)
      → reports_failure json semver reply ≡ true
      → (e : Error) × (check_reply json semver db bus show_duration step (ok reply) ≡ err e)
  check_reply-refused step reply f =
      elim (Result-cases (check_reply json semver db bus show_duration step (ok reply))) [
        | inl (a, h) ↦ absurd (unfold check_reply in ground (arith, h, f))
        | inr (e, h) ↦ (e, h)
      ]

  -- Of the reply to a step's request, `success: false` makes the step fail, and any other reply is
  -- the step's result.
  pub dispatch_step_reported :
      (step : St) (w : Wd) (req : semver.Req) (target : Text) (reply : json.Value)
      (out : Option (AgentEnvelope json semver))
      → semver.parse_req step.capability_version ≡ ok req
      → step.target_ref ≡ some target
      → dispatch json semver bus w.dispatches
          (step_sender json semver db bus show_duration step)
          step.capability_name
          req
          (capability_body json semver step.capability_name target step.params)
          step_dispatch_timeout_ms
        ≡ (ok reply, out)
      → (IsRefusal json reply
          × ((e : Error) × ((dispatch_step json semver db bus show_duration step w).0 ≡ err e)))
        ⊎ ((IsRefusal json reply → ⊥)
            × ((dispatch_step json semver db bus show_duration step w).0 ≡ ok reply))
  unfolding send check_reply
  dispatch_step_reported step w req target reply out p t d =
      let q = dispatch_step_called step w req target p t in
      let s : (send json semver db bus show_duration
            (step_sender json semver db bus show_duration step) step.capability_name req
            (capability_body json semver step.capability_name target step.params) w).0
          ≡ ok reply =
        ap (λ x. map_err x.0 (λ e. dispatch_failed (show_dispatch_error show_duration e))) d in
      let c = q ∙ ap (check_reply json semver db bus show_duration step) s in
      elim (reports_failure-IsRefusal json semver reply) [
        | inl (k, f) ↦ let (e, h) = check_reply-refused step reply f in inl (k, (e, c ∙ h))
        | inr (k, f) ↦ inr (k, c ∙ rw (check_reply, f) refl)
      ]

  -- What the caller keeps after a reply.
  abbrev after_reply : Option (AgentEnvelope json semver) → Wd → Wd
  after_reply out w = record w {
    dispatches = suc w.dispatches;
    sent = elim out [ none ↦ w.sent | some env ↦ w.sent ++ env ∷ [] ];
  }

  send-reply :
      (from name : Text) (req : semver.Req) (body : json.Value) (w : Wd) (reply : json.Value)
      (out : Option (AgentEnvelope json semver))
      → dispatch json semver bus w.dispatches from name req body step_dispatch_timeout_ms
        ≡ (ok reply, out)
      → send json semver db bus show_duration from name req body w ≡ (ok reply, after_reply out w)
  unfolding send
  send-reply from name req body w reply out d =
      ap
        (λ x. (
          map_err x.0 (λ e. dispatch_failed (show_dispatch_error show_duration e)),
          after_reply x.1 w,
        ))
        d

  dispatch_compensator-reply :
      (step : St) (w : Wd) (comp : CompensatingCapability) (req : semver.Req) (target : Text)
      (reply : json.Value) (out : Option (AgentEnvelope json semver))
      → compensator_for json semver db bus show_duration step.capability_name w ≡ some comp
      → compensator_req json semver db bus show_duration comp ≡ ok req
      → step.target_ref ≡ some target
      → dispatch json semver bus w.dispatches
          (step_sender json semver db bus show_duration step ++ codes ":compensate")
          comp.name
          req
          (capability_body json semver comp.name target
            (compensation_params json semver step.params))
          step_dispatch_timeout_ms
        ≡ (ok reply, out)
      → dispatch_compensator json semver db bus show_duration step w
        ≡ (ok (some reply), after_reply out w)
  unfolding dispatch_compensator
  dispatch_compensator-reply step w comp req target reply out c q t d =
      let s = send-reply _ _ _ _ w reply out d in
      rw (dispatch_compensator, c, call_compensator, q, target_of, t)
        (ap (λ x. (elim x.0 [ ok a ↦ ok (some a) | err e ↦ err e ], x.1)) s)

  -- A compensator's reply is not read: when the registry names a compensator for the step and the
  -- compensator replies, whatever the reply says, `success: false` included, the step is marked as
  -- compensated, unless the statement that marks it fails.
  pub compensate_step_any_reply :
      (step : St) (w : Wd) (comp : CompensatingCapability) (req : semver.Req) (target : Text)
      (reply : json.Value) (out : Option (AgentEnvelope json semver))
      → compensator_for json semver db bus show_duration step.capability_name w ≡ some comp
      → compensator_req json semver db bus show_duration comp ≡ ok req
      → step.target_ref ≡ some target
      → dispatch json semver bus w.dispatches
          (step_sender json semver db bus show_duration step ++ codes ":compensate")
          comp.name
          req
          (capability_body json semver comp.name target
            (compensation_params json semver step.params))
          step_dispatch_timeout_ms
        ≡ (ok reply, out)
      → db.fault w.statements ≡ none
      → ((compensate_step json semver db bus show_duration step w).0 ≡ ok true)
        × ((compensate_step json semver db bus show_duration step w).1.plan_steps
            ≡ map
                (set_step_row json semver step.id compensated reply false (db.now w.statements))
                w.plan_steps)
  unfolding compensate_step
  compensate_step_any_reply step w comp req target reply out c q t d f =
      let m =
        ap (mark_compensated json semver db bus show_duration step)
          (dispatch_compensator-reply step w comp req target reply out c q t d) in
      let (x, y) = marked (after_reply out w) f in
      (ap (λ z. z.0) m ∙ x, ap (λ z. z.1.plan_steps) m ∙ y)
    where
      marked :
          (v : Wd)
          → db.fault v.statements ≡ none
          → ((mark_compensated json semver db bus show_duration step (ok (some reply), v)).0
              ≡ ok true)
            × ((mark_compensated json semver db bus show_duration step
                  (ok (some reply), v)).1.plan_steps
                ≡ map
                    (set_step_row json semver step.id compensated reply false (db.now v.statements))
                    v.plan_steps)
      marked v g =
          unfold mark_compensated set_step_status in
          (
            rw (mark_compensated, set_step_status, g) refl,
            rw (mark_compensated, set_step_status, g) refl,
          )
