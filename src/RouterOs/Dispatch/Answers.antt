-- ===== src/RouterOs/Dispatch/Answers.antt =====
-- What the driver answers on the bus, as the orchestrator reads it.
use mathlib.Core.Path.{subst}
use daimon.Common.{
  arith, sym, ap, ◌∙◌, ◌⊎◌, inl, inr, ◌≡◌, refl, Bool, true, false, not, Option, none, some, ◌++◌,
  ℕ,
}
use daimon.Common.Text.{Text, codes, text_eq}
use daimon.Common.Result.{Result, ok, err}
use daimon.Common.Json.{Json, Semver, last_value}
use daimon.Guard.Approvals.{Pool}
use daimon.Guard.PreFlight.{Guard}
use daimon.Common.Integer.{ℤ}
use daimon.Broker.Op.{shell_output, http_response, snmp_values, snmp_set_ack, structured}
use daimon.Broker.Execute.{Services, Reply, execute}
use daimon.Broker.Execute.Outcome.{execute-SentOnce}
use daimon.Orchestrator.Dispatch.Replies.{IsRefusal, reports_failure-IsRefusal}
use daimon.Runtime.Dispatcher.{AgentEnvelope, direct, reply_envelope}
use daimon.Orchestrator.Dispatch.{reports_failure}
use daimon.Orchestrator.Dispatch.Reports.{reports_failure-object}
use daimon.RouterOs.Dispatch.{
  prepare, submit, output_of, Req, NetworkRequest, NetworkOutput, NetworkResponse, response_ok,
  response_error, optional_member, output_value, response_value, Shown, Failure, Err, Wd,
  default_timeout_secs, dispatch, response_of, serve, handle,
}

module _ (json : Json) (semver : Semver) where
  response-reports :
      (resp : NetworkResponse)
      → reports_failure json semver (response_value json resp) ≡ not resp.success
  unfolding response_value
  response-reports resp =
      reports_failure-object json semver resp.success _ (absent resp.output resp.error)
    where
      absent :
          (o : Option NetworkOutput) (e : Option Text)
          → last_value (codes "success") (
              optional_member json (codes "output") (output_value json) o
              ++ optional_member json (codes "error") (λ x. json.string x) e)
            ≡ none
      absent none none = unfold last_value text_eq in refl
      absent none (some e) = unfold last_value text_eq in refl
      absent (some o) none = unfold last_value text_eq in refl
      absent (some o) (some e) = unfold last_value text_eq in refl

module _ (json : Json) (semver : Semver) (services : Services json.Value)
    (shown : Shown json.Value (Failure json semver services)) (pool : Pool json.Value)
    (show_id : ℕ → Text) (attached : Option Guard) where
  abbrev pub is_err : Result NetworkOutput (Err json semver services) → Bool
  is_err (ok out) = false
  is_err (err e) = true

  response_of-reports :
      (r : Result NetworkOutput (Err json semver services))
      → reports_failure json semver
          (response_value json (response_of json semver services shown pool show_id attached r))
        ≡ is_err r
  unfolding response_of response_ok response_error
  response_of-reports (ok out) = response-reports json semver (response_ok out)
  response_of-reports (err e) = response-reports json semver (response_error (shown.error e))

  abbrev timeout_of : NetworkRequest json.Value → ℕ
  timeout_of req = elim req.timeout_secs [ none ↦ default_timeout_secs | some t ↦ t ]

  -- A command was built and the broker carried it out on the device, whatever its exit status.
  abbrev pub HasRun :
      Text → NetworkRequest json.Value → Wd json semver services → Wd json semver services → Type 0
  HasRun actor_id req w v =
      (command : Text) × (exec_req : Req json semver services) × (stdout : Text) × (stderr : Text)
      × (status : ℤ) × (prepare json semver services shown actor_id req.capability req.target_ref
            req.params (timeout_of req)
          ≡ ok (command, exec_req))
      × (execute json semver services pool show_id attached exec_req w
          ≡ some (ok (shell_output stdout stderr status), v))

  abbrev reply_for :
      Text
      → AgentEnvelope json semver
      → Result NetworkOutput (Err json semver services)
      → AgentEnvelope json semver
  unfolding reply_envelope response_value response_of
  reply_for id env r =
      reply_envelope json semver env id
        (response_value json (response_of json semver services shown pool show_id attached r))

  handle-reply_for :
      (from_value : json.Value → Result (NetworkRequest json.Value) Text) (id : Text)
      (env : AgentEnvelope json semver) (w v : Wd json semver services)
      (req : NetworkRequest json.Value) (r : Result NetworkOutput (Err json semver services))
      → from_value env.body ≡ ok req
      → dispatch json semver services shown pool show_id attached env.from req.capability
          req.target_ref req.params
          (timeout_of req)
          w
        ≡ some (r, v)
      → handle json semver services shown pool show_id attached from_value id env w
        ≡ some (reply_for id env r, v)
  unfolding handle serve reply_for
  handle-reply_for from_value id env w v req r h e = rw (h, serve, e) refl

  refusal :
      (r : Result NetworkOutput (Err json semver services)) (body : json.Value)
      → reports_failure json semver body ≡ is_err r
      → is_err r ≡ true
      → IsRefusal json body
  refusal r body e t = elim (reports_failure-IsRefusal json semver body) [
    | inl (k, f) ↦ k
    | inr (k, f) ↦ absurd (ground (arith, e, t, f))
  ]

  acceptance :
      (r : Result NetworkOutput (Err json semver services)) (body : json.Value)
      → reports_failure json semver body ≡ is_err r
      → is_err r ≡ false
      → IsRefusal json body
      → ⊥
  acceptance r body e t k = elim (reports_failure-IsRefusal json semver body) [
    | inl (j, f) ↦ absurd (ground (arith, e, t, f))
    | inr (j, f) ↦ j k
  ]

  -- How the reply stands to what has happened.
  abbrev pub TellsRun :
      Text
      → NetworkRequest json.Value
      → Wd json semver services
      → Wd json semver services
      → json.Value
      → Type 0
  TellsRun actor_id req w v body =
      (HasRun actor_id req w v × (IsRefusal json body → ⊥))
      ⊎ ((HasRun actor_id req w v → ⊥) × IsRefusal json body)

  tells :
      (actor_id : Text) (req : NetworkRequest json.Value) (w v : Wd json semver services)
      (command : Text) (exec_req : Req json semver services) (b : Reply json semver services)
      (body : json.Value)
      → prepare json semver services shown actor_id req.capability req.target_ref req.params
          (timeout_of req)
        ≡ ok (command, exec_req)
      → execute json semver services pool show_id attached exec_req w ≡ some (b, v)
      → reports_failure json semver body ≡ is_err (output_of json semver services shown command b)
      → TellsRun actor_id req w v body
  unfolding output_of
  tells actor_id req w v command exec_req b body p e s = go b refl
    where
      other :
          (c : Reply json semver services)
          → b ≡ c
          → ((stdout stderr : Text) (status : ℤ) → c ≡ ok (shell_output stdout stderr status) → ⊥)
          → is_err (output_of json semver services shown command c) ≡ true
          → TellsRun actor_id req w v body
      other c q never k = inr (
        λ (command', exec_req', stdout, stderr, status, p', e').
            let same : exec_req ≡ exec_req' = ground (arith, p, p') in
            let e2 =
              subst (λ x. execute json semver services pool show_id attached x w ≡ some (b, v)) same
                e in
            let m : some (b, v) ≡ some (ok (shell_output stdout stderr status), v) = sym e2 ∙ e' in
            never stdout stderr status (sym q ∙ ap (λ o. elim o [ none ↦ b | some x ↦ x.0 ]) m),
        refusal (output_of json semver services shown command b) body s
            (ap (λ x. is_err (output_of json semver services shown command x)) q ∙ k),
      )

      go : (c : Reply json semver services) → b ≡ c → TellsRun actor_id req w v body
      go (ok (shell_output stdout stderr status)) q = inl (
        (command, exec_req, stdout, stderr, status, p, e ∙ ap (λ x. some (x, v)) q),
        acceptance (output_of json semver services shown command b) body s
            (ap (λ x. is_err (output_of json semver services shown command x)) q),
      )
      go (err x) q = other (err x) q (λ a b c k. absurd (ground (arith, k))) refl
      go (ok (http_response a b c)) q =
          other (ok (http_response a b c)) q (λ x y z k. absurd (ground (arith, k))) refl
      go (ok (snmp_values a)) q =
          other (ok (snmp_values a)) q (λ x y z k. absurd (ground (arith, k))) refl
      go (ok snmp_set_ack) q =
          other (ok snmp_set_ack) q (λ x y z k. absurd (ground (arith, k))) refl
      go (ok (structured a)) q =
          other (ok (structured a)) q (λ x y z k. absurd (ground (arith, k))) refl

  abbrev Reached :
      (json.Value → Result (NetworkRequest json.Value) Text)
      → Text
      → AgentEnvelope json semver
      → Wd json semver services
      → NetworkRequest json.Value
      → Type 0
  Reached from_value id env w req =
      (v : Wd json semver services) × (reply : AgentEnvelope json semver) × (handle json semver
          services shown pool show_id attached from_value id env w
        ≡ some (reply, v))
      × (reply.correlation_id ≡ env.correlation_id)
      × (reply.to ≡ direct env.from)
      × TellsRun env.from req w v reply.body

  -- A message whose body is a request gets one reply: to its sender, with its correlation id. Its
  -- `success` is not `false`, as the orchestrator reads it, exactly when the broker answered a
  -- command with its output: then the exit status is of no account, so that a command that failed on
  -- the device passes for done.
  pub handle-answers :
      (from_value : json.Value → Result (NetworkRequest json.Value) Text) (id : Text)
      (env : AgentEnvelope json semver) (w : Wd json semver services)
      (req : NetworkRequest json.Value)
      → from_value env.body ≡ ok req
      → (v : Wd json semver services) × (reply : AgentEnvelope json semver) × (handle json semver
            services shown pool show_id attached from_value id env w
          ≡ some (reply, v))
        × (reply.correlation_id ≡ env.correlation_id)
        × (reply.to ≡ direct env.from)
        × TellsRun env.from req w v reply.body
  handle-answers from_value id env w req h =
      go
        (prepare json semver services shown env.from req.capability req.target_ref req.params
          (timeout_of req))
        refl
    where
      go :
          (x : Result (Text × Req json semver services) (Err json semver services))
          → prepare json semver services shown env.from req.capability req.target_ref req.params
              (timeout_of req)
            ≡ x
          → Reached from_value id env w req
      go (err e) q =
          let d : dispatch json semver services shown pool show_id attached env.from req.capability
                req.target_ref req.params (timeout_of req) w
              ≡ some (err e, w) =
            unfold dispatch submit in rw (dispatch, q, submit) refl in
          unfold reply_for reply_envelope in
          (
            w,
            reply_for id env (err e),
            handle-reply_for from_value id env w w req (err e) h d,
            refl,
            refl,
            inr (
              λ (command, exec_req, a, b, c, p, x). absurd (ground (arith, p, q)),
              refusal (err e) (reply_for id env (err e)).body (response_of-reports (err e)) refl,
            ),
          )
      go (ok (command, exec_req)) q =
          let (b, v, e, once) =
            execute-SentOnce json semver services pool show_id attached exec_req w in
          let r = output_of json semver services shown command b in
          let d : dispatch json semver services shown pool show_id attached env.from req.capability
                req.target_ref req.params (timeout_of req) w
              ≡ some (r, v) =
            unfold dispatch submit in rw (dispatch, q, submit, e) refl in
          unfold reply_for reply_envelope in
          (
            v,
            reply_for id env r,
            handle-reply_for from_value id env w v req r h d,
            refl,
            refl,
            tells env.from req w v command exec_req b (reply_for id env r).body q e
                (response_of-reports r),
          )
