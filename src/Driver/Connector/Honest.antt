-- ===== src/Driver/Connector/Honest.antt =====
-- The replies of a connector, as the orchestrator reads them, and its receipts.
use daimon.Common.{
  ℕ, ◌≡◌, refl, inl, inr, Bool, true, false, not, Option, none, some, ◌++◌, Bool-cases, arith,
}
use daimon.Common.Text.{Text, codes, text_eq, trim}
use daimon.Common.Integer.{ℤ, pos, int_eq}
use daimon.Common.Result.{Result, ok, err, map_err, ◌>>=◌}
use daimon.Common.Json.{Json, Semver, last_value}
use daimon.Guard.Approvals.{Pool}
use daimon.Guard.PreFlight.{Guard}
use daimon.Broker.Execute.{Services}
use daimon.Broker.Execute.Outcome.{execute-SentOnce}
use daimon.Runtime.Dispatcher.{AgentEnvelope, direct, reply_envelope}
use daimon.Orchestrator.Dispatch.{reports_failure}
use daimon.Orchestrator.Dispatch.Reports.{reports_failure-object}
use daimon.Driver.Returns.{Receipt}
use daimon.Driver.Profile.{ConnectorError, driver_error, is_empty}
use daimon.Driver.Connector.{
  ConnectorDriver, ConnectorOutput, Shown, Failure, Req, Wd, output_of, submit, dispatch,
}
use daimon.Driver.Connector.Reply.{
  default_timeout_secs, ConnectorRequest, ConnectorReply, ConnectorReplyOutput, reply_err,
  exit_status_of, error_of, is_some, outputs, from_output, reply_output_value, optional_member,
  reply_value, or_object,
}
use daimon.Driver.Connector.Bus.{reply_of, receipt, answer, remediate, serve, handle}

exit_status_of-zero : (b : Bool) (status : ℤ) → int_eq (exit_status_of b status) (pos 0) ≡ b
unfolding exit_status_of
exit_status_of-zero true status = unfold int_eq in refl
exit_status_of-zero false status = elim (Bool-cases (int_eq status (pos 0))) [
  | inl e ↦ rw (exit_status_of, e) (unfold int_eq in refl)
  | inr e ↦ rw (exit_status_of, e) e
]

module _ (json : Json) (semver : Semver) where
  reply-reports :
      (reply : ConnectorReply)
      → reports_failure json semver (reply_value json reply) ≡ not reply.success
  unfolding reply_value
  reply-reports reply =
      reports_failure-object json semver reply.success _ (absent reply.output reply.error)
    where
      absent :
          (o : Option ConnectorReplyOutput) (e : Option Text)
          → last_value (codes "success") (
              optional_member json (codes "output") (reply_output_value json) o
              ++ optional_member json (codes "error") (λ x. json.string x) e)
            ≡ none
      absent none none = unfold last_value text_eq in refl
      absent none (some e) = unfold last_value text_eq in refl
      absent (some o) none = unfold last_value text_eq in refl
      absent (some o) (some e) = unfold last_value text_eq in refl

  -- The exit status of a reply that has an output.
  abbrev status_is_zero : Option ConnectorReplyOutput → Bool
  status_is_zero none = false
  status_is_zero (some o) = int_eq o.exit_status (pos 0)

  error_of-some :
      (show : ℤ → Text) (out : ConnectorOutput json.Value) (stderr : Text)
      → is_some (error_of json show out stderr) ≡ not out.success
  unfolding error_of
  error_of-some show out stderr = elim (Bool-cases out.success) [
    | inl e ↦ rw (error_of, e) refl
    | inr e ↦ elim (Bool-cases (is_empty (trim stderr))) [
      | inl f ↦ rw (error_of, e, f) refl
      | inr f ↦ rw (error_of, e, f) refl
    ]
  ]

  -- The reply to a capability that ran: it counts as a failure for the orchestrator exactly when the
  -- operation failed, its exit status is 0 exactly when the operation succeeded, and it carries an
  -- error exactly when the operation failed.
  pub from_output-honest :
      (show : ℤ → Text) (out : ConnectorOutput json.Value)
      → (reports_failure json semver (reply_value json (from_output json show out))
          ≡ not out.success)
        × (status_is_zero (from_output json show out).output ≡ out.success)
        × (is_some (from_output json show out).error ≡ not out.success)
  unfolding from_output int_eq
  from_output-honest show out = (
    reply-reports (from_output json show out),
    exit_status_of-zero out.success out.status,
    error_of-some show out (outputs json out.payload).1,
  )

module _ (json : Json) (semver : Semver) (services : Services json.Value)
    (shown : Shown json.Value (Failure json semver services)) (pool : Pool json.Value)
    (show_id : ℕ → Text) (attached : Option Guard)
    (driver : ConnectorDriver semver.Version json.Value) where
  abbrev Outcome : Type 0
  Outcome = Result (ConnectorOutput json.Value) ConnectorError

  -- The capability ran, and its operation succeeded.
  abbrev pub succeeded : Outcome → Bool
  succeeded (ok out) = out.success
  succeeded (err e) = false

  reply_of-reports :
      (r : Outcome)
      → reports_failure json semver (reply_value json (reply_of json semver services shown r))
        ≡ not (succeeded r)
  unfolding reply_of reply_err
  reply_of-reports (ok out) = (from_output-honest json semver shown.status out).0
  reply_of-reports (err e) = reply-reports json semver (reply_err (shown.error e))

  abbrev pub timeout_of : ConnectorRequest json.Value → ℕ
  timeout_of req = elim req.timeout_secs [ none ↦ default_timeout_secs | some t ↦ t ]

  submit-answers :
      (capability : Text) (q : Result (Req json semver services) ConnectorError)
      (w : Wd json semver services)
      → (r : Outcome) × (v : Wd json semver services) × (submit json semver services shown pool
            show_id attached capability q w
          ≡ some (r, v))
  unfolding submit
  submit-answers capability (err e) w = (err e, w, refl)
  submit-answers capability (ok req) w =
      let (r, v, e, once) = execute-SentOnce json semver services pool show_id attached req w in
      (output_of json semver services shown capability r, v, rw (submit, e) refl)

  -- A message whose body is a request gets one reply: to its sender, with its correlation id, and
  -- the orchestrator takes that reply for a failure exactly when the capability, dispatched in the
  -- name of the sender, did not run or its operation failed.
  pub handle-honest :
      (from_value : json.Value → Result (ConnectorRequest json.Value) Text)
      (env : AgentEnvelope json semver) (w : Wd json semver services)
      (req : ConnectorRequest json.Value)
      → from_value env.body ≡ ok req
      → (r : Outcome) × (v : Wd json semver services) × (reply : AgentEnvelope json semver)
        × (dispatch json semver services shown pool show_id attached driver env.from req.capability
              req.target_ref
              (or_object json req.params)
              (timeout_of req)
              w
            ≡ some (r, v))
        × (handle json semver services shown pool show_id attached driver from_value env w
            ≡ some (reply, v))
        × (reply.correlation_id ≡ env.correlation_id)
        × (reply.to ≡ direct env.from)
        × (reports_failure json semver reply.body ≡ not (succeeded r))
  unfolding handle serve reply_envelope dispatch
  handle-honest from_value env w req h =
      let (r, v, e) = submit-answers req.capability _ w in
      let reply =
        reply_envelope json semver env driver.id
          (reply_value json (reply_of json semver services shown r)) in
      (r, v, reply, e, rw (h, serve, e) refl, refl, refl, reply_of-reports r)

  receipt-success :
      (target capability : Text) (params : json.Value) (r : Outcome) (show : ConnectorError → Text)
      (x : Receipt json.Value)
      → map_err
          (r >>= receipt json semver services shown target capability params)
          (driver_error show)
        ≡ ok x
      → (out : ConnectorOutput json.Value) × (r ≡ ok out) × (out.success ≡ true)
  unfolding receipt
  receipt-success target capability params (err e) show x h = absurd (ground (arith, h))
  receipt-success target capability params (ok out) show x h = elim (Bool-cases out.success) [
    | inl e ↦ (out, refl, e)
    | inr e ↦ absurd (ground (arith, h, e))
  ]

  -- `remediate` gives a receipt only for a capability that ran and whose operation succeeded: a
  -- failed write is an error.
  pub remediate-honest :
      (target capability : Text) (params : json.Value) (w v : Wd json semver services)
      (x : Receipt json.Value)
      → remediate json semver services shown pool show_id attached driver target capability params w
        ≡ some (ok x, v)
      → (out : ConnectorOutput json.Value) × (dispatch json semver services shown pool show_id
            attached driver driver.actor_id capability target params default_timeout_secs w
          ≡ some (ok out, v))
        × (out.success ≡ true)
  unfolding remediate answer
  remediate-honest target capability params w v x h =
      go
        (dispatch json semver services shown pool show_id attached driver driver.actor_id capability
          target params default_timeout_secs w)
        h
    where
      go :
          (o : Option (Outcome × Wd json semver services))
          → answer json semver services shown
              (receipt json semver services shown target capability params)
              o
            ≡ some (ok x, v)
          → (out : ConnectorOutput json.Value) × (o ≡ some (ok out, v)) × (out.success ≡ true)
      go none k = absurd (unfold answer in ground (arith, k))
      go (some (r, u)) k =
          let e : map_err (r >>= receipt json semver services shown target capability params)
                (driver_error shown.error)
              ≡ ok x =
            unfold answer in ground (arith, k) in
          let same : u ≡ v = unfold answer in ground (arith, k) in
          let (out, q, s) = receipt-success target capability params r shown.error x e in
          (out, cc, s)
