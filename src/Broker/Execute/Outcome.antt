-- ===== src/Broker/Execute/Outcome.antt =====
-- What `execute` does to the transports and to the audit log.
use mathlib.Core.Path.{subst}
use daimon.Common.{
  ℕ, suc, ◌≡◌, refl, sym, ap, ◌∙◌, ◌⊎◌, inl, inr, true, Option, none, some, [], ◌∷◌, ◌++◌,
  Option-cases, Bool-cases,
}
use daimon.Common.Text.{Text}
use daimon.Common.Result.{Result, ok, err}
use daimon.Common.Json.{Json, Semver}
use daimon.Audit.Event.{
  success, error, NewAuditEvent, broker_execute, new, with_target, with_credential, with_op_summary,
  with_latency_ms, with_metadata,
}
use daimon.Vault.Refspec.{CredentialRef, RefParseError, parse}
use daimon.Inventory.Refspec.{to_string}
use daimon.Inventory.Target.{ManagedTarget}
use daimon.Inventory.Registry.{InventoryError}
use daimon.Guard.Error.{Error}
use daimon.Guard.Approvals.{Pool}
use daimon.Guard.PreFlight.{Guard, pre_flight}
use daimon.Guard.PreFlight as PreFlight
use daimon.Guard.PreFlight.Gate.{pre_flight_answers}
use daimon.Broker.Op.{op_summary_for}
use daimon.Broker.Request.{ExecRequest}
use daimon.Broker.Execute.{
  Services, World, Sent, derive_read_only, capability_of, approval_params, Reply, dispatch_op,
  with_vault, with_ref, with_target_row, carry_out, after_guard, credential_of, result_tag,
  note_credential, note_error, event_of, audit_execute, audited, execute_inner, execute,
}

module _ (json : Json) (semver : Semver) (services : Services json.Value) where
  abbrev Wd : Type 0
  Wd = World json.Value

  abbrev Req : Type 0
  Req = ExecRequest semver.Version json.Value

  -- At most one operation, the request's, was given to a transport.
  abbrev pub SentOnce : Req → Wd → Wd → Type 0
  SentOnce req w v =
      (v.sent ≡ w.sent) ⊎ ((s : Sent json.Value) × (v.sent ≡ w.sent ++ s ∷ []) × (s.op ≡ req.op))

  -- Only the transports, the inventory and the audit log were touched.
  abbrev pub Touches : Req → Wd → Wd → Type 0
  Touches req w v = (v.guarded ≡ w.guarded) × (v.events ≡ w.events) × SentOnce req w v

  dispatch_op-Touches :
      (req : Req) (m : ManagedTarget) (c : services.Credential) (w : Wd)
      → Touches req w (dispatch_op json semver services req m c w).1
  unfolding dispatch_op
  dispatch_op-Touches req m c w = elim (Option-cases (services.transports m.transport)) [
    | inl e ↦ rw (e, dispatch_op) (refl, refl, inl refl)
    | inr (run, e) ↦ rw (e, dispatch_op) (refl, refl, inr (_, refl, refl))
  ]

  with_vault-Touches :
      (req : Req) (m : ManagedTarget) (r : Result services.Credential services.VaultError) (w : Wd)
      → Touches req w (with_vault json semver services req m r w).1
  unfolding with_vault
  with_vault-Touches req m (err e) w = (refl, refl, inl refl)
  with_vault-Touches req m (ok c) w = dispatch_op-Touches req m c w

  with_ref-Touches :
      (req : Req) (m : ManagedTarget) (r : Result CredentialRef RefParseError) (w : Wd)
      → Touches req w (with_ref json semver services req m r w).1
  unfolding with_ref
  with_ref-Touches req m (err e) w = (refl, refl, inl refl)
  with_ref-Touches req m (ok c) w = with_vault-Touches req m (services.resolve c) w

  with_target_row-Touches :
      (req : Req) (r : Result ManagedTarget InventoryError) (w : Wd)
      → Touches req w (with_target_row json semver services req r w).1
  unfolding with_target_row
  with_target_row-Touches req (err e) w = (refl, refl, inl refl)
  with_target_row-Touches req (ok m) w = with_ref-Touches req m (parse m.credential_ref) w

  pub carry_out-Touches :
      (req : Req) (w : Wd) → Touches req w (carry_out json semver services req w).1
  unfolding carry_out
  carry_out-Touches req w =
      with_target_row-Touches req (services.managed w.lookups req.target_ref)
        (record w { lookups = suc w.lookups })

  pub audit_execute-kept :
      (req : Req) (r : Reply json semver services) (w : Wd)
      → ((audit_execute json semver services req r w).sent ≡ w.sent)
        × ((audit_execute json semver services req r w).guarded ≡ w.guarded)
  unfolding audit_execute
  audit_execute-kept req r w = elim (Bool-cases services.audits) [
    | inr e ↦ rw e (refl, refl)
    | inl e ↦
        elim (Bool-cases (
          services.accepts (
            event_of json semver services req r
              (credential_of json semver services (services.managed w.lookups req.target_ref))))) [
                | inl k ↦ rw (e, k) (refl, refl)
                | inr k ↦ rw (e, k) (refl, refl)
              ]
  ]

  -- What the event of a call says of the call and of its answer.
  abbrev pub Notes : Req → Reply json semver services → NewAuditEvent → Type 0
  Notes req r ev =
      (ev.actor_id ≡ req.actor_id)
      × (ev.action ≡ broker_execute)
      × (ev.target_ref ≡ some (to_string req.target_ref))
      × (ev.op_summary ≡ some (op_summary_for req.op))
      × (ev.result ≡ elim r [ ok x ↦ success | err e ↦ error ])

  event_of-Notes :
      (req : Req) (r : Reply json semver services) (o : Option Text)
      → Notes req r (event_of json semver services req r o)
  unfolding event_of result_tag note_error note_credential with_credential with_latency_ms
      with_op_summary with_target new with_metadata
  event_of-Notes req (ok x) none = (refl, refl, refl, refl, refl)
  event_of-Notes req (ok x) (some c) = (refl, refl, refl, refl, refl)
  event_of-Notes req (err e) none = (refl, refl, refl, refl, refl)
  event_of-Notes req (err e) (some c) = (refl, refl, refl, refl, refl)

  module _ (pool : Pool json.Value) (show_id : ℕ → Text) where
    execute_inner_ends :
        (attached : Option Guard) (req : Req) (w : Wd)
        → (r : Reply json semver services) × (v : Wd) × (execute_inner json semver services pool
              show_id attached req w
            ≡ some (r, v))
          × (v.events ≡ w.events)
          × SentOnce req w v
    unfolding execute_inner
    execute_inner_ends none req w = let t = carry_out-Touches req w in (_, _, refl, t.1, t.2)
    execute_inner_ends (some g) req w =
        let (r, v, e) =
          pre_flight_answers pool show_id g req.actor_id (capability_of req)
            (some (to_string req.target_ref)) (approval_params json req) (derive_read_only req)
            w.guarded in
        rw e (after r v)
      where
        after :
            (r : Result (Unit {0}) Error) (g' : PreFlight.World json.Value)
            → (x : Reply json semver services) × (v : Wd) × (after_guard json semver services req
                  (some (r, g'))
                  w
                ≡ some (x, v))
              × (v.events ≡ w.events)
              × SentOnce req w v
        after (err e) g' = unfold after_guard in (_, _, refl, refl, inl refl)
        after (ok u) g' =
            let t = carry_out-Touches req (record w { guarded = g' }) in
            unfold after_guard in (_, _, refl, t.1, t.2)

    -- `execute` answers, and gives at most one operation, the one requested, to a transport.
    pub execute-SentOnce :
        (attached : Option Guard) (req : Req) (w : Wd)
        → (r : Reply json semver services) × (w' : Wd) × (execute json semver services pool show_id
              attached req w
            ≡ some (r, w'))
          × SentOnce req w w'
    unfolding execute audited
    execute-SentOnce attached req w =
        let (r, v, e, same, once) = execute_inner_ends attached req w in
        (
          r,
          audit_execute json semver services req r v,
          rw e refl,
          subst
              (λ l.
                (l ≡ w.sent) ⊎ ((s : Sent json.Value) × (l ≡ w.sent ++ s ∷ []) × (s.op ≡ req.op)))
              (sym (audit_execute-kept req r v).0) once,
        )

    -- When there is an audit sink that takes every event, `execute` answers, gives at most one
    -- operation, the one requested, to a transport, and appends exactly one event to the log,
    -- which names the actor, the target and the operation and is tagged with the answer.
    pub execute_audits :
        (attached : Option Guard) (req : Req) (w : Wd)
        → services.audits ≡ true
        → ((ev : NewAuditEvent) → services.accepts ev ≡ true)
        → (r : Reply json semver services) × (w' : Wd) × (execute json semver services pool show_id
              attached req w
            ≡ some (r, w'))
          × SentOnce req w w'
          × ((ev : NewAuditEvent) × (w'.events ≡ w.events ++ ev ∷ []) × Notes req r ev)
    unfolding execute audited
    execute_audits attached req w a k =
        let (r, v, e, same, once) = execute_inner_ends attached req w in
        let ev =
          event_of json semver services req r
            (credential_of json semver services (services.managed v.lookups req.target_ref)) in
        (
          r,
          audit_execute json semver services req r v,
          rw e refl,
          subst
              (λ l.
                (l ≡ w.sent) ⊎ ((s : Sent json.Value) × (l ≡ w.sent ++ s ∷ []) × (s.op ≡ req.op)))
              (sym (audit_execute-kept req r v).0) once,
          (ev, appended r v ∙ ap (λ l. l ++ ev ∷ []) same, event_of-Notes req r _),
        )
      where
        appended :
            (r : Reply json semver services) (v : Wd)
            → (audit_execute json semver services req r v).events
              ≡ v.events
                ++ event_of json semver services req r
                    (credential_of json semver services (services.managed v.lookups req.target_ref))
                  ∷ []
        appended r v =
            unfold audit_execute in
            rw
              (
                a,
                k (
                    event_of json semver services req r (
                      credential_of json semver services
                        (services.managed v.lookups req.target_ref))),
              )
              refl
