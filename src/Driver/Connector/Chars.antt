-- ===== src/Driver/Connector/Chars.antt =====
-- What a connector gives to a transport.
use mathlib.Core.Path.{subst}
use daimon.Common.{
  ℕ, ◌≡◌, refl, sym, ◌⊎◌, inl, inr, Bool, true, Option, some, List, [], ◌∷◌, ◌++◌, all, All,
  Bool-cases, Option-cases, arith,
}
use daimon.Common.Text.{Text, text_eq}
use daimon.Common.Result.{Result, ok, err, Result-cases, ok_or, ◌>>=◌}
use daimon.Common.Json.{Json, Semver}
use daimon.Common.Map.{lookup, insert, text_Eq}
use daimon.Inventory.Refspec.{parse}
use daimon.Guard.Approvals.{Pool}
use daimon.Guard.PreFlight.{Guard}
use daimon.Broker.Op.{Op}
use daimon.Broker.Request.{new, with_capability_meta}
use daimon.Broker.Execute.{Services, Sent}
use daimon.Broker.Execute.Outcome.{SentOnce, execute-SentOnce}
use daimon.Driver.Param.{ParamClass, validate}
use daimon.Driver.Param.Inert.{plain_char, is_plain, validate-plain, all_weaken}
use daimon.Driver.Profile.{
  ProfileTransport, rest, ssh, snmp, ConnectorError, unknown_capability, project_capability,
}
use daimon.Driver.Render.{Validated}
use daimon.Driver.Render.Ops.{
  op_text, IsMadeOp, render_http_op-IsMade, render_ssh_op-IsMade, render_snmp_op-IsMade,
}
use daimon.Driver.Connector.{
  ConnectorDriver, ConnectorOutput, Shown, Failure, Req, Wd, Declared, extract_param,
  validate_params, render, prepare, output_of, submit, dispatch,
}

All-insert :
    (P : Text → Type 0) (k v : Text) (m : Validated)
    → P v
    → All (λ kv. P kv.1) m
    → All (λ kv. P kv.1) (insert k v m)
unfolding insert
All-insert P k v [] h a = (h, tt)
All-insert P k v ((j, w) ∷ m) h a = elim (Bool-cases (text_eq j k)) [
  | inl e ↦ rw (insert, e) (h, a.1)
  | inr e ↦ rw (insert, e) (a.0, All-insert P k v m h a.1)
]

module _ (p : ℕ → Bool) (widens : (c : ℕ) → plain_char c ≡ true → p c ≡ true) (json : Json) where
  abbrev IsMade : Text → Type 0
  IsMade t = all p t ≡ true

  validate_params-IsMade :
      (capability : Text) (params : json.Value) (classes : List (Text × ParamClass))
      (validated out : Validated)
      → All (λ nc. is_plain nc.1 ≡ true) classes
      → All (λ kv. IsMade kv.1) validated
      → validate_params json capability params classes validated ≡ ok out
      → All (λ kv. IsMade kv.1) out
  unfolding validate_params
  validate_params-IsMade capability params [] validated out a v h =
      let q : validated ≡ out = ground (arith, h) in subst (All (λ kv. IsMade kv.1)) q v
  validate_params-IsMade capability params ((name, class) ∷ classes) validated out a v h =
      elim (Option-cases (extract_param json params name)) [
        | inl e ↦ absurd (ground (arith, h, e))
        | inr (raw, e) ↦ elim (Result-cases (validate raw class)) [
          | inr (x, f) ↦ absurd (ground (arith, h, e, f))
          | inl (u, f) ↦
              validate_params-IsMade capability params classes (insert name raw validated) out a.1
                (All-insert IsMade name raw validated
                  (all_weaken plain_char p widens raw (validate-plain raw class a.0 f)) v)
                (ground (arith, h, e, f))
        ]
      ]

  module _ (semver : Semver) (services : Services json.Value)
      (shown : Shown json.Value (Failure json semver services)) where
    -- A declared capability whose templates have the property, and whose enumerations are plain.
    abbrev pub IsMadeCap : Declared json semver services → Type 0
    IsMadeCap d = IsMadeOp p json d.cap.op × All (λ nc. is_plain nc.1 ≡ true) d.cap.params

    render-IsMade :
        (d : Declared json semver services) (capability : Text) (validated : Validated)
        (timeout_secs : ℕ) (out : Op json.Value)
        → IsMadeCap d
        → All (λ kv. IsMade kv.1) validated
        → render json semver services shown d capability validated timeout_secs ≡ ok out
        → IsMade (op_text out)
    unfolding render
    render-IsMade d capability validated timeout_secs out m values h = by d.transport refl
      where
        by : (t : ProfileTransport) → d.transport ≡ t → IsMade (op_text out)
        by rest e =
            render_http_op-IsMade p json capability validated values d.cap.op d.auth out m.0
              (ground (arith, h, e))
        by ssh e =
            render_ssh_op-IsMade p json capability validated values d.cap.op timeout_secs out m.0
              (ground (arith, h, e))
        by snmp e =
            render_snmp_op-IsMade p json capability validated values d.cap.op out m.0
              (ground (arith, h, e))

    prepare-IsMade :
        (d : Declared json semver services) (actor_id capability target_ref : Text)
        (params : json.Value) (timeout_secs : ℕ) (req : Req json semver services)
        → IsMadeCap d
        → prepare json semver services shown d actor_id capability target_ref params timeout_secs
          ≡ ok req
        → IsMade (op_text req.op)
    unfolding prepare new with_capability_meta
    prepare-IsMade d actor_id capability target_ref params timeout_secs req m h =
        elim (Result-cases (validate_params json capability params d.cap.params [])) [
          | inr (x, e) ↦ absurd (ground (arith, h, e))
          | inl (validated, e) ↦
              elim (Result-cases
                (render json semver services shown d capability validated timeout_secs)) [
                  | inr (x, f) ↦ absurd (ground (arith, h, e, f))
                  | inl (op, f) ↦ elim (Result-cases (parse target_ref)) [
                    | inr (x, g) ↦ absurd (ground (arith, h, e, f, g))
                    | inl (target, g) ↦
                        let q : with_capability_meta (project_capability json d.cap)
                              (new actor_id target op)
                            ≡ req =
                          ground (arith, h, e, f, g) in
                        subst (λ r. IsMade (op_text r.op)) q
                          (render-IsMade d capability validated timeout_secs op m
                            (validate_params-IsMade capability params d.cap.params [] validated m.1
                              tt e)
                            f)
                  ]
                ]
        ]

    lookup-All :
        (P : Declared json semver services → Type 0)
        (m : List (Text × Declared json semver services)) (name : Text)
        (d : Declared json semver services)
        → All (λ kv. P kv.1) m
        → lookup name m ≡ some d
        → P d
    unfolding lookup
    lookup-All P [] name d a h = absurd (ground (arith, h))
    lookup-All P ((k, v) ∷ m) name d a h = elim (Bool-cases (text_eq k name)) [
      | inl e ↦ let q : v ≡ d = ground (arith, h, e) in subst P q a.0
      | inr e ↦ lookup-All P m name d a.1 (ground (arith, h, e))
    ]

    -- At most one operation was given to a transport, and its text has the property.
    abbrev pub SendsMade : Wd json semver services → Wd json semver services → Type 0
    SendsMade w v =
        (v.sent ≡ w.sent)
        ⊎ ((s : Sent json.Value) × (v.sent ≡ w.sent ++ s ∷ []) × IsMade (op_text s.op))

    module _ (pool : Pool json.Value) (show_id : ℕ → Text) (attached : Option Guard) where
      submit-SendsMade :
          (capability : Text) (q : Result (Req json semver services) ConnectorError)
          (w : Wd json semver services)
          → ((req : Req json semver services) → q ≡ ok req → IsMade (op_text req.op))
          → (r : Result (ConnectorOutput json.Value) ConnectorError) × (v : Wd json semver services)
            × (submit json semver services shown pool show_id attached capability q w ≡ some (r, v))
            × SendsMade w v
      unfolding submit
      submit-SendsMade capability (err e) w k = (err e, w, refl, inl refl)
      submit-SendsMade capability (ok req) w k =
          let (r, v, e, once) = execute-SentOnce json semver services pool show_id attached req w in
          (
            output_of json semver services shown capability r,
            v,
            rw (submit, e) refl,
            sends v once (k req refl),
          )
        where
          sends :
              (v : Wd json semver services)
              → SentOnce json semver services req w v
              → IsMade (op_text req.op)
              → SendsMade w v
          sends v (inl same) m = inl same
          sends v (inr (s, q, o)) m = inr (s, q, subst (λ x. IsMade (op_text x)) (sym o) m)

      -- `dispatch` answers, and gives at most one operation to a transport. A property of all plain
      -- characters (letters, digits and ` ./-_:!@+`) that the templates of the declared capabilities
      -- have outside their slots, the command, path or object that is sent has, whatever the
      -- parameters, provided that the members of the enumerations are plain.
      pub dispatch-SendsMade :
          (driver : ConnectorDriver semver.Version json.Value)
          (actor_id capability target_ref : Text) (params : json.Value) (timeout_secs : ℕ)
          (w : Wd json semver services)
          → All (λ kv. IsMadeCap kv.1) driver.declared
          → (r : Result (ConnectorOutput json.Value) ConnectorError) × (v : Wd json semver services)
            × (dispatch json semver services shown pool show_id attached driver actor_id capability
                  target_ref params timeout_secs w
                ≡ some (r, v))
            × SendsMade w v
      unfolding dispatch
      dispatch-SendsMade driver actor_id capability target_ref params timeout_secs w a =
          submit-SendsMade capability _ w (λ req h. made req h)
        where
          made :
              (req : Req json semver services)
              → (ok_or (lookup capability driver.declared) (unknown_capability capability) >>= λ d.
                  prepare json semver services shown d actor_id capability target_ref params
                    timeout_secs)
                ≡ ok req
              → IsMade (op_text req.op)
          made req h = elim (Option-cases (lookup capability driver.declared)) [
            | inl e ↦ absurd (ground (arith, h, e))
            | inr (d, e) ↦
                prepare-IsMade d actor_id capability target_ref params timeout_secs req
                  (lookup-All IsMadeCap driver.declared capability d a e) (ground (arith, h, e))
          ]
