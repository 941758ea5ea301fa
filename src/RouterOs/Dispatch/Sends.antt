-- ===== src/RouterOs/Dispatch/Sends.antt =====
-- What the driver gives to a transport, and what it answers on the bus.
use mathlib.Core.Path.{subst}
use daimon.Common.{
  ℕ, max, ◌≡◌, refl, sym, ap, ◌∙◌, ◌⊎◌, inl, inr, true, Option, none, some, List, [], ◌∷◌, ◌++◌,
  all, find, arith,
}
use daimon.Common.Text.{Text, text_eq}
use daimon.Common.Result.{Result, ok, err, Result-cases}
use daimon.Common.Json.{Json, Semver}
use daimon.Core.Capability.{Capability}
use daimon.Inventory.Refspec.{parse}
use daimon.Guard.Approvals.{Pool}
use daimon.Guard.PreFlight.{Guard}
use daimon.Broker.Op.{shell_command}
use daimon.Broker.Request.{new, with_capability, with_capability_meta}
use daimon.Broker.Execute.{Services, Sent, Reply}
use daimon.Broker.Execute.Outcome.{SentOnce, execute-SentOnce}
use daimon.RouterOs.Command.{build_command}
use daimon.RouterOs.Command.Plain.{command_char, build_command-plain}
use daimon.RouterOs.Catalog.{build_capabilities}
use daimon.RouterOs.Dispatch.{
  NetworkOutput, Shown, Failure, Err, Req, Wd, attach, build_exec_request, output_of, prepare,
  submit, dispatch,
}

module _ (json : Json) (semver : Semver) (services : Services json.Value)
    (shown : Shown json.Value (Failure json semver services)) where
  attach-kept :
      (capability : Text) (o : Option (Capability semver.Version json.Value))
      (req : Req json semver services)
      → ((attach json semver services shown capability o req).op ≡ req.op)
        × ((attach json semver services shown capability o req).actor_id ≡ req.actor_id)
  unfolding attach with_capability with_capability_meta
  attach-kept capability none req = (refl, refl)
  attach-kept capability (some cap) req = (refl, refl)

  build_exec_request-op :
      (actor_id capability target_ref command : Text) (timeout_secs : ℕ)
      (caps : List (Capability semver.Version json.Value)) (req : Req json semver services)
      → build_exec_request json semver services shown actor_id capability target_ref command
          timeout_secs caps
        ≡ ok req
      → (req.op ≡ shell_command command (max timeout_secs 1)) × (req.actor_id ≡ actor_id)
  unfolding build_exec_request new
  build_exec_request-op actor_id capability target_ref command timeout_secs caps req h =
      elim (Result-cases (parse target_ref)) [
        | inr (x, e) ↦ absurd (ground (arith, h, e))
        | inl (target, e) ↦
            let asked : Req json semver services =
              new actor_id target (shell_command command (max timeout_secs 1)) in
            let cap = find (λ c. text_eq c.name capability) caps in
            let q : attach json semver services shown capability cap asked ≡ req =
              ground (arith, h, e) in
            let k = attach-kept capability cap asked in
            (ap (λ r. r.op) (sym q) ∙ k.0, ap (λ r. r.actor_id) (sym q) ∙ k.1)
      ]

  -- What `prepare` makes.
  abbrev pub Prepared : Text → ℕ → Text → Req json semver services → Type 0
  Prepared actor_id timeout_secs command req =
      (req.op ≡ shell_command command (max timeout_secs 1))
      × ((req.actor_id ≡ actor_id) × (all command_char command ≡ true))

  prepare-Prepared :
      (actor_id capability target_ref : Text) (params : Option json.Value) (timeout_secs : ℕ)
      (command : Text) (req : Req json semver services)
      → prepare json semver services shown actor_id capability target_ref params timeout_secs
        ≡ ok (command, req)
      → Prepared actor_id timeout_secs command req
  unfolding prepare
  prepare-Prepared actor_id capability target_ref params timeout_secs command req h =
      elim (Result-cases
        (build_command {B = Failure json semver services} json capability params)) [
          | inr (x, e) ↦ absurd (ground (arith, h, e))
          | inl (cmd, e) ↦
              elim (Result-cases (
                build_exec_request json semver services shown actor_id capability target_ref cmd
                  timeout_secs (build_capabilities json semver))) [
                    | inr (x, f) ↦ absurd (ground (arith, h, e, f))
                    | inl (r, f) ↦
                        let q : cmd ≡ command = ground (arith, h, e, f) in
                        let s : r ≡ req = ground (arith, h, e, f) in
                        let k =
                          build_exec_request-op actor_id capability target_ref cmd timeout_secs
                            (build_capabilities json semver) r f in
                        (
                          ap (λ x. x.op) (sym s)
                              ∙ k.0
                              ∙ ap (λ c. shell_command c (max timeout_secs 1)) q,
                          (
                            ap (λ x. x.actor_id) (sym s) ∙ k.1,
                            subst (λ c. all command_char c ≡ true) q
                                (build_command-plain json capability params cmd e),
                          ),
                        )
                  ]
        ]

  -- At most one operation was given to a transport: a shell command of plain characters.
  abbrev pub SendsPlain : ℕ → Wd json semver services → Wd json semver services → Type 0
  SendsPlain timeout_secs w v =
      (v.sent ≡ w.sent)
      ⊎ ((command : Text) × (s : Sent json.Value) × (v.sent ≡ w.sent ++ s ∷ [])
          × ((s.op ≡ shell_command command (max timeout_secs 1))
              × (all command_char command ≡ true)))

  module _ (pool : Pool json.Value) (show_id : ℕ → Text) (attached : Option Guard) where
    submit-SendsPlain :
        (actor_id : Text) (timeout_secs : ℕ)
        (p : Result (Text × Req json semver services) (Err json semver services))
        (w : Wd json semver services)
        → ((command : Text) (req : Req json semver services)
            → p ≡ ok (command, req)
            → Prepared actor_id timeout_secs command req)
        → (r : Result NetworkOutput (Err json semver services)) × (v : Wd json semver services)
          × (submit json semver services shown pool show_id attached p w ≡ some (r, v))
          × SendsPlain timeout_secs w v
    unfolding submit
    submit-SendsPlain actor_id timeout_secs (err e) w k = (err e, w, refl, inl refl)
    submit-SendsPlain actor_id timeout_secs (ok (command, req)) w k =
        let (r, v, e, once) = execute-SentOnce json semver services pool show_id attached req w in
        let (op, (who, plain)) = k command req refl in
        (
          output_of json semver services shown command r,
          v,
          rw (submit, e) refl,
          sends r v once op plain,
        )
      where
        sends :
            (r : Reply json semver services) (v : Wd json semver services)
            → SentOnce json semver services req w v
            → req.op ≡ shell_command command (max timeout_secs 1)
            → all command_char command ≡ true
            → SendsPlain timeout_secs w v
        sends r v (inl same) op plain = inl same
        sends r v (inr (s, q, o)) op plain = inr (command, s, q, (o ∙ op, plain))

    -- `dispatch` answers, and gives at most one operation to a transport: a shell command made of
    -- letters, digits and ` ./-_:!@+="[]` alone, with a time limit of at least one second.
    pub dispatch-SendsPlain :
        (actor_id capability target_ref : Text) (params : Option json.Value) (timeout_secs : ℕ)
        (w : Wd json semver services)
        → (r : Result NetworkOutput (Err json semver services)) × (v : Wd json semver services)
          × (dispatch json semver services shown pool show_id attached actor_id capability
                target_ref params timeout_secs w
              ≡ some (r, v))
          × SendsPlain timeout_secs w v
    unfolding dispatch
    dispatch-SendsPlain actor_id capability target_ref params timeout_secs w =
        submit-SendsPlain actor_id timeout_secs
          (prepare json semver services shown actor_id capability target_ref params timeout_secs) w
          (λ command req e.
            prepare-Prepared actor_id capability target_ref params timeout_secs command req e)
