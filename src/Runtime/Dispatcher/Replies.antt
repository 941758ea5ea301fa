-- ===== src/Runtime/Dispatcher/Replies.antt =====
-- What an answer of `dispatch` says.
use native.Mathlib.Omega.{arith}
use daimon.Common.{
  ℕ, ◌≡◌, refl, sym, ap, inl, inr, true, Option, some, List, [], ◌∷◌, ◌++◌, In, Bool-cases, false,
  &&-elim, ==_iff, Option-cases,
}
use daimon.Common.Text.{Text, codes, text_eq, text_eq_sound}
use daimon.Common.Result.{ok, err}
use daimon.Common.Json.{Json, Semver}
use daimon.Runtime.Registry.{RegistryEntry, CapabilityRegistry, require_by_capability}
use daimon.Runtime.Registry.Laws.{IsProvided, require_by_capability_lem}
use daimon.Runtime.Dispatcher.{
  capability_not_found, Recipient, direct, by_capability, AgentEnvelope, Received, envelope, lagged,
  closed, is_reply, await_reply, new_envelope, Bus, dispatch,
}

module _ (json : Json) (semver : Semver) where
  -- An envelope that was heard, that carries the correlation id and is addressed to the caller.
  abbrev pub IsHeard : ℕ → Text → List (Received json semver) → json.Value → Type 0
  IsHeard corr from heard body =
      (env : AgentEnvelope json semver) × In (envelope env) heard
      × (env.correlation_id ≡ corr)
      × (env.to ≡ direct from)
      × (env.body ≡ body)

  is_direct :
      (r : Recipient json semver) (from : Text)
      → elim r [ direct id ↦ text_eq id from | by_capability n q ↦ false ] ≡ true
      → r ≡ direct from
  is_direct (direct id) from h = ap (λ x. direct x) (text_eq_sound id from h)
  is_direct (by_capability n q) from h = absurd (ground (arith, h))

  is_reply_sound :
      (corr : ℕ) (from : Text) (env : AgentEnvelope json semver)
      → is_reply json semver corr from env ≡ true
      → (env.correlation_id ≡ corr) × (env.to ≡ direct from)
  unfolding is_reply
  is_reply_sound corr from env h = (
    (==_iff env.correlation_id corr).0 (&&-elim _ _ h).0,
    is_direct env.to from (&&-elim _ _ h).1,
  )

  await_reply_sound :
      (corr : ℕ) (from : Text) (limit : ℕ) (heard : List (Received json semver)) (body : json.Value)
      → await_reply json semver corr from limit heard ≡ ok body
      → IsHeard corr from heard body
  unfolding await_reply
  await_reply_sound corr from limit [] body h = absurd (ground (arith, h))
  await_reply_sound corr from limit (envelope env ∷ rest) body h =
      elim (Bool-cases (is_reply json semver corr from env)) [
        | inl e ↦
            let (c, d) = is_reply_sound corr from env e in
            (env, inl refl, c, d, ground (arith, h, e))
        | inr e ↦
            let (x, i, k, d, q) =
              await_reply_sound corr from limit rest body (ground (arith, h, e)) in
            (x, inr i, k, d, q)
      ]
  await_reply_sound corr from limit (lagged ∷ rest) body h =
      let (x, i, k, d, q) = await_reply_sound corr from limit rest body h in (x, inr i, k, d, q)
  await_reply_sound corr from limit (closed ∷ rest) body h = absurd (ground (arith, h))

  provided :
      (name : Text) (req : semver.Req) (inner : CapabilityRegistry json semver)
      (entry : RegistryEntry json semver)
      → require_by_capability json semver name req inner ≡ some entry
      → (e : RegistryEntry json semver) × IsProvided json semver name req inner e
  provided name req inner entry h = elim (require_by_capability_lem json semver name req inner) [
    | inl (e, q, k) ↦ (e, k)
    | inr (q, k) ↦ absurd (ground (arith, h, q))
  ]

  -- The request that was sent.
  abbrev pub IsAsked :
      ℕ → Text → Text → semver.Req → json.Value → AgentEnvelope json semver → Type 0
  IsAsked corr from name req body env =
      (env.correlation_id ≡ corr)
      × (env.from ≡ from)
      × (env.to ≡ by_capability name req)
      × (env.body ≡ body)

  -- `dispatch` answers with a body only if an agent was registered that provides the capability in a
  -- version that meets the requirement, the request was sent to the capability under a correlation id, and the body is that of an envelope that the bus delivered
  -- before the deadline, with the request's correlation id and addressed to the caller.
  pub dispatch_answered :
      (bus : Bus json semver) (n : ℕ) (from name : Text) (req : semver.Req) (body : json.Value)
      (limit : ℕ) (reply : json.Value) (out : Option (AgentEnvelope json semver))
      → dispatch json semver bus n from name req body limit ≡ (ok reply, out)
      → ((entry : RegistryEntry json semver) × IsProvided json semver name req
            (bus.registry n)
            entry)
        × ((env : AgentEnvelope json semver) × (out ≡ some env)
            × IsAsked (bus.correlation n) from name req body env)
        × IsHeard (bus.correlation n) from (bus.heard n) reply
  unfolding dispatch
  dispatch_answered bus n from name req body limit reply out h =
      let got : (dispatch json semver bus n from name req body limit).0 ≡ ok reply =
        ap (λ x. x.0) h in
      let gave : (dispatch json semver bus n from name req body limit).1 ≡ out = ap (λ x. x.1) h in
      elim (Option-cases (require_by_capability json semver name req (bus.registry n))) [
        | inl e ↦
            let k : err (capability_not_found (name ++ (codes " @ " ++ semver.show_req req)))
                ≡ ok reply =
              rw (e, dispatch) at got in
            absurd (ground (arith, k))
        | inr (entry, e) ↦ (
          provided name req (bus.registry n) entry e,
          (
            new_envelope json semver (bus.correlation n) from (by_capability name req) body,
            sym (rw (e, dispatch) at gave),
            unfold new_envelope in (refl, refl, refl, refl),
          ),
          await_reply_sound (bus.correlation n) from limit (bus.heard n) reply
              (rw (e, dispatch) at got),
        )
      ]
