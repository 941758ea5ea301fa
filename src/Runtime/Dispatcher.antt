-- ===== src/Runtime/Dispatcher.antt =====
-- crates/daimon-runtime/src/dispatcher.rs and the envelopes of crates/daimon-core/src/envelope.rs:
-- a capability call over the bus, whose `send` never fails (crates/daimon-runtime/src/bus.rs). What
-- the bus does is a parameter: the registry at each dispatch,
-- the correlation id it draws, and what its receiver yields until the deadline.
pub mod Replies
use daimon.Common.{
  ℕ, Bool, true, false, ◌&&◌, Option, none, some, List, [], ◌∷◌, ◌++◌, if◌then◌else◌, ◌==◌,
}
use daimon.Common.Text.{Text, codes, text_eq}
use daimon.Common.Result.{Result, ok, err}
use daimon.Common.Json.{Json, Semver}
use daimon.Runtime.Registry.{CapabilityRegistry, require_by_capability}

pub data DispatchError : Type 0 where
  capability_not_found core : Text → DispatchError
  timeout : ℕ → DispatchError
  bus_closed : DispatchError

module _ (json : Json) (semver : Semver) where
  pub data Recipient : Type 0 where
    direct : Text → Recipient
    by_capability : Text → semver.Req → Recipient

  -- The audit metadata, a time stamp and an optional parent, are left out: nothing reads them here.
  pub record AgentEnvelope : Type 0 where
    pub correlation_id : ℕ
    pub from : Text
    pub to : Recipient
    pub reply_to : Option Text
    pub body : json.Value

  unfoldable pub new_envelope : ℕ → Text → Recipient → json.Value → AgentEnvelope
  new_envelope correlation_id from to body = record {
    correlation_id = correlation_id;
    from = from;
    to = to;
    reply_to = none;
    body = body;
  }

  unfoldable pub reply_envelope : AgentEnvelope → Text → json.Value → AgentEnvelope
  reply_envelope request from body = record {
    correlation_id = request.correlation_id;
    from = from;
    to = direct request.from;
    reply_to = none;
    body = body;
  }

  -- What `rx.recv()` yields; the list ends where the deadline passes.
  pub data Received : Type 0 where
    envelope : AgentEnvelope → Received
    lagged closed : Received

  unfoldable pub is_reply : ℕ → Text → AgentEnvelope → Bool
  is_reply corr from env =
      (env.correlation_id == corr)
      && elim env.to [ direct id ↦ text_eq id from | by_capability n r ↦ false ]

  unfoldable pub await_reply : ℕ → Text → ℕ → List Received → Result json.Value DispatchError
  unfolding is_reply
  await_reply corr from limit [] = err (timeout limit)
  await_reply corr from limit (envelope env ∷ rest) =
      let later = await_reply corr from limit rest in
      if is_reply corr from env then ok env.body else later
  await_reply corr from limit (lagged ∷ rest) = await_reply corr from limit rest
  await_reply corr from limit (closed ∷ rest) = err bus_closed

  -- What the bus does at the n-th dispatch.
  pub record Bus : Type 0 where
    pub registry : ℕ → CapabilityRegistry json semver
    pub correlation : ℕ → ℕ
    pub heard : ℕ → List Received

  -- The answer of a dispatch, and the envelope that it sent, if it sent one.
  unfoldable pub dispatch :
      Bus
      → ℕ
      → Text
      → Text
      → semver.Req
      → json.Value
      → ℕ
      → Result json.Value DispatchError × Option AgentEnvelope
  unfolding await_reply new_envelope require_by_capability
  dispatch bus n from name req body limit =
      elim (require_by_capability json semver name req (bus.registry n)) [
        | none ↦ (err (capability_not_found (name ++ (codes " @ " ++ semver.show_req req))), none)
        | some entry ↦ (
          await_reply (bus.correlation n) from limit (bus.heard n),
          some (new_envelope (bus.correlation n) from (by_capability name req) body),
        )
      ]
