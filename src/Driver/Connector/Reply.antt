-- ===== src/Driver/Connector/Reply.antt =====
-- The requests and the replies of a connector on the bus.
use daimon.Common.{
  ℕ, Bool, true, false, ◌||◌, not, Option, none, some, List, [], ◌∷◌, ◌++◌, if◌then◌else◌,
}
use daimon.Common.Text.{Text, codes, trim}
use daimon.Common.Integer.{ℤ, pos, int_eq}
use daimon.Common.Json.{Json}
use daimon.Driver.Profile.{is_empty}
use daimon.Driver.Connector.{ConnectorOutput}

abbrev pub default_timeout_secs : ℕ
default_timeout_secs = 30

pub record ConnectorRequest (J : Type 0) : Type 0 where
  pub capability : Text
  pub target_ref : Text
  pub timeout_secs : Option ℕ
  pub params : Option J

pub record ConnectorReplyOutput : Type 0 where
  pub stdout : Text
  pub stderr : Text
  pub exit_status : ℤ

pub record ConnectorReply : Type 0 where
  pub success : Bool
  pub output : Option ConnectorReplyOutput
  pub error : Option Text

unfoldable pub reply_err : Text → ConnectorReply
reply_err msg = record { success = false; output = none; error = some msg }

-- The status on the bus: 0 after a success, and never 0 after a failure.
unfoldable pub exit_status_of : Bool → ℤ → ℤ
unfolding int_eq
exit_status_of success status =
    if success then pos 0 else (if int_eq status (pos 0) then pos 1 else status)

abbrev pub or_empty : Option Text → Text
or_empty none = []
or_empty (some t) = t

abbrev pub is_some {ℓ} : {A : Type ℓ} → Option A → Bool
is_some none = false
is_some (some a) = true

module _ (json : Json) where
  -- A text member of an object.
  unfoldable pub text_member : json.Value → Text → Text
  text_member v name = elim (json.get v name) [ none ↦ [] | some m ↦ or_empty (json.as_str m) ]

  -- Standard output and standard error.
  unfoldable pub outputs : json.Value → Text × Text
  unfolding text_member
  outputs payload =
      if is_some (json.get payload (codes "stdout")) || is_some (json.get payload (codes "stderr"))
      then (text_member payload (codes "stdout"), text_member payload (codes "stderr"))
      else elim (json.as_str payload) [ some s ↦ (s, []) | none ↦ (json.show payload, []) ]

  unfoldable pub error_of : (ℤ → Text) → ConnectorOutput json.Value → Text → Option Text
  unfolding trim is_empty
  error_of show out stderr =
      if out.success
      then none
      else (if not (is_empty (trim stderr))
          then some stderr
          else some (
              codes "capability `"
              ++ (out.capability ++ (codes "` failed (status " ++ (show out.status ++ codes ")")))))

  unfoldable pub from_output : (ℤ → Text) → ConnectorOutput json.Value → ConnectorReply
  unfolding outputs exit_status_of error_of
  from_output show out = record {
    success = out.success;
    output = some (record {
      stdout = (outputs out.payload).0;
      stderr = (outputs out.payload).1;
      exit_status = exit_status_of out.success out.status;
    });
    error = error_of show out (outputs out.payload).1;
  }

  -- `to_value`: a member that is `none` is left out.
  unfoldable pub reply_output_value : ConnectorReplyOutput → json.Value
  reply_output_value out = json.object (
      (codes "stdout", json.string out.stdout)
      ∷ (codes "stderr", json.string out.stderr)
      ∷ (codes "exit_status", json.integer out.exit_status)
      ∷ [])

  abbrev pub optional_member :
      {A : Type 0} → Text → (A → json.Value) → Option A → List (Text × json.Value)
  optional_member name f none = []
  optional_member name f (some a) = (name, f a) ∷ []

  unfoldable pub reply_value : ConnectorReply → json.Value
  unfolding reply_output_value
  reply_value reply = json.object (
      (codes "success", json.boolean reply.success)
      ∷ (optional_member (codes "output") reply_output_value reply.output
          ++ optional_member (codes "error") (λ e. json.string e) reply.error))

  abbrev pub or_object : Option json.Value → json.Value
  or_object none = json.object []
  or_object (some v) = v
