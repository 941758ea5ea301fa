-- ===== src/Driver/Render.antt =====
-- crates/daimon-driver/src/connector.rs: from the template of a declared capability and validated
-- parameters to an operation.
pub mod Substitute
pub mod Template
pub mod Chars
pub mod Ops
use daimon.Common.{
  ℕ, zero, suc, Bool, true, false, Option, none, some, List, [], ◌∷◌, ◌++◌, if◌then◌else◌, length,
}
use daimon.Common.Text.{Text, codes, split_at}
use daimon.Common.Result.{Result, ok, err, ok_or, map_err, ◌>>=◌}
use daimon.Common.Json.{Json}
use daimon.Common.Map.{lookup, text_Eq}
use daimon.Broker.Op.{AuthScheme, Op, shell_command, http, snmp_get, snmp_walk}
use daimon.Driver.Profile.{ProfileOp, http_method, ConnectorError, missing_param, bad_profile}

-- The values that passed the validation, by name.
abbrev pub Validated : Type 0
Validated = List (Text × Text)

abbrev pub Out : Type 0
Out = Result Text ConnectorError

-- The rest of the loop, `next`, after the slot that begins a text: `name` and what follows the `}`.
unfoldable pub fill : (Text → Text → Out) → Text → Validated → Text → Text × Option Text → Out
unfolding lookup
fill next capability validated out (name, none) =
    err (missing_param capability (codes "<unterminated slot>"))
fill next capability validated out (name, some after) =
    ok_or (lookup name validated) (missing_param capability name) >>= λ value.
    next (out ++ value) after

-- One turn of the loop, at the text before the next `{` and what follows it.
unfoldable pub turn : (Text → Text → Out) → Text → Validated → Text → Text × Option Text → Out
unfolding fill split_at
turn next capability validated out (before, none) = ok (out ++ before)
turn next capability validated out (before, some after) =
    fill next capability validated (out ++ before) (split_at b'}' after)

-- The loop over `rest`. Each turn but the last takes two characters at least, so that the length of
-- `rest` is fuel enough: without fuel nothing of it is left.
unfoldable pub substitute_loop : ℕ → Text → Validated → Text → Text → Out
unfolding turn split_at
substitute_loop zero capability validated out rest = ok (out ++ rest)
substitute_loop (suc fuel) capability validated out rest =
    turn (λ out' rest'. substitute_loop fuel capability validated out' rest') capability validated
      out (split_at b'{' rest)

unfoldable pub substitute : Text → Text → Validated → Out
unfolding substitute_loop
substitute template capability validated =
    substitute_loop (length template) capability validated [] template

module _ (json : Json) where
  abbrev Built : Type 0
  Built = Result json.Value ConnectorError

  -- The items of an array and the members of an object, in order, up to the first error.
  unfoldable pub all_items : List Built → Result (List json.Value) ConnectorError
  all_items [] = ok []
  all_items (v ∷ rest) = let later = all_items rest in v >>= λ x. (later >>= λ xs. ok (x ∷ xs))

  unfoldable pub all_members :
      List (Text × Built) → Result (List (Text × json.Value)) ConnectorError
  all_members [] = ok []
  all_members ((k, v) ∷ rest) =
      let later = all_members rest in v >>= λ x. (later >>= λ xs. ok ((k, x) ∷ xs))

  unfoldable pub substitute_json : json.Value → Text → Validated → Built
  unfolding substitute all_items all_members
  substitute_json value capability validated =
      json.fold (λ v. ok v) (λ s. substitute s capability validated >>= λ t. ok (json.string t))
        (λ items. all_items items >>= λ vs. ok (json.array vs))
        (λ members. all_members members >>= λ vs. ok (json.object vs)) value

  unfoldable pub render_body :
      Text → Validated → Option json.Value → Result (Option json.Value) ConnectorError
  unfolding substitute_json
  render_body capability validated none = ok none
  render_body capability validated (some v) =
      substitute_json v capability validated >>= λ b. ok (some b)

  unfoldable pub render_http_op :
      ProfileOp json.Value → Text → Validated → AuthScheme → Result (Op json.Value) ConnectorError
  unfolding substitute render_body http_method
  render_http_op op capability validated auth = substitute op.path capability validated >>= λ path.
      (render_body capability validated op.body >>= λ body.
      ok (http (http_method op.method) path [] body auth))

  unfoldable pub render_ssh_op :
      ProfileOp json.Value → Text → Validated → ℕ → Result (Op json.Value) ConnectorError
  unfolding substitute
  render_ssh_op op capability validated timeout_secs =
      ok_or op.command (
        bad_profile
          (codes "ssh capability `" ++ (capability ++ codes "` has no `command` template")))
      >>= λ template.
          (substitute template capability validated >>= λ command.
          ok (shell_command command (elim op.timeout_secs [ none ↦ timeout_secs | some t ↦ t ])))

  unfoldable pub render_snmp_op :
      ProfileOp json.Value → Text → Validated → Result (Op json.Value) ConnectorError
  unfolding substitute
  render_snmp_op op capability validated =
      ok_or op.oid
        (bad_profile (codes "snmp capability `" ++ (capability ++ codes "` has no `oid`")))
      >>= λ template.
          (substitute template capability validated >>= λ oid.
          ok (if op.walk then snmp_walk oid else snmp_get oid))
