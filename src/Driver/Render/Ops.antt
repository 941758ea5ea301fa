-- ===== src/Driver/Render/Ops.antt =====
-- The text of an operation that is rendered from a template.
use mathlib.Core.Path.{subst}
use daimon.Common.{
  ℕ, ◌≡◌, refl, inl, inr, Bool, true, false, Option, none, some, [], all, All, arith, if◌then◌else◌,
}
use daimon.Common.Text.{Text}
use daimon.Common.Result.{ok, Result-cases}
use daimon.Common.Json.{Json}
use daimon.Broker.Op.{AuthScheme, Op, shell_command, http, snmp_get, snmp_set, snmp_walk}
use daimon.Driver.Profile.{ProfileOp, http_method}
use daimon.Driver.Render.{
  Validated, substitute, render_body, render_http_op, render_ssh_op, render_snmp_op,
}
use daimon.Driver.Render.Chars.{literals, substitute-chars}

-- The command, the path or the object of an operation.
unfoldable pub op_text : {J : Type 0} → Op J → Text
op_text (shell_command command timeout_secs) = command
op_text (http method path headers body auth) = path
op_text (snmp_get oid) = oid
op_text (snmp_set oid value) = oid
op_text (snmp_walk oid) = oid

module _ (p : ℕ → Bool) (json : Json) where
  abbrev pub IsMade : Text → Type 0
  IsMade t = all p t ≡ true

  -- The text of a template outside its slots has the property.
  abbrev pub IsMadeTemplate : Text → Type 0
  IsMadeTemplate t = literals p false t ≡ true

  abbrev pub IsMadeOption : Option Text → Type 0
  IsMadeOption none = Unit
  IsMadeOption (some t) = IsMadeTemplate t

  abbrev walk_or_get : Bool → Text → Op json.Value
  walk_or_get b oid = if b then snmp_walk oid else snmp_get oid

  -- The templates of the operation are made of characters with the property.
  abbrev pub IsMadeOp : ProfileOp json.Value → Type 0
  IsMadeOp op = IsMadeTemplate op.path × (IsMadeOption op.command × IsMadeOption op.oid)

  module _ (capability : Text) (validated : Validated) (values : All (λ kv. IsMade kv.1) validated)
      (op : ProfileOp json.Value) where
    pub render_http_op-IsMade :
        (auth : AuthScheme) (out : Op json.Value)
        → IsMadeOp op
        → render_http_op json op capability validated auth ≡ ok out
        → IsMade (op_text out)
    unfolding render_http_op op_text
    render_http_op-IsMade auth out m h =
        elim (Result-cases (substitute op.path capability validated)) [
          | inr (x, e) ↦ absurd (ground (arith, h, e))
          | inl (path, e) ↦ elim (Result-cases (render_body json capability validated op.body)) [
            | inr (x, f) ↦ absurd (ground (arith, h, e, f))
            | inl (body, f) ↦
                let q : http (http_method op.method) path [] body auth ≡ out =
                  ground (arith, h, e, f) in
                subst (λ o. IsMade (op_text o)) q
                  (substitute-chars p capability validated values op.path path m.0 e)
          ]
        ]

    pub render_ssh_op-IsMade :
        (timeout_secs : ℕ) (out : Op json.Value)
        → IsMadeOp op
        → render_ssh_op json op capability validated timeout_secs ≡ ok out
        → IsMade (op_text out)
    unfolding render_ssh_op op_text
    render_ssh_op-IsMade timeout_secs out m h = from op.command refl m.1.0
      where
        from : (t : Option Text) → op.command ≡ t → IsMadeOption t → IsMade (op_text out)
        from none e k = absurd (ground (arith, h, e))
        from (some template) e k = elim (Result-cases (substitute template capability validated)) [
          | inr (x, f) ↦ absurd (ground (arith, h, e, f))
          | inl (command, f) ↦
              let q : shell_command command
                    (elim op.timeout_secs [ none ↦ timeout_secs | some t ↦ t ])
                  ≡ out =
                ground (arith, h, e, f) in
              subst (λ o. IsMade (op_text o)) q
                (substitute-chars p capability validated values template command k f)
        ]

    pub render_snmp_op-IsMade :
        (out : Op json.Value)
        → IsMadeOp op
        → render_snmp_op json op capability validated ≡ ok out
        → IsMade (op_text out)
    unfolding render_snmp_op op_text
    render_snmp_op-IsMade out m h = from op.oid refl m.1.1
      where
        walked : (b : Bool) (oid : Text) → IsMade oid → IsMade (op_text (walk_or_get b oid))
        walked true oid k = k
        walked false oid k = k

        from : (t : Option Text) → op.oid ≡ t → IsMadeOption t → IsMade (op_text out)
        from none e k = absurd (ground (arith, h, e))
        from (some template) e k = elim (Result-cases (substitute template capability validated)) [
          | inr (x, f) ↦ absurd (ground (arith, h, e, f))
          | inl (oid, f) ↦
              let q : walk_or_get op.walk oid ≡ out = ground (arith, h, e, f) in
              subst (λ o. IsMade (op_text o)) q
                (walked op.walk oid
                  (substitute-chars p capability validated values template oid k f))
        ]
