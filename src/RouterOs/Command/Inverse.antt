-- ===== src/RouterOs/Command/Inverse.antt =====
-- The commands that the orchestrator asks for when it rolls a step back.
use mathlib.Core.Path.{subst}
use daimon.Common.{
  ℕ, sym, In, Bool, [], ◌∷◌, ◌≡◌, refl, ap, ◌∙◌, inl, inr, true, false, Option, none, some, ◌++◌,
  Bool-cases, Option-cases, arith,
}
use daimon.Common.Text.{Text, codes, text_eq, contains_char, is_alphanumeric}
use daimon.Common.Result.{Result-cases, ok, err, map_err, ◌>>=◌}
use daimon.Common.Json.{Json, Semver}
use daimon.Driver.Param.{
  ParamClass, ParamError, safe_text, cidr, identifier, identifier_char, check_chars, check_class,
  validate,
}
use daimon.Orchestrator.Dispatch.{compensation_params}
use daimon.RouterOs.Command.{
  RouterOsError, missing_param, param, text_param, required_params, required, check, push_option,
  push_options, add_drop_rule, remove_rule, key_remove, build_command,
}

check_chars-In :
    (allowed : ℕ → Bool) (class value s : Text) (c : ℕ)
    → check_chars allowed class value s ≡ ok tt
    → In c s
    → allowed c ≡ true
unfolding check_chars
check_chars-In allowed class value [] c h i = elim i [ ]
check_chars-In allowed class value (d ∷ s) c h i = elim (Bool-cases (allowed d)) [
  | inr e ↦ absurd (ground (arith, h, e))
  | inl e ↦ elim i [
    | inl q ↦ subst (λ x. allowed x ≡ true) (sym q) e
    | inr j ↦ check_chars-In allowed class value s c (ground (arith, h, e)) j
  ]
]

-- An identifier has no space.
identifier-no_space : (s : Text) → validate s identifier ≡ ok tt → In b' ' s → ⊥
unfolding validate check_class identifier_char is_alphanumeric contains_char
identifier-no_space [] h i = elim i [ ]
identifier-no_space (c ∷ s) h i =
    let k : identifier_char b' ' ≡ true =
      check_chars-In identifier_char (codes "Identifier") (c ∷ s) (c ∷ s) b' ' h i in
    absurd (ground (arith, k))

check-validated :
    {B : Type 0} (v : Text) (class : ParamClass) (u : Unit {0})
    → check {B = B} v class ≡ ok u
    → validate v class ≡ ok tt
unfolding check
check-validated v class u h = elim (Result-cases (validate v class)) [
  | inl (w, e) ↦ e
  | inr (x, e) ↦ absurd (ground (arith, h, e))
]

module _ {B : Type 0} (json : Json) where
  push_options-comment :
      (p : json.Value) (cmd out comment : Text)
      → text_param json p (codes "comment") ≡ some comment
      → push_options {B = B} json p cmd ≡ ok out
      → validate comment safe_text ≡ ok tt
  unfolding push_options push_option
  push_options-comment p cmd out comment t h =
      elim (Result-cases (
        push_option {B = B} (text_param json p (codes "src_address")) cidr (codes " src-address=")
          [] cmd)) [
            | inr (x, e) ↦ absurd (ground (arith, h, e))
            | inl (cmd1, e) ↦
                elim (Result-cases (
                  push_option {B = B} (text_param json p (codes "in_interface")) identifier
                    (codes " in-interface=") [] cmd1)) [
                      | inr (x, f) ↦ absurd (ground (arith, h, e, f))
                      | inl (cmd2, f) ↦ elim (Result-cases (check {B = B} comment safe_text)) [
                        | inl (u, g) ↦ check-validated comment safe_text u g
                        | inr (x, g) ↦ absurd (refused cmd2 x g (ground (arith, h, e, f)))
                      ]
                    ]
          ]
    where
      refused :
          (cmd2 : Text) (x : RouterOsError B)
          → check {B = B} comment safe_text ≡ err x
          → push_option {B = B}
              (text_param json p (codes "comment"))
              safe_text
              (codes " comment=\"")
              (codes "\"")
              cmd2
            ≡ ok out
          → ⊥
      refused cmd2 x g k =
          let m : push_option {B = B} (some comment) safe_text (codes " comment=\"") (codes "\"")
                cmd2
              ≡ ok out =
            rw t at k in
          unfold push_option in ground (arith, m, g)

  add_drop_rule-comment :
      (p : json.Value) (out comment : Text)
      → text_param json p (codes "comment") ≡ some comment
      → build_command {B = B} json (codes "network.routeros.firewall_add_drop_rule") (some p)
        ≡ ok out
      → validate comment safe_text ≡ ok tt
  unfolding build_command text_eq required_params add_drop_rule
  add_drop_rule-comment p out comment t h =
      elim (Result-cases
        (required {B = B} json (codes "firewall_add_drop_rule") p (codes "dst_address"))) [
          | inr (x, e) ↦ absurd (ground (arith, h, e))
          | inl (dst, e) ↦ elim (Result-cases (check {B = B} dst cidr)) [
            | inr (x, f) ↦ absurd (ground (arith, h, e, f))
            | inl (u, f) ↦
                push_options-comment p
                  (codes "/ip firewall filter add chain=forward action=drop dst-address=" ++ dst)
                  out comment t (ground (arith, h, e, f))
          ]
        ]

module _ (json : Json) (semver : Semver) where
  -- What a member other than the new one is after an insertion.
  get-insert_other :
      (k j : Text) (x v : json.Value)
      → text_eq k j ≡ false
      → json.get (json.insert k x v) j ≡ json.get v j
  get-insert_other k j x v h = elim (Bool-cases (json.is_object v)) [
    | inl o ↦ json.get-insert k j x v o ∙ rw h refl
    | inr o ↦ ap (λ y. json.get y j) (json.insert-other k x v o)
  ]

  get-compensation_params :
      (p : json.Value) (j : Text)
      → text_eq (codes "match") j ≡ false
      → json.get (compensation_params json semver p) j ≡ json.get p j
  unfolding compensation_params
  get-compensation_params p j h = elim (Option-cases (json.get p (codes "match"))) [
    | inr (m, e) ↦ rw (compensation_params, e) refl
    | inl e ↦ elim (Option-cases (json.get p (codes "comment"))) [
      | inl f ↦ rw (compensation_params, e, f) refl
      | inr (v, f) ↦ elim (Option-cases (json.as_str v)) [
        | inl g ↦ rw (compensation_params, e, f, g) refl
        | inr (c, g) ↦
            rw (compensation_params, e, f, g)
              (get-insert_other (codes "match") j (json.string c) p h)
      ]
    ]
  ]

  text_param-get :
      (v w : json.Value) (j : Text)
      → json.get v j ≡ json.get w j
      → text_param json v j ≡ text_param json w j
  unfolding text_param
  text_param-get v w j h = ap (λ o. elim o [ none ↦ none | some x ↦ json.as_str x ]) h

  -- The compensator of a key import asks for a row number. What the orchestrator sends it has one
  -- only when the parameters of the import already had: otherwise no command is built.
  pub build_command-key_remove :
      {B : Type 0} (p : json.Value)
      → text_param json p (codes "number") ≡ none
      → build_command {B = B} json
          (codes "network.routeros.user_ssh_key_remove")
          (some (compensation_params json semver p))
        ≡ err (missing_param (codes "user_ssh_key_remove.number is required"))
  unfolding build_command required_params key_remove required text_eq
  build_command-key_remove p h =
      let q : text_param json (compensation_params json semver p) (codes "number") ≡ none =
        text_param-get _ p (codes "number") (get-compensation_params p (codes "number") refl) ∙ h in
      rw (key_remove, required, q) refl

  build_command-remove_match :
      {B : Type 0} (p : json.Value) (comment : Text)
      → json.is_object p ≡ true
      → json.get p (codes "match") ≡ none
      → text_param json p (codes "comment") ≡ some comment
      → build_command {B = B} json
          (codes "network.routeros.firewall_remove_rule")
          (some (compensation_params json semver p))
        ≡ (map_err (validate comment identifier) (λ e. param e) >>= λ u.
            ok (codes "/ip firewall filter remove [find " ++ (comment ++ codes "]")))
  unfolding build_command required_params remove_rule required text_eq check
  build_command-remove_match p comment o n h =
      let q : text_param json (compensation_params json semver p) (codes "match") ≡ some comment =
        sent (json.get p (codes "comment")) refl h in
      rw (remove_rule, required, q) refl
    where
      sent :
          (c : Option json.Value)
          → json.get p (codes "comment") ≡ c
          → text_param json p (codes "comment") ≡ some comment
          → text_param json (compensation_params json semver p) (codes "match") ≡ some comment
      sent none e k = absurd (unfold text_param in ground (arith, k, e))
      sent (some v) e k =
          let s : json.as_str v ≡ some comment = unfold text_param in ground (arith, k, e) in
          let c : compensation_params json semver p
              ≡ json.insert (codes "match") (json.string comment) p =
            unfold compensation_params in rw (compensation_params, n, e, s) refl in
          let g : json.get (compensation_params json semver p) (codes "match")
              ≡ some (json.string comment) =
            ap (λ y. json.get y (codes "match")) c
            ∙ json.get-insert (codes "match") (codes "match") (json.string comment) p o in
          unfold text_param in rw (text_param, g) (json.as_str-string comment)

  -- A rule added with a comment that has a space cannot be taken back. If its parameters, an object
  -- without `match`, make a command, then the comment is `SafeText`; but what the orchestrator sends
  -- to the compensator makes no command, as it gives the comment as `match`, which must be an
  -- identifier.
  pub build_command-remove_rule :
      {B : Type 0} (p : json.Value) (comment cmd : Text)
      → json.is_object p ≡ true
      → json.get p (codes "match") ≡ none
      → text_param json p (codes "comment") ≡ some comment
      → In b' ' comment
      → build_command {B = B} json (codes "network.routeros.firewall_add_drop_rule") (some p)
        ≡ ok cmd
      → (validate comment safe_text ≡ ok tt)
        × ((e : ParamError) × (build_command {B = B} json
                (codes "network.routeros.firewall_remove_rule")
                (some (compensation_params json semver p))
              ≡ err (param e)))
  build_command-remove_rule p comment cmd o n t i h =
      let m = build_command-remove_match p comment o n t in
      (
        add_drop_rule-comment json p cmd comment t h,
        elim (Result-cases (validate comment identifier)) [
          | inl (u, e) ↦ absurd (identifier-no_space comment e i)
          | inr (x, e) ↦ (x, m ∙ rw e refl)
        ],
      )
