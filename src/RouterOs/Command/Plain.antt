-- ===== src/RouterOs/Command/Plain.antt =====
-- What a built command can hold.
use daimon.Common.{
  ℕ, ◌≡◌, refl, inl, inr, Bool, true, false, ◌||◌, Option, none, some, [], ◌∷◌, ◌++◌, if◌then◌else◌,
  all, &&-elim, &&-intro, arith,
}
use mathlib.Core.Path.{subst}
use daimon.Common.Text.{Text, codes, text_eq, contains_char}
use daimon.Common.Result.{Result, ok, err, Result-cases, bind_ok, ◌>>=◌}
use daimon.Common.Json.{Json}
use daimon.Driver.Param.{ParamClass, safe_text, cidr, identifier, int, validate}
use daimon.Driver.Param.Inert.{plain_char, is_plain, validate-plain, all_weaken}
use daimon.RouterOs.Command.{
  RouterOsError, unknown_capability, text_param, required_params, required, check, push_options,
  push_option, add_drop_rule, remove_rule, key_import, key_remove, build_command,
}

-- The characters of a parameter, and those that the templates of the commands add.
unfoldable pub command_char : ℕ → Bool
unfolding plain_char contains_char
command_char c = plain_char c || contains_char (codes "=\"[]") c

abbrev pub IsCommand : Text → Type 0
IsCommand t = all command_char t ≡ true

plain_command : (c : ℕ) → plain_char c ≡ true → command_char c ≡ true
unfolding command_char
plain_command c h = rw h refl

all-append : (p : ℕ → Bool) (s t : Text) → all p s ≡ true → all p t ≡ true → all p (s ++ t) ≡ true
all-append p [] t h k = k
all-append p (c ∷ s) t h k = &&-intro _ _ (&&-elim _ _ h).0 (all-append p s t (&&-elim _ _ h).1 k)

lit_append : (s t : Text) → IsCommand s → IsCommand t → IsCommand (s ++ t)
lit_append s t h k = all-append command_char s t h k

module _ {B : Type 0} where
  check_plain :
      (v : Text) (class : ParamClass) (u : Unit {0})
      → is_plain class ≡ true
      → check {B = B} v class ≡ ok u
      → IsCommand v
  unfolding check
  check_plain v class u p h = elim (Result-cases (validate v class)) [
    | inl (u', e) ↦ all_weaken _ _ plain_command v (validate-plain v class p e)
    | inr (x, e) ↦ absurd (ground (arith, h, e))
  ]

  push_option_plain :
      (o : Option Text) (class : ParamClass) (before after cmd out : Text)
      → is_plain class ≡ true
      → IsCommand before
      → IsCommand after
      → IsCommand cmd
      → push_option {B = B} o class before after cmd ≡ ok out
      → IsCommand out
  unfolding push_option
  push_option_plain none class before after cmd out p b a c h =
      let q : cmd ≡ out = ground (arith, h) in subst IsCommand q c
  push_option_plain (some v) class before after cmd out p b a c h =
      let (u, e, k) = bind_ok (check v class) (λ u. ok (cmd ++ (before ++ (v ++ after)))) out h in
      let q : cmd ++ (before ++ (v ++ after)) ≡ out = ground (arith, k) in
      subst IsCommand q (
        lit_append cmd _ c
          (lit_append before _ b (lit_append v after (check_plain v class u p e) a)))

module _ {B : Type 0} (json : Json) where
  push_options_plain :
      (p : json.Value) (cmd out : Text)
      → IsCommand cmd
      → push_options {B = B} json p cmd ≡ ok out
      → IsCommand out
  unfolding push_options command_char is_plain
  push_options_plain p cmd out c h =
      elim (Result-cases (
        push_option {B = B} (text_param json p (codes "src_address")) cidr (codes " src-address=")
          [] cmd)) [
            | inr (x, e) ↦ absurd (ground (arith, h, e))
            | inl (cmd1, e) ↦
                let c1 = push_option_plain _ cidr _ _ cmd cmd1 refl refl refl c e in
                elim (Result-cases (
                  push_option {B = B} (text_param json p (codes "in_interface")) identifier
                    (codes " in-interface=") [] cmd1)) [
                      | inr (x, f) ↦ absurd (ground (arith, h, e, f))
                      | inl (cmd2, f) ↦
                          push_option_plain {B = B} (text_param json p (codes "comment")) safe_text
                            (codes " comment=\"") (codes "\"") cmd2 out refl refl refl
                            (push_option_plain _ identifier _ _ cmd1 cmd2 refl refl refl c1 f)
                            (ground (arith, h, e, f))
                    ]
          ]

  add_drop_rule_plain :
      (p : json.Value) (out : Text) → add_drop_rule {B = B} json p ≡ ok out → IsCommand out
  unfolding add_drop_rule command_char is_plain
  add_drop_rule_plain p out h =
      elim (Result-cases
        (required {B = B} json (codes "firewall_add_drop_rule") p (codes "dst_address"))) [
          | inr (x, e) ↦ absurd (ground (arith, h, e))
          | inl (dst, e) ↦ elim (Result-cases (check {B = B} dst cidr)) [
            | inr (x, f) ↦ absurd (ground (arith, h, e, f))
            | inl (u, f) ↦
                push_options_plain p
                  (codes "/ip firewall filter add chain=forward action=drop dst-address=" ++ dst)
                  out (check_plain dst cidr u refl f) (ground (arith, h, e, f))
          ]
        ]

  remove_rule_plain :
      (p : json.Value) (out : Text) → remove_rule {B = B} json p ≡ ok out → IsCommand out
  unfolding remove_rule command_char is_plain
  remove_rule_plain p out h =
      elim (Result-cases (required {B = B} json (codes "firewall_remove_rule") p (codes "match"))) [
        | inr (x, e) ↦ absurd (ground (arith, h, e))
        | inl (m, e) ↦ elim (Result-cases (check {B = B} m identifier)) [
          | inr (x, f) ↦ absurd (ground (arith, h, e, f))
          | inl (u, f) ↦
              let q : codes "/ip firewall filter remove [find " ++ (m ++ codes "]") ≡ out =
                ground (arith, h, e, f) in
              subst IsCommand q (lit_append m (codes "]") (check_plain m identifier u refl f) refl)
        ]
      ]

  key_import_plain :
      (p : json.Value) (out : Text) → key_import {B = B} json p ≡ ok out → IsCommand out
  unfolding key_import command_char is_plain
  key_import_plain p out h =
      elim (Result-cases (required {B = B} json (codes "user_ssh_key_import") p (codes "user"))) [
        | inr (x, e) ↦ absurd (ground (arith, h, e))
        | inl (user, e) ↦
            elim (Result-cases
              (required {B = B} json (codes "user_ssh_key_import") p (codes "file"))) [
                | inr (x, f) ↦ absurd (ground (arith, h, e, f))
                | inl (file, f) ↦ elim (Result-cases (check {B = B} user identifier)) [
                  | inr (x, g) ↦ absurd (ground (arith, h, e, f, g))
                  | inl (u, g) ↦ elim (Result-cases (check {B = B} file safe_text)) [
                    | inr (x, k) ↦ absurd (ground (arith, h, e, f, g, k))
                    | inl (v, k) ↦
                        let q : codes "/user ssh-keys import user="
                              ++ (user ++ (codes " public-key-file=" ++ file))
                            ≡ out =
                          ground (arith, h, e, f, g, k) in
                        subst IsCommand q (
                          lit_append user (codes " public-key-file=" ++ file)
                            (check_plain user identifier u refl g)
                            (check_plain file safe_text v refl k))
                  ]
                ]
              ]
      ]

  key_remove_plain :
      (p : json.Value) (out : Text) → key_remove {B = B} json p ≡ ok out → IsCommand out
  unfolding key_remove command_char is_plain
  key_remove_plain p out h =
      elim (Result-cases (required {B = B} json (codes "user_ssh_key_remove") p (codes "number"))) [
        | inr (x, e) ↦ absurd (ground (arith, h, e))
        | inl (n, e) ↦ elim (Result-cases (check {B = B} n int)) [
          | inr (x, f) ↦ absurd (ground (arith, h, e, f))
          | inl (u, f) ↦
              let q : codes "/user ssh-keys remove " ++ n ≡ out = ground (arith, h, e, f) in
              subst IsCommand q (check_plain n int u refl f)
        ]
      ]

  with_params_plain :
      (capability : Text) (params : Option json.Value)
      (f : json.Value → Result Text (RouterOsError B)) (out : Text)
      → ((p : json.Value) → f p ≡ ok out → IsCommand out)
      → (required_params json capability params >>= f) ≡ ok out
      → IsCommand out
  unfolding required_params
  with_params_plain capability none f out k h = absurd (ground (arith, h))
  with_params_plain capability (some p) f out k h = k p h

  -- One case of the match on the capability.
  either-IsCommand :
      (b : Bool) (r s : Result Text (RouterOsError B)) (out : Text)
      → (r ≡ ok out → IsCommand out)
      → (s ≡ ok out → IsCommand out)
      → (if b then r else s) ≡ ok out
      → IsCommand out
  either-IsCommand true r s out f g h = f h
  either-IsCommand false r s out f g h = g h

  abbrev done : Text → Result Text (RouterOsError B)
  done cmd = ok cmd

  fixed-IsCommand : (cmd out : Text) → IsCommand cmd → done cmd ≡ ok out → IsCommand out
  fixed-IsCommand cmd out c h = let q : cmd ≡ out = ground (arith, h) in subst IsCommand q c

  abbrev fails : RouterOsError B → Result Text (RouterOsError B)
  fails e = err e

  no-IsCommand : (e : RouterOsError B) (out : Text) → fails e ≡ ok out → IsCommand out
  no-IsCommand e out h = absurd (ground (arith, h))

  -- A command that `build_command` builds from any parameters consists of letters, digits and
  -- ` ./-_:!@+="[]` alone: no line break, semicolon, brace, dollar or back quote is among them.
  pub build_command-plain :
      (capability : Text) (params : Option json.Value) (cmd : Text)
      → build_command {B = B} json capability params ≡ ok cmd
      → all command_char cmd ≡ true
  unfolding build_command command_char
  build_command-plain capability params cmd =
      either-IsCommand (text_eq capability (codes "network.routeros.system_info")) _ _ cmd
        (fixed-IsCommand (codes "/system identity print") cmd refl)
        (either-IsCommand (text_eq capability (codes "network.routeros.interface_list")) _ _ cmd
          (fixed-IsCommand (codes "/interface print") cmd refl)
          (either-IsCommand (text_eq capability (codes "network.routeros.ip_addresses")) _ _ cmd
            (fixed-IsCommand (codes "/ip address print") cmd refl)
            (either-IsCommand (text_eq capability (codes "network.routeros.firewall_filter_list")) _
              _ cmd (fixed-IsCommand (codes "/ip firewall filter print") cmd refl)
              (either-IsCommand
                (text_eq capability (codes "network.routeros.firewall_add_drop_rule")) _ _ cmd
                (with_params_plain (codes "firewall_add_drop_rule") params (add_drop_rule json) cmd
                  (λ p. add_drop_rule_plain p cmd))
                (either-IsCommand
                  (text_eq capability (codes "network.routeros.firewall_remove_rule")) _ _ cmd
                  (with_params_plain (codes "firewall_remove_rule") params (remove_rule json) cmd
                    (λ p. remove_rule_plain p cmd))
                  (either-IsCommand
                    (text_eq capability (codes "network.routeros.user_ssh_key_import")) _ _ cmd
                    (with_params_plain (codes "user_ssh_key_import") params (key_import json) cmd
                      (λ p. key_import_plain p cmd))
                    (either-IsCommand
                      (text_eq capability (codes "network.routeros.user_ssh_key_remove")) _ _ cmd
                      (with_params_plain (codes "user_ssh_key_remove") params (key_remove json) cmd
                        (λ p. key_remove_plain p cmd))
                      (no-IsCommand (unknown_capability capability) cmd))))))))
