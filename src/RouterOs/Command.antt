-- ===== src/RouterOs/Command.antt =====
-- `build_command`, from a capability and its parameters to a line of the RouterOS console.
pub mod Plain
pub mod Inverse
use daimon.Common.{Option, none, some, List, [], ◌∷◌, ◌++◌, if◌then◌else◌}
use daimon.Common.Text.{Text, codes, text_eq}
use daimon.Common.Result.{Result, ok, err, ok_or, map_err, ◌>>=◌}
use daimon.Common.Json.{Json}
use daimon.Driver.Param.{ParamClass, safe_text, cidr, identifier, int, ParamError, validate}

-- `B` is the broker's error.
pub data RouterOsError (B : Type 0) : Type 0 where
  unknown_capability missing_param bad_target wrong_op_result : Text → RouterOsError B
  param : ParamError → RouterOsError B
  broker : B → RouterOsError B

module _ (json : Json) where
  -- `p.get(name).and_then(|v| v.as_str())`.
  unfoldable pub text_param : json.Value → Text → Option Text
  text_param p name = elim (json.get p name) [ none ↦ none | some v ↦ json.as_str v ]

module _ {B : Type 0} where
  -- `param::validate(value, class)?`.
  unfoldable pub check : Text → ParamClass → Result (Unit {0}) (RouterOsError B)
  unfolding validate
  check value class = map_err (validate value class) (λ e. param e)

  -- The block `if let Some(v) = .. { validate; push_str }`, with the text before and after `v`.
  unfoldable pub push_option :
      Option Text → ParamClass → Text → Text → Text → Result Text (RouterOsError B)
  unfolding check
  push_option none class before after cmd = ok cmd
  push_option (some v) class before after cmd =
      check v class >>= λ u. ok (cmd ++ (before ++ (v ++ after)))

module _ {B : Type 0} (json : Json) where
  -- `params.ok_or_else(..)?`.
  unfoldable pub required_params : Text → Option json.Value → Result json.Value (RouterOsError B)
  required_params capability params =
      ok_or params (missing_param (capability ++ codes " requires params"))

  -- A parameter that must be there.
  unfoldable pub required : Text → json.Value → Text → Result Text (RouterOsError B)
  unfolding text_param
  required capability p name =
      ok_or (text_param json p name)
        (missing_param (capability ++ (codes "." ++ (name ++ codes " is required"))))

  -- The three optional parameters of `add_drop_rule`.
  unfoldable pub push_options : json.Value → Text → Result Text (RouterOsError B)
  unfolding push_option text_param
  push_options p cmd =
      push_option (text_param json p (codes "src_address")) cidr (codes " src-address=") [] cmd
      >>= λ cmd1.
          (push_option (text_param json p (codes "in_interface")) identifier
              (codes " in-interface=") [] cmd1
            >>= λ cmd2.
                push_option (text_param json p (codes "comment")) safe_text (codes " comment=\"")
                  (codes "\"") cmd2)

  unfoldable pub add_drop_rule : json.Value → Result Text (RouterOsError B)
  unfolding required check push_options
  add_drop_rule p = required (codes "firewall_add_drop_rule") p (codes "dst_address") >>= λ dst.
      (check dst cidr >>= λ u.
      push_options p
        (codes "/ip firewall filter add chain=forward action=drop dst-address=" ++ dst))

  unfoldable pub remove_rule : json.Value → Result Text (RouterOsError B)
  unfolding required check
  remove_rule p = required (codes "firewall_remove_rule") p (codes "match") >>= λ m.
      (check m identifier >>= λ u.
      ok (codes "/ip firewall filter remove [find " ++ (m ++ codes "]")))

  unfoldable pub key_import : json.Value → Result Text (RouterOsError B)
  unfolding required check
  key_import p = required (codes "user_ssh_key_import") p (codes "user") >>= λ user.
      (required (codes "user_ssh_key_import") p (codes "file") >>= λ file.
      (check user identifier >>= λ u1.
      (check file safe_text >>= λ u2.
      ok (codes "/user ssh-keys import user=" ++ (user ++ (codes " public-key-file=" ++ file))))))

  unfoldable pub key_remove : json.Value → Result Text (RouterOsError B)
  unfolding required check
  key_remove p = required (codes "user_ssh_key_remove") p (codes "number") >>= λ n.
      (check n int >>= λ u. ok (codes "/user ssh-keys remove " ++ n))

  unfoldable pub build_command : Text → Option json.Value → Result Text (RouterOsError B)
  unfolding text_eq required_params add_drop_rule remove_rule key_import key_remove
  build_command capability params =
      if text_eq capability (codes "network.routeros.system_info")
      then ok (codes "/system identity print")
      else (if text_eq capability (codes "network.routeros.interface_list")
          then ok (codes "/interface print")
          else (if text_eq capability (codes "network.routeros.ip_addresses")
              then ok (codes "/ip address print")
              else (if text_eq capability (codes "network.routeros.firewall_filter_list")
                  then ok (codes "/ip firewall filter print")
                  else (if text_eq capability (codes "network.routeros.firewall_add_drop_rule")
                      then required_params (codes "firewall_add_drop_rule") params >>= add_drop_rule
                      else (if text_eq capability (codes "network.routeros.firewall_remove_rule")
                          then required_params (codes "firewall_remove_rule") params >>= remove_rule
                          else (if text_eq capability (codes "network.routeros.user_ssh_key_import")
                              then required_params (codes "user_ssh_key_import") params
                                >>= key_import
                              else (if text_eq capability
                                    (codes "network.routeros.user_ssh_key_remove")
                                  then required_params (codes "user_ssh_key_remove") params
                                    >>= key_remove
                                  else err (unknown_capability capability))))))))
