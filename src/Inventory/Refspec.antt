-- ===== src/Inventory/Refspec.antt =====
-- crates/daimon-inventory/src/refspec.rs: `target://<name>`.
pub mod RoundTrip
use daimon.Common.{ℕ, Bool, true, false, Option, none, some, List, [], ◌∷◌, ◌++◌, if◌then◌else◌}
use daimon.Common.Text.{Text, codes, strip_prefix, contains_char, text_eq}
use daimon.Common.Result.{Result, ok, err}

pub record TargetRef : Type 0 where
  pub name : Text

pub data RefParseError : Type 0 where
  missing_scheme empty_name invalid_shape : RefParseError

abbrev pub scheme : Text
scheme = codes "target://"

unfoldable pub parse_name : Text → Result TargetRef RefParseError
unfolding contains_char
parse_name [] = err empty_name
parse_name (c ∷ rest) =
    if contains_char (c ∷ rest) b'/' then err invalid_shape else ok (record { name = c ∷ rest })

abbrev parse_rest : Option Text → Result TargetRef RefParseError
parse_rest none = err missing_scheme
parse_rest (some rest) = parse_name rest

unfoldable pub parse : Text → Result TargetRef RefParseError
unfolding strip_prefix parse_name
parse s = parse_rest (strip_prefix s scheme)

-- `Display`.
unfoldable pub to_string : TargetRef → Text
to_string r = scheme ++ r.name

-- `PartialEq`.
unfoldable pub ref_eq : TargetRef → TargetRef → Bool
unfolding text_eq
ref_eq r r' = text_eq r.name r'.name
