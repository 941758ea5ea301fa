-- ===== src/Vault/Refspec.antt =====
-- crates/daimon-vault/src/refspec.rs: `vault://…`.
pub mod Printing
use daimon.Common.{
  ℕ, zero, suc, Bool, true, false, ◌&&◌, ◌||◌, Option, none, some, List, [], ◌∷◌, ◌++◌,
  if◌then◌else◌, ◌==◌, leb, length,
}
use daimon.Common.Text.{Text, codes, strip_prefix}
use daimon.Common.Result.{Result, ok, err}

pub data CredentialRef : Type 0 where
  named : Text → CredentialRef
  path : (organization collection item : Text) → CredentialRef
  uuid : Text → CredentialRef

pub data RefParseError : Type 0 where
  missing_scheme invalid_shape : RefParseError

abbrev pub scheme : Text
scheme = codes "vault://"

abbrev pub is_ascii_hexdigit : ℕ → Bool
is_ascii_hexdigit b = (leb 48 b && leb b 57) || ((leb 65 b && leb b 70) || (leb 97 b && leb b 102))

abbrev pub is_dash_place : ℕ → Bool
is_dash_place i = (i == 8) || ((i == 13) || ((i == 18) || (i == 23)))

-- The loop over the bytes from place `i` on. A character outside ASCII is refused, as its bytes are.
unfoldable pub uuid_bytes : ℕ → Text → Bool
uuid_bytes i [] = true
uuid_bytes i (b ∷ bs) =
    let rest = uuid_bytes (suc i) bs in
    if is_dash_place i then (b == b'-') && rest else is_ascii_hexdigit b && rest

unfoldable pub looks_like_uuid : Text → Bool
unfolding uuid_bytes
looks_like_uuid s = (length s == 36) && uuid_bytes 0 s

-- `split(ch)`: there is always a first part.
unfoldable pub push : ℕ → List Text → List Text
push c [] = (c ∷ []) ∷ []
push c (p ∷ ps) = (c ∷ p) ∷ ps

unfoldable pub split : ℕ → Text → List Text
unfolding push
split sep [] = [] ∷ []
split sep (c ∷ s) = let rest = split sep s in if c == sep then [] ∷ rest else push c rest

abbrev pub is_empty : Text → Bool
is_empty [] = true
is_empty (c ∷ s) = false

-- The three arms of the match on the parts.
unfoldable pub parse_parts : List Text → Result CredentialRef RefParseError
unfolding looks_like_uuid
parse_parts [] = err invalid_shape
parse_parts (single ∷ []) =
    if is_empty single
    then err invalid_shape
    else if looks_like_uuid single
    then ok (uuid single)
    else ok (named single)
parse_parts (org ∷ coll ∷ []) = err invalid_shape
parse_parts (org ∷ coll ∷ item ∷ []) =
    if is_empty org || (is_empty coll || is_empty item)
    then err invalid_shape
    else ok (path org coll item)
parse_parts (org ∷ coll ∷ item ∷ more ∷ rest) = err invalid_shape

unfoldable pub parse_rest : Option Text → Result CredentialRef RefParseError
unfolding parse_parts split
parse_rest none = err missing_scheme
parse_rest (some rest) = parse_parts (split b'/' rest)

unfoldable pub parse : Text → Result CredentialRef RefParseError
unfolding strip_prefix parse_rest
parse s = parse_rest (strip_prefix s scheme)

-- The name under which the vault in the tree looks the reference up.
unfoldable pub name : CredentialRef → Option Text
name (named n) = some n
name (path organization collection item) = some item
name (uuid id) = none

-- `Display`.
unfoldable pub to_string : CredentialRef → Text
to_string (named n) = scheme ++ n
to_string (path organization collection item) =
    scheme ++ (organization ++ (b'/' ∷ (collection ++ (b'/' ∷ item))))
to_string (uuid id) = scheme ++ id
