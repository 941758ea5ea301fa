-- ===== src/Driver/Param.antt =====
-- crates/daimon-driver/src/param.rs: the character class that a parameter must satisfy before it is
-- put into an operation.
pub mod Inert
use daimon.Common.{
  ℕ, Bool, true, false, ◌||◌, ◌^◌, ◌-◌, Option, none, some, List, [], ◌∷◌, if◌then◌else◌, ◌==◌, leb,
  any,
}
use daimon.Common.Text.{
  Text, codes, text_eq, contains_char, split_at, is_alphanumeric, is_hexdigit, decimal,
}
use daimon.Common.Integer.{ℤ, pos, neg}
use daimon.Common.Result.{Result, ok, err, ◌>>=◌}

pub data ParamClass : Type 0 where
  safe_text cidr identifier int : ParamClass
  enum : List Text → ParamClass

pub data ParamError : Type 0 where
  empty : ParamError
  disallowed_char : (ch : ℕ) → (class value : Text) → ParamError
  malformed : (value class : Text) → ParamError
  not_in_enum : (value : Text) → (allowed : List Text) → ParamError

unfoldable pub safe_text_char : ℕ → Bool
unfolding is_alphanumeric contains_char
safe_text_char c = is_alphanumeric c || contains_char (codes " ./-_:!@") c

unfoldable pub cidr_char : ℕ → Bool
unfolding is_hexdigit contains_char
cidr_char c = is_hexdigit c || contains_char (codes ".:/") c

unfoldable pub identifier_char : ℕ → Bool
unfolding is_alphanumeric contains_char
identifier_char c = is_alphanumeric c || contains_char (codes "_-") c

-- The loop over `value.chars()`.
unfoldable pub check_chars : (ℕ → Bool) → Text → Text → Text → Result (Unit {0}) ParamError
check_chars allowed class value [] = ok tt
check_chars allowed class value (c ∷ rest) =
    let later = check_chars allowed class value rest in
    if allowed c then later else err (disallowed_char c class value)

-- The test for an empty value, then the loop.
unfoldable pub check_class : (ℕ → Bool) → Text → Text → Result (Unit {0}) ParamError
unfolding check_chars
check_class allowed class [] = err empty
check_class allowed class (c ∷ s) = check_chars allowed class (c ∷ s) (c ∷ s)

-- `parse::<u8>()` and `parse::<i64>()`: a numeral in range; `+` may stand before it, and `-` before a
-- signed one.
unfoldable pub up_to : ℕ → Option ℕ → Option ℕ
up_to bound none = none
up_to bound (some n) = if leb n bound then some n else none

unfoldable pub parse_u8 : Text → Option ℕ
unfolding decimal up_to
parse_u8 [] = none
parse_u8 (c ∷ s) = up_to 255 (if c == b'+' then decimal s else decimal (c ∷ s))

unfoldable pub as_pos : Option ℕ → Option ℤ
as_pos none = none
as_pos (some n) = some (pos n)

unfoldable pub as_neg : Option ℕ → Option ℤ
unfolding neg
as_neg none = none
as_neg (some n) = some (neg n)

unfoldable pub parse_i64 : Text → Option ℤ
unfolding decimal up_to as_pos as_neg
parse_i64 [] = none
parse_i64 (c ∷ s) =
    if c == b'-'
    then as_neg (up_to (2 ^ 63) (decimal s))
    else as_pos (up_to (2 ^ 63 - 1) (if c == b'+' then decimal s else decimal (c ∷ s)))

-- The prefix length, when there is a `/`.
unfoldable pub check_prefix : Text → Option Text → Result (Unit {0}) ParamError
unfolding parse_u8 up_to
check_prefix value none = ok tt
check_prefix value (some prefix) = elim (up_to 128 (parse_u8 prefix)) [
  | none ↦ err (malformed value (codes "Cidr"))
  | some p ↦ ok tt
]

-- What stands before and after the first `/`.
unfoldable pub check_cidr : Text → Text × Option Text → Result (Unit {0}) ParamError
unfolding check_prefix
check_cidr value ([], prefix) = err (malformed value (codes "Cidr"))
check_cidr value (c ∷ addr, prefix) = check_prefix value prefix

unfoldable pub validate : Text → ParamClass → Result (Unit {0}) ParamError
unfolding check_class check_cidr split_at parse_i64 text_eq
validate value safe_text = check_class safe_text_char (codes "SafeText") value
validate value cidr =
    check_class cidr_char (codes "Cidr") value >>= λ u. check_cidr value (split_at b'/' value)
validate value identifier = check_class identifier_char (codes "Identifier") value
validate value int = elim (parse_i64 value) [
  | none ↦ err (malformed value (codes "Int"))
  | some i ↦ ok tt
]
validate value (enum allowed) =
    if any (λ a. text_eq a value) allowed then ok tt else err (not_in_enum value allowed)
