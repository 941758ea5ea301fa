-- ===== src/Common/Json.antt =====
-- `serde_json::Value` and `semver`, which are not part of the repository: interfaces with the
-- operations that the program calls and the documented behaviour that proofs rely on.
use mathlib.Core.Path.{◌≡◌}
use mathlib.Core.Bool.{Bool, true, false}
use mathlib.Core.List.{List, [], ◌∷◌}
use mathlib.Core.Option.{Option, none, some}
use Prim.Native.Nat.{ℕ}
use daimon.Common.Tests.{if◌then◌else◌}
use daimon.Common.Text.{Text, text_eq}
use daimon.Common.Result.{Result}
use daimon.Common.Integer.{ℤ}

-- The value of a key among fields, the last one where a key is repeated.
unfoldable pub last_value {ℓ} : {A : Type ℓ} → Text → List (Text × A) → Option A
unfolding text_eq
last_value k [] = none
last_value k ((j, v) ∷ rest) = elim (last_value k rest) [
  | some w ↦ some w
  | none ↦ if text_eq j k then some v else none
]

-- `insert` is `as_object_mut` followed by `Map::insert`, and leaves a value that is no object alone.
-- `number` is a `u64` and `integer` an `i64` as JSON, `number_text` the `Display` of a number, and
-- `show` is `serde_json::to_string`. `fold` is a match on the value and on those in it: its cases are
-- any other value, a string, an array, and an object.
pub record Json : Type 1 where
  pub Value : Type 0
  pub null : Value
  pub string : Text → Value
  pub number : ℕ → Value
  pub integer : ℤ → Value
  pub boolean : Bool → Value
  pub array : List Value → Value
  pub object : List (Text × Value) → Value
  pub get : Value → Text → Option Value
  pub as_str : Value → Option Text
  pub as_bool : Value → Option Bool
  pub as_u64 : Value → Option ℕ
  pub is_object : Value → Bool
  pub insert : Text → Value → Value → Value
  pub number_text : Value → Option Text
  pub show : Value → Text
  pub fold :
      {B : Type 0} → (Value → B) → (Text → B) → (List B → B) → (List (Text × B) → B) → Value → B
  pub as_str-string : (t : Text) → as_str (string t) ≡ some t
  pub get-insert :
      (k j : Text) (x v : Value)
      → is_object v ≡ true
      → get (insert k x v) j ≡ (if text_eq k j then some x else get v j)
  pub as_bool-boolean : (b : Bool) → as_bool (boolean b) ≡ some b
  pub get-object :
      (members : List (Text × Value)) (k : Text) → get (object members) k ≡ last_value k members
  pub is_object-object : (members : List (Text × Value)) → is_object (object members) ≡ true
  pub insert-other : (k : Text) (x v : Value) → is_object v ≡ false → insert k x v ≡ v

-- `any` is the requirement that `"*"` parses to.
pub record Semver : Type 1 where
  pub Version : Type 0
  pub Req : Type 0
  pub new : (major minor patch : ℕ) → Version
  pub parse_req : Text → Result Req Text
  pub any : Req
  pub matches : Req → Version → Bool
  pub show_req : Req → Text
  pub matches_any : (v : Version) → matches any v ≡ true
