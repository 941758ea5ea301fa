-- ===== src/Examples/Values.antt =====
-- A concrete JSON and a concrete version type, for the interfaces of Common/Json.
use native.Mathlib.Omega.{arith}
use mathlib.Core.Path.{subst}
use daimon.Common.{
  ℕ, zero, suc, ◌+◌, ◌/◌, ◌%◌, ltb, ◌∙◌, ◌≡◌, refl, sym, ap, Bool, true, false, Option, none, some,
  List, [], ◌∷◌, if◌then◌else◌, ◌==◌, Bool-cases, inl, inr,
}
use daimon.Common.Text.{Text, codes, text_eq, text_eq_sound, text_eq_complete}
use daimon.Common.Result.{Result, ok}
use daimon.Common.Json.{Json, Semver, last_value}
use daimon.Common.Integer.{ℤ, pos, negsuc}

-- An object is a chain of fields; what stands at its end does not matter.
pub data Value : Type 0 where
  null empty no_items : Value
  integer : ℤ → Value
  item : Value → Value → Value
  string : Text → Value
  number : ℕ → Value
  boolean : Bool → Value
  field : Text → Value → Value → Value

unfoldable pub get : Value → Text → Option Value
unfolding text_eq
get (field j v rest) k = if text_eq j k then some v else get rest k
get _ k = none

-- A repeated key keeps its last value.
abbrev pub unless_held : Option Value → Text → Value → Value → Value
unless_held none k v rest = field k v rest
unless_held (some w) k v rest = rest

unfoldable pub fields : List (Text × Value) → Value
unfolding get
fields [] = empty
fields ((k, v) ∷ m) = let rest = fields m in unless_held (get rest k) k v rest

abbrev pub items : List Value → Value
items [] = no_items
items (v ∷ vs) = item v (items vs)

unfoldable pub put : Text → Value → Value → Value
unfolding text_eq
put k x (field j v rest) = if text_eq j k then field j x rest else field j v (put k x rest)
put k x _ = field k x empty

unfoldable pub is_object : Value → Bool
is_object empty = true
is_object (field j v rest) = true
is_object _ = false

unfoldable pub put_field : Text → Value → Value → Value
unfolding put is_object
put_field k x v = if is_object v then put k x v else v

get-last :
    (k j : Text) (x : Value) → get (field k x empty) j ≡ (if text_eq k j then some x else none)
unfolding get
get-last k j x = refl

get-put : (k j : Text) (x v : Value) → get (put k x v) j ≡ (if text_eq k j then some x else get v j)
unfolding get put
get-put k j x null = refl
get-put k j x empty = refl
get-put k j x no_items = refl
get-put k j x (integer i) = refl
get-put k j x (item v rest) = refl
get-put k j x (string t) = refl
get-put k j x (number n) = refl
get-put k j x (boolean b) = refl
get-put k j x (field i w rest) = elim (Bool-cases (text_eq i k)) [
  | inl p ↦ let q = text_eq_sound i k p in ground (arith, p, ap (λ y. text_eq y j) q)
  | inr p ↦ elim (Bool-cases (text_eq i j)) [
    | inr q ↦ rw (p, q) (get-put k j x rest)
    | inl q ↦ elim (Bool-cases (text_eq k j)) [
      | inr r ↦ rw (p, q, r) refl
      | inl r ↦ absurd (
          ground (
            arith,
            p,
            text_eq_complete i k
                (subst (λ y. i ≡ y) (sym (text_eq_sound k j r)) (text_eq_sound i j q)),
          ))
    ]
  ]
]

abbrev pub as_str : Value → Option Text
as_str (string t) = some t
as_str _ = none

abbrev pub as_bool : Value → Option Bool
as_bool (boolean b) = some b
as_bool _ = none

abbrev pub as_u64 : Value → Option ℕ
as_u64 (number n) = some n
as_u64 (integer (pos n)) = some n
as_u64 _ = none

pub get-put_field :
    (k j : Text) (x v : Value)
    → is_object v ≡ true
    → get (put_field k x v) j ≡ (if text_eq k j then some x else get v j)
unfolding put_field
get-put_field k j x v o = rw o (get-put k j x v)

pub put_field-other : (k : Text) (x v : Value) → is_object v ≡ false → put_field k x v ≡ v
unfolding put_field
put_field-other k x v o = rw o refl

abbrev or_else : Option Value → Option Value → Option Value
or_else none p = p
or_else (some w) p = some w

or_none : (o : Option Value) → o ≡ or_else o none
or_none none = refl
or_none (some w) = refl

get-unless_held :
    (o : Option Value) (j : Text) (v rest : Value)
    → get rest j ≡ o
    → (k : Text)
    → get (unless_held o j v rest) k ≡ or_else (get rest k) (if text_eq j k then some v else none)
unfolding get
get-unless_held none j v rest e k = elim (Bool-cases (text_eq j k)) [
  | inl q ↦
      let n : get rest k ≡ none = subst (λ x. get rest x ≡ none) (text_eq_sound j k q) e in
      rw (q, n) refl
  | inr q ↦ rw q (or_none (get rest k))
]
get-unless_held (some w) j v rest e k = elim (Bool-cases (text_eq j k)) [
  | inl q ↦
      let n : get rest k ≡ some w = subst (λ x. get rest x ≡ some w) (text_eq_sound j k q) e in
      rw n refl
  | inr q ↦ rw q (or_none (get rest k))
]

pub get-fields : (m : List (Text × Value)) (k : Text) → get (fields m) k ≡ last_value k m
unfolding last_value get fields
get-fields [] k = refl
get-fields ((j, v) ∷ m) k =
    get-unless_held (get (fields m) j) j v (fields m) refl k
    ∙ ap (λ o. or_else o (if text_eq j k then some v else none)) (get-fields m k)
    ∙ later (last_value k m)
  where
    later :
        (o : Option Value)
        → or_else o (if text_eq j k then some v else none)
          ≡ elim o [ some w ↦ some w | none ↦ if text_eq j k then some v else none ]
    later none = refl
    later (some w) = refl

unless_held-object :
    (o : Option Value) (k : Text) (v rest : Value)
    → is_object rest ≡ true
    → is_object (unless_held o k v rest) ≡ true
unfolding is_object
unless_held-object none k v rest h = refl
unless_held-object (some w) k v rest h = h

pub fields-object : (m : List (Text × Value)) → is_object (fields m) ≡ true
unfolding fields is_object
fields-object [] = refl
fields-object ((k, v) ∷ m) = unless_held-object (get (fields m) k) k v (fields m) (fields-object m)

abbrev pub numeral_from : ℕ → ℕ → Text → Text
numeral_from zero n shown = shown
numeral_from (suc fuel) n shown =
    let digits = (b'0' + n % 10) ∷ shown in
    let rest = numeral_from fuel (n / 10) digits in if ltb n 10 then digits else rest

abbrev pub number_text : Value → Option Text
number_text (number n) = some (numeral_from (suc n) n [])
number_text (integer (pos n)) = some (numeral_from (suc n) n [])
number_text (integer (negsuc n)) = some (b'-' ∷ numeral_from (suc (suc n)) (suc n) [])
number_text _ = none

-- The fold of a value, of the items of an array, and of the fields of an object.
abbrev pub fold :
    {B : Type 0}
    → (Value → B)
    → (Text → B)
    → (List B → B)
    → (List (Text × B) → B)
    → Value
    → B × (List B × List (Text × B))
fold other str arr obj (string t) = (str t, ([], []))
fold other str arr obj no_items = (arr [], ([], []))
fold other str arr obj (item v rest) =
    let bs = (fold other str arr obj v).0 ∷ (fold other str arr obj rest).1.0 in (arr bs, (bs, []))
fold other str arr obj empty = (obj [], ([], []))
fold other str arr obj (field k v rest) =
    let bs = (k, (fold other str arr obj v).0) ∷ (fold other str arr obj rest).1.1 in
    (obj bs, ([], bs))
fold other str arr obj v = (other v, ([], []))

abbrev pub json : Json
json = record {
  Value = Value;
  null = null;
  string = string;
  number = number;
  object = fields;
  get = get;
  as_str = as_str;
  as_bool = as_bool;
  as_u64 = as_u64;
  is_object = is_object;
  integer = integer;
  boolean = boolean;
  array = items;
  number_text = number_text;
  show = λ v. codes "json";
  fold = λ {B} other str arr obj v. (fold other str arr obj v).0;
  insert = put_field;
  as_str-string = λ t. refl;
  get-insert = get-put_field;
  insert-other = put_field-other;
  as_bool-boolean = λ b. refl;
  get-object = get-fields;
  is_object-object = fields-object;
}

-- A version is a number; a requirement asks for the same number, or for any.
abbrev req_matches : Option ℕ → ℕ → Bool
req_matches none v = true
req_matches (some r) v = r == v

abbrev parse_version : Text → Result (Option ℕ) Text
parse_version [] = ok none
parse_version (c ∷ rest) = if c == b'1' then ok (some 1) else ok none

abbrev pub semver : Semver
semver = record {
  Version = ℕ;
  Req = Option ℕ;
  new = λ major minor patch. major;
  parse_req = parse_version;
  any = none;
  matches = req_matches;
  show_req = λ r. [];
  matches_any = λ v. refl;
}
