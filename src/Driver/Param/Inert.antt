-- ===== src/Driver/Param/Inert.antt =====
-- What an accepted parameter can hold.
use daimon.Common.{
  ℕ, ◌≡◌, refl, sym, inl, inr, Bool, true, false, ◌||◌, not, Option, none, some, List, [], ◌∷◌, ◌+◌,
  ◌-◌, ◌*◌, ◌^◌, ◌==◌, ==_iff, any, all, Bool-cases, Option-cases, &&-elim, &&-intro, if◌then◌else◌,
  arith,
}
use mathlib.Core.Path.{subst}
use daimon.Common.Text.{
  Text, codes, text_eq, text_eq_sound, contains_char, is_digit, is_alphanumeric, is_hexdigit,
  decimal_from, decimal,
}
use daimon.Common.Integer.{ℤ}
use daimon.Common.Result.{ok, Result-cases}
use daimon.Driver.Param.{
  ParamClass, safe_text, cidr, identifier, int, enum, safe_text_char, cidr_char, identifier_char,
  check_chars, check_class, up_to, as_pos, as_neg, parse_i64, validate,
}

-- The characters of `SafeText`, and `+`, which a numeral may begin with.
unfoldable pub plain_char : ℕ → Bool
unfolding is_alphanumeric contains_char
plain_char c = is_alphanumeric c || contains_char (codes " ./-_:!@+") c

-- Each member of an enumeration consists of those; the other classes are given by the source.
unfoldable pub is_plain : ParamClass → Bool
unfolding plain_char
is_plain (enum allowed) = all (all plain_char) allowed
is_plain _ = true

all-contains :
    (p : ℕ → Bool) (l : Text) (c : ℕ) → all p l ≡ true → contains_char l c ≡ true → p c ≡ true
unfolding contains_char
all-contains p [] c h i = cc
all-contains p (d ∷ l) c h i = elim (Bool-cases (d == c)) [
  | inl e ↦ subst (λ x. p x ≡ true) ((==_iff d c).0 e) (&&-elim _ _ h).0
  | inr e ↦ all-contains p l c (&&-elim _ _ h).1 (ground (arith, i, e))
]

either : (a b c : Bool) → (a ≡ true → c ≡ true) → (b ≡ true → c ≡ true) → (a || b) ≡ true → c ≡ true
either true b c f g h = f refl
either false b c f g h = g h

alphanumeric_plain : (c : ℕ) → is_alphanumeric c ≡ true → plain_char c ≡ true
unfolding plain_char
alphanumeric_plain c h = rw h refl

hexdigit_alphanumeric : (c : ℕ) → is_hexdigit c ≡ true → is_alphanumeric c ≡ true
unfolding is_hexdigit is_alphanumeric is_digit
hexdigit_alphanumeric c h = ground arith

digit_alphanumeric : (c : ℕ) → is_digit c ≡ true → is_alphanumeric c ≡ true
unfolding is_alphanumeric
digit_alphanumeric c h = rw h refl

safe_text_plain : (c : ℕ) → safe_text_char c ≡ true → plain_char c ≡ true
unfolding safe_text_char plain_char
safe_text_plain c =
    either _ _ _ (alphanumeric_plain c) (all-contains plain_char (codes " ./-_:!@") c refl)

cidr_plain : (c : ℕ) → cidr_char c ≡ true → plain_char c ≡ true
unfolding cidr_char plain_char
cidr_plain c =
    either _ _ _ (λ h. alphanumeric_plain c (hexdigit_alphanumeric c h))
      (all-contains plain_char (codes ".:/") c refl)

identifier_plain : (c : ℕ) → identifier_char c ≡ true → plain_char c ≡ true
unfolding identifier_char plain_char
identifier_plain c =
    either _ _ _ (alphanumeric_plain c) (all-contains plain_char (codes "_-") c refl)

check_chars_sound :
    (allowed : ℕ → Bool) (class value s : Text)
    → check_chars allowed class value s ≡ ok tt
    → all allowed s ≡ true
unfolding check_chars
check_chars_sound allowed class value [] h = refl
check_chars_sound allowed class value (c ∷ s) h = elim (Bool-cases (allowed c)) [
  | inl e ↦ &&-intro _ _ e (check_chars_sound allowed class value s (ground (arith, h, e)))
  | inr e ↦ absurd (ground (arith, h, e))
]

pub check_class_sound :
    (allowed : ℕ → Bool) (class s : Text)
    → check_class allowed class s ≡ ok tt
    → all allowed s ≡ true
unfolding check_class
check_class_sound allowed class [] h = refl
check_class_sound allowed class (c ∷ s) h = check_chars_sound allowed class (c ∷ s) (c ∷ s) h

pub all_weaken :
    (p q : ℕ → Bool)
    → ((c : ℕ) → p c ≡ true → q c ≡ true)
    → (s : Text) → all p s ≡ true
    → all q s ≡ true
all_weaken p q f [] h = refl
all_weaken p q f (c ∷ s) h =
    &&-intro _ _ (f c (&&-elim _ _ h).0) (all_weaken p q f s (&&-elim _ _ h).1)

decimal_from_plain :
    (n : ℕ) (s : Text) (k : ℕ) → decimal_from n s ≡ some k → all plain_char s ≡ true
unfolding decimal_from
decimal_from_plain n [] k h = refl
decimal_from_plain n (c ∷ s) k h = elim (Bool-cases (is_digit c)) [
  | inl e ↦
      &&-intro _ _ (alphanumeric_plain c (digit_alphanumeric c e))
        (decimal_from_plain (n * 10 + (c - b'0')) s k (ground (arith, h, e)))
  | inr e ↦ absurd (ground (arith, h, e))
]

decimal_plain : (s : Text) (k : ℕ) → decimal s ≡ some k → all plain_char s ≡ true
unfolding decimal
decimal_plain [] k h = refl
decimal_plain (c ∷ s) k h = decimal_from_plain 0 (c ∷ s) k h

up_to_sound : (bound : ℕ) (o : Option ℕ) (k : ℕ) → up_to bound o ≡ some k → o ≡ some k
unfolding up_to
up_to_sound bound none k h = cc
up_to_sound bound (some n) k h = ground (arith, h)

as_pos_sound : (o : Option ℕ) (i : ℤ) → as_pos o ≡ some i → (k : ℕ) × (o ≡ some k)
unfolding as_pos
as_pos_sound none i h = absurd (ground (arith, h))
as_pos_sound (some n) i h = (n, refl)

as_neg_sound : (o : Option ℕ) (i : ℤ) → as_neg o ≡ some i → (k : ℕ) × (o ≡ some k)
unfolding as_neg
as_neg_sound none i h = absurd (ground (arith, h))
as_neg_sound (some n) i h = (n, refl)

-- A sign before a numeral.
signed_plain :
    (c d : ℕ) (s : Text) (k : ℕ)
    → plain_char d ≡ true
    → (if c == d then decimal s else decimal (c ∷ s)) ≡ some k
    → all plain_char (c ∷ s) ≡ true
signed_plain c d s k p h = elim (Bool-cases (c == d)) [
  | inl e ↦
      &&-intro _ _ (subst (λ x. plain_char x ≡ true) (sym ((==_iff c d).0 e)) p)
        (decimal_plain s k (ground (arith, h, e)))
  | inr e ↦ decimal_plain (c ∷ s) k (ground (arith, h, e))
]

parse_i64_plain : (s : Text) (i : ℤ) → parse_i64 s ≡ some i → all plain_char s ≡ true
unfolding parse_i64 plain_char
parse_i64_plain [] i h = refl
parse_i64_plain (c ∷ s) i h = elim (Bool-cases (c == b'-')) [
  | inl e ↦
      let (k, q) = as_neg_sound (up_to (2 ^ 63) (decimal s)) i (ground (arith, h, e)) in
      let r : decimal s ≡ some k = up_to_sound _ _ k q in
      &&-intro _ _ (subst (λ x. plain_char x ≡ true) (sym ((==_iff c b'-').0 e)) refl)
        (decimal_plain s k r)
  | inr e ↦
      let numeral : Option ℕ = if c == b'+' then decimal s else decimal (c ∷ s) in
      let (k, q) = as_pos_sound (up_to (2 ^ 63 - 1) numeral) i (ground (arith, h, e)) in
      signed_plain c b'+' s k refl (up_to_sound _ numeral k q)
]

enum_plain :
    (v : Text) (l : List Text)
    → all (all plain_char) l ≡ true
    → any (λ a. text_eq a v) l ≡ true
    → all plain_char v ≡ true
enum_plain v [] p h = cc
enum_plain v (a ∷ l) p h = elim (Bool-cases (text_eq a v)) [
  | inl e ↦ subst (λ x. all plain_char x ≡ true) (text_eq_sound a v e) (&&-elim _ _ p).0
  | inr e ↦ enum_plain v l (&&-elim _ _ p).1 (ground (arith, h, e))
]

-- A value that `validate` accepts consists of letters, digits and ` ./-_:!@+` alone, whatever its
-- class, provided that the members of an enumeration do.
pub validate-plain :
    (value : Text) (class : ParamClass)
    → is_plain class ≡ true
    → validate value class ≡ ok tt
    → all plain_char value ≡ true
unfolding validate is_plain
validate-plain v safe_text p h = all_weaken _ _ safe_text_plain v (check_class_sound _ _ v h)
validate-plain v cidr p h = elim (Result-cases (check_class cidr_char (codes "Cidr") v)) [
  | inl (tt, e) ↦ all_weaken _ _ cidr_plain v (check_class_sound _ _ v e)
  | inr (x, e) ↦ absurd (ground (arith, h, e))
]
validate-plain v identifier p h = all_weaken _ _ identifier_plain v (check_class_sound _ _ v h)
validate-plain v int p h = elim (Option-cases (parse_i64 v)) [
  | inl e ↦ absurd (ground (arith, h, e))
  | inr (i, e) ↦ parse_i64_plain v i e
]
validate-plain v (enum allowed) p h =
    enum_plain v allowed p (elim (Bool-cases (any (λ a. text_eq a v) allowed)) [
      | inl e ↦ e
      | inr e ↦ absurd (ground (arith, h, e))
    ])

-- What a shell or the console of a router reads as more than a character of a word.
abbrev pub metachars : Text
metachars = 10 ∷ 13 ∷ 9 ∷ codes ";|&$`<>(){}[]*?~#%^=,'\"\\"

-- None of those characters is among the characters that `validate` lets through.
pub plain_char-metachars : (c : ℕ) → contains_char metachars c ≡ true → plain_char c ≡ false
unfolding plain_char
plain_char-metachars c h = not_true (all-contains (λ x. not (plain_char x)) metachars c refl h)
  where
    not_true : not (plain_char c) ≡ true → plain_char c ≡ false
    not_true k = ground (arith, k)
