-- ===== src/Common/Text.antt =====
-- Texts as lists of code points, with the operations of Rust's `str` that the program calls:
-- equality, `starts_with`, `strip_prefix`, `strip_suffix`, and `contains`.
use Prim.Native.Char.{code}
use Prim.Native.String.{String}
use Prim.Native.Nat.{ℕ, ◌+◌, ◌-◌, ◌*◌}
use mathlib.Core.Path.{◌≡◌, refl, ap₂}
use mathlib.Core.Logic.{inl, inr}
use mathlib.Core.Bool.{Bool, true, false, ◌&&◌, ◌||◌}
use mathlib.Core.List.{List, [], ◌∷◌, ◌++◌, reverse}
use mathlib.Core.Option.{Option, none, some}
use native.Mathlib.Omega.{arith}
use daimon.Common.Tests.{leb, ◌==◌, ==_iff, ==_refl, if◌then◌else◌, Option-cases, &&-elim}

abbrev pub Text : Type 0
Text = List ℕ

-- The code points of a literal.
abbrev pub codes : String → Text
codes String.[] = []
codes (String.◌∷◌ c s) = code c ∷ codes s

-- `a == b` on `str`.
unfoldable pub text_eq : Text → Text → Bool
text_eq [] [] = true
text_eq [] (d ∷ t) = false
text_eq (c ∷ s) [] = false
text_eq (c ∷ s) (d ∷ t) = (c == d) && text_eq s t

pub text_eq_refl : (s : Text) → text_eq s s ≡ true
unfolding text_eq
text_eq_refl [] = refl
text_eq_refl (c ∷ s) = ground (arith, text_eq_refl s)

pub text_eq_sound : (s t : Text) → text_eq s t ≡ true → s ≡ t
unfolding text_eq
text_eq_sound [] [] h = refl
text_eq_sound [] (d ∷ t) h = cc
text_eq_sound (c ∷ s) [] h = cc
text_eq_sound (c ∷ s) (d ∷ t) h = ground (arith, text_eq_sound s t)

pub text_eq_complete : (s t : Text) → s ≡ t → text_eq s t ≡ true
text_eq_complete s t e = rw e (text_eq_refl t)

-- `value.starts_with(prefix)`.
unfoldable pub starts_with : Text → Text → Bool
starts_with [] p = text_eq [] p
starts_with (c ∷ s) [] = true
starts_with (c ∷ s) (d ∷ p) = (c == d) && starts_with s p

-- `value.strip_prefix(prefix)`.
unfoldable pub strip_prefix : Text → Text → Option Text
strip_prefix s [] = some s
strip_prefix [] (d ∷ p) = none
strip_prefix (c ∷ s) (d ∷ p) = if c == d then strip_prefix s p else none

-- `value.strip_suffix(suffix)`.
unfoldable pub strip_suffix : Text → Text → Option Text
unfolding text_eq
strip_suffix [] q = if text_eq [] q then some [] else none
strip_suffix (c ∷ s) q =
    let rest = strip_suffix s q in
    if text_eq (c ∷ s) q then some [] else elim rest [ none ↦ none | some r ↦ some (c ∷ r) ]

-- `value.contains(needle)`.
unfoldable pub contains : Text → Text → Bool
unfolding starts_with text_eq
contains [] n = starts_with [] n
contains (c ∷ s) n = starts_with (c ∷ s) n || contains s n

-- `value.contains(ch)` at one character.
unfoldable pub contains_char : Text → ℕ → Bool
contains_char [] n = false
contains_char (c ∷ s) n = (c == n) || contains_char s n

-- What stands before the first `ch`, and after it when there is one: `find(ch)` and the two slices,
-- or `splitn(2, ch)`.
unfoldable pub split_at : ℕ → Text → Text × Option Text
split_at n [] = ([], none)
split_at n (c ∷ s) =
    let (before, after) = split_at n s in if c == n then ([], some s) else (c ∷ before, after)

-- `split(ch)`.
abbrev push_first : ℕ → List Text → List Text
push_first c [] = (c ∷ []) ∷ []
push_first c (p ∷ ps) = (c ∷ p) ∷ ps

unfoldable pub split : ℕ → Text → List Text
split n [] = [] ∷ []
split n (c ∷ s) = let rest = split n s in if c == n then [] ∷ rest else push_first c rest

-- `char::is_whitespace`, the `White_Space` of Unicode, and `str::trim`.
unfoldable pub is_whitespace : ℕ → Bool
unfolding contains_char
is_whitespace c =
    (leb 9 c && leb c 13)
    || ((leb 8192 c && leb c 8202)
        || contains_char (32 ∷ 133 ∷ 160 ∷ 5760 ∷ 8232 ∷ 8233 ∷ 8239 ∷ 8287 ∷ 12288 ∷ []) c)

unfoldable pub trim_start : Text → Text
unfolding is_whitespace
trim_start [] = []
trim_start (c ∷ s) = let rest = trim_start s in if is_whitespace c then rest else c ∷ s

unfoldable pub trim : Text → Text
unfolding trim_start
trim s = reverse (trim_start (reverse (trim_start s)))

-- Rust's `char::is_ascii_digit`, `is_ascii_alphanumeric` and `is_ascii_hexdigit`.
unfoldable pub is_digit : ℕ → Bool
is_digit c = leb b'0' c && leb c b'9'

unfoldable pub is_alphanumeric : ℕ → Bool
unfolding is_digit
is_alphanumeric c = is_digit c || ((leb b'A' c && leb c b'Z') || (leb b'a' c && leb c b'z'))

unfoldable pub is_hexdigit : ℕ → Bool
unfolding is_digit
is_hexdigit c = is_digit c || ((leb b'A' c && leb c b'F') || (leb b'a' c && leb c b'f'))

-- A numeral of at least one decimal digit, without a sign.
unfoldable pub decimal_from : ℕ → Text → Option ℕ
unfolding is_digit
decimal_from n [] = some n
decimal_from n (c ∷ s) =
    let rest = decimal_from (n * 10 + (c - b'0')) s in if is_digit c then rest else none

unfoldable pub decimal : Text → Option ℕ
unfolding decimal_from
decimal [] = none
decimal (c ∷ s) = decimal_from 0 (c ∷ s)

pub starts_with-append : (p s : Text) → starts_with (p ++ s) p ≡ true
unfolding starts_with text_eq
starts_with-append [] [] = refl
starts_with-append [] (c ∷ s) = refl
starts_with-append (d ∷ p) s = ground (arith, starts_with-append p s)

pub starts_with_sound : (s p : Text) → starts_with s p ≡ true → (r : Text) × (s ≡ p ++ r)
unfolding starts_with text_eq
starts_with_sound [] [] h = ([], refl)
starts_with_sound [] (d ∷ p) h = ([], cc)
starts_with_sound (c ∷ s) [] h = (c ∷ s, refl)
starts_with_sound (c ∷ s) (d ∷ p) h =
    let (r, q) = starts_with_sound s p (&&-elim _ _ h).1 in
    (r, ap₂ (λ x y. x ∷ y) ((==_iff c d).0 (&&-elim _ _ h).0) q)

pub strip_prefix-append : (p s : Text) → strip_prefix (p ++ s) p ≡ some s
unfolding strip_prefix
strip_prefix-append [] s = refl
strip_prefix-append (d ∷ p) s = rw (==_refl d) (strip_prefix-append p s)

pub strip_prefix_sound : (s p r : Text) → strip_prefix s p ≡ some r → s ≡ p ++ r
unfolding strip_prefix
strip_prefix_sound s [] r h = ground arith
strip_prefix_sound [] (d ∷ p) r h = cc
strip_prefix_sound (c ∷ s) (d ∷ p) r h = ground (arith, strip_prefix_sound s p r)

pub strip_suffix_sound : (s q r : Text) → strip_suffix s q ≡ some r → s ≡ r ++ q
unfolding strip_suffix
strip_suffix_sound [] q r h = ground (arith, text_eq_sound [] q)
strip_suffix_sound (c ∷ s) q r h = elim (Option-cases (strip_suffix s q)) [
  | inl e ↦ ground (arith, text_eq_sound (c ∷ s) q)
  | inr (r', e) ↦ ground (arith, text_eq_sound (c ∷ s) q, strip_suffix_sound s q r' e)
]
