-- ===== src/Inventory/Refspec/RoundTrip.antt =====
-- Parsing and printing of target references.
use native.Mathlib.Omega.{arith}
use daimon.Common.{
  ◌≡◌, refl, sym, ◌≢◌, inl, inr, false, Option, none, some, [], ◌∷◌, ◌++◌, Bool-cases,
}
use daimon.Common.Text.{Text, strip_prefix, strip_prefix_sound, contains_char}
use daimon.Common.Result.{ok}
use daimon.Inventory.Refspec.{TargetRef, scheme, parse_name, parse_rest, parse, to_string}

-- A name that a reference may hold: not empty and without a slash.
abbrev pub IsName : Text → Type 0
IsName name = (name ≢ []) × (contains_char name b'/' ≡ false)

parse_name_sound :
    (rest : Text) (r : TargetRef) → parse_name rest ≡ ok r → (r.name ≡ rest) × IsName rest
unfolding parse_name
parse_name_sound [] r h = absurd (ground (arith, h))
parse_name_sound (c ∷ rest) r h = elim (Bool-cases (contains_char (c ∷ rest) b'/')) [
  | inl e ↦ absurd (ground (arith, h, e))
  | inr e ↦ (ground (arith, h, e), ((λ x. cc), e))
]

parse_name_complete : (r : TargetRef) → IsName r.name → parse_name r.name ≡ ok r
unfolding parse_name
parse_name_complete r h = go r.name refl h
  where
    go : (n : Text) → r.name ≡ n → IsName n → parse_name n ≡ ok r
    go [] e k = absurd (k.0 refl)
    go (c ∷ n) e k = rw k.1 (ground (arith, e))

-- A well-named reference is read back from what it prints as.
pub parse-to_string : (r : TargetRef) → IsName r.name → parse (to_string r) ≡ ok r
unfolding parse to_string
parse-to_string r h = parse_name_complete r h

-- What is parsed prints as the text that was parsed, and is well named.
pub parse_sound : (s : Text) (r : TargetRef) → parse s ≡ ok r → (to_string r ≡ s) × IsName r.name
unfolding parse to_string
parse_sound s r h = go (strip_prefix s scheme) refl h
  where
    go :
        (o : Option Text)
        → strip_prefix s scheme ≡ o
        → parse_rest o ≡ ok r
        → (scheme ++ r.name ≡ s) × IsName r.name
    go none e k = absurd (ground (arith, k))
    go (some rest) e k =
        let (q, n) = parse_name_sound rest r k in
        (rw q (sym (strip_prefix_sound s scheme rest e)), rw q n)
