-- ===== src/Vault/Refspec/Printing.antt =====
-- Parsing and printing of credential references.
use native.Mathlib.Omega.{arith}
use daimon.Common.{
  ℕ, ◌≡◌, refl, sym, ◌∙◌, ap, inl, inr, ◌||◌, Option, none, some, List, [], ◌∷◌, ◌++◌, Bool-cases,
  ==_iff, ◌==◌,
}
use daimon.Common.Text.{Text, strip_prefix, strip_prefix_sound}
use daimon.Common.Result.{ok}
use daimon.Vault.Refspec.{
  CredentialRef, named, path, uuid, scheme, push, split, is_empty, looks_like_uuid, parse_parts,
  parse_rest, parse, to_string,
}

-- The parts behind the first, each with its separator before it.
abbrev tails : ℕ → List Text → Text
tails sep [] = []
tails sep (p ∷ ps) = sep ∷ (p ++ tails sep ps)

abbrev joined : ℕ → List Text → Text
joined sep [] = []
joined sep (p ∷ ps) = p ++ tails sep ps

append_nil : (s : Text) → s ++ [] ≡ s
append_nil [] = refl
append_nil (c ∷ s) = ap (λ t. c ∷ t) (append_nil s)

joined-push : (sep c : ℕ) (ps : List Text) → joined sep (push c ps) ≡ c ∷ joined sep ps
unfolding push
joined-push sep c [] = refl
joined-push sep c (p ∷ ps) = refl

split-cons : (sep : ℕ) (s : Text) → joined sep ([] ∷ split sep s) ≡ sep ∷ joined sep (split sep s)
unfolding split push
split-cons sep [] = refl
split-cons sep (c ∷ s) = elim (Bool-cases (c == sep)) [
  | inl e ↦ rw e refl
  | inr e ↦ rw e (go (split sep s))
]
  where
    go : (ps : List Text) → joined sep ([] ∷ push c ps) ≡ sep ∷ joined sep (push c ps)
    go [] = refl
    go (p ∷ ps) = refl

joined-split : (sep : ℕ) (s : Text) → joined sep (split sep s) ≡ s
unfolding split
joined-split sep [] = refl
joined-split sep (c ∷ s) = elim (Bool-cases (c == sep)) [
  | inl e ↦ rw e (
      split-cons sep s
      ∙ ap (λ t. sep ∷ t) (joined-split sep s)
      ∙ ap (λ x. x ∷ s) (sym ((==_iff c sep).0 e)))
  | inr e ↦ rw e (joined-push sep c (split sep s) ∙ ap (λ t. c ∷ t) (joined-split sep s))
]

parse_parts_sound :
    (ps : List Text) (r : CredentialRef)
    → parse_parts ps ≡ ok r
    → to_string r ≡ scheme ++ joined b'/' ps
unfolding parse_parts to_string
parse_parts_sound [] r h = absurd (ground (arith, h))
parse_parts_sound (p ∷ []) r h = elim (Bool-cases (is_empty p)) [
  | inl e ↦ absurd (ground (arith, h, e))
  | inr e ↦ elim (Bool-cases (looks_like_uuid p)) [
    | inl u ↦ single (uuid p) (ground (arith, h, e, u)) (ap (λ t. scheme ++ t) (sym (append_nil p)))
    | inr u ↦
        single (named p) (ground (arith, h, e, u)) (ap (λ t. scheme ++ t) (sym (append_nil p)))
  ]
]
  where
    single :
        (x : CredentialRef)
        → x ≡ r
        → to_string x ≡ scheme ++ (p ++ [])
        → to_string r ≡ scheme ++ (p ++ [])
    single x q k = sym (ap (λ y. to_string y) q) ∙ k
parse_parts_sound (org ∷ coll ∷ []) r h = absurd (ground (arith, h))
parse_parts_sound (org ∷ coll ∷ item ∷ []) r h =
    elim (Bool-cases (is_empty org || (is_empty coll || is_empty item))) [
      | inl e ↦ absurd (ground (arith, h, e))
      | inr e ↦
          let q : path org coll item ≡ r = ground (arith, h, e) in
          sym (ap (λ y. to_string y) q)
          ∙ ap (λ t. scheme ++ (org ++ (b'/' ∷ (coll ++ (b'/' ∷ t))))) (sym (append_nil item))
    ]
parse_parts_sound (org ∷ coll ∷ item ∷ more ∷ rest) r h = absurd (ground (arith, h))

-- A credential reference that is parsed prints as the text that it was parsed from.
pub to_string-parse : (s : Text) (r : CredentialRef) → parse s ≡ ok r → to_string r ≡ s
unfolding parse parse_rest
to_string-parse s r h = go (strip_prefix s scheme) refl h
  where
    go : (o : Option Text) → strip_prefix s scheme ≡ o → parse_rest o ≡ ok r → to_string r ≡ s
    go none e k = absurd (ground (arith, k))
    go (some rest) e k =
        parse_parts_sound (split b'/' rest) r k
        ∙ ap (λ t. scheme ++ t) (joined-split b'/' rest)
        ∙ sym (strip_prefix_sound s scheme rest e)
