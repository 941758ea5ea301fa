-- ===== src/Guard/Policy/Glob.antt =====
-- What a policy pattern matches, without the order of the code's tests.
use native.Mathlib.Omega.{arith}
use daimon.Common.{
  ℕ, ◌≡◌, refl, ap, inl, inr, ◌↔◌, Bool, true, false, Option, none, some, [], ◌∷◌, ◌++◌, ◌||◌,
  Bool-cases, length, length-append,
}
use daimon.Common.Text.{
  Text, text_eq, text_eq_refl, text_eq_sound, starts_with, starts_with_sound, starts_with-append,
  strip_suffix, strip_suffix_sound,
}
use daimon.Guard.Policy.{dot_star, dot, star, glob_prefix, glob_match}

-- A pattern matches itself; `p.*` matches `p` and what lies below `p.`; `*` matches everything.
pub data Matches (pattern value : Text) : Type 0 where
  exact : pattern ≡ value → Matches pattern value
  root : (p : Text) → pattern ≡ p ++ dot_star → value ≡ p → Matches pattern value
  below : (p r : Text) → pattern ≡ p ++ dot_star → value ≡ (p ++ dot) ++ r → Matches pattern value
  any_value : pattern ≡ star → Matches pattern value

longer_ne : (c : ℕ) (p q : Text) → text_eq (c ∷ (p ++ q)) q ≡ false
longer_ne c p q = elim (Bool-cases (text_eq (c ∷ (p ++ q)) q)) [
  | inl e ↦ absurd (omega (arith, ap length (text_eq_sound _ _ e), length-append p q))
  | inr e ↦ e
]

strip_suffix-append : (p q : Text) → strip_suffix (p ++ q) q ≡ some p
unfolding strip_suffix
strip_suffix-append [] [] = refl
strip_suffix-append [] (d ∷ q) = rw (text_eq_refl (d ∷ q)) refl
strip_suffix-append (c ∷ p) q = rw (longer_ne c p q, strip_suffix-append p q) refl

text_eq_ne : (s t : Text) → (s ≡ t → ⊥) → text_eq s t ≡ false
text_eq_ne s t h = elim (Bool-cases (text_eq s t)) [
  | inl e ↦ absurd (h (text_eq_sound s t e))
  | inr e ↦ e
]

glob_prefix_sound :
    (o : Option Text) (pattern value : Text)
    → strip_suffix pattern dot_star ≡ o
    → glob_prefix o pattern value ≡ true
    → Matches pattern value
unfolding glob_prefix
glob_prefix_sound none pattern value e h = any_value (text_eq_sound _ _ h)
glob_prefix_sound (some p) pattern value e h = elim (Bool-cases (text_eq value p)) [
  | inl q ↦ root p (strip_suffix_sound _ _ _ e) (text_eq_sound _ _ q)
  | inr q ↦
      let (r, s) = starts_with_sound value (p ++ dot) (ground (arith, h, q)) in
      below p r (strip_suffix_sound _ _ _ e) s
]

glob_match_sound : (pattern value : Text) → glob_match pattern value ≡ true → Matches pattern value
unfolding glob_match
glob_match_sound pattern value h = elim (Bool-cases (text_eq pattern value)) [
  | inl e ↦ exact (text_eq_sound _ _ e)
  | inr e ↦ glob_prefix_sound (strip_suffix pattern dot_star) pattern value refl (rw e at h)
]

glob_match_exact : (value : Text) → glob_match value value ≡ true
unfolding glob_match
glob_match_exact value = rw (text_eq_refl value) refl

or_true : (a b : Bool) → b ≡ true → (a || b) ≡ true
or_true a b h = ground arith

glob_match_prefix :
    (p value : Text)
    → (text_eq value p || starts_with value (p ++ dot)) ≡ true
    → glob_match (p ++ dot_star) value ≡ true
unfolding glob_match glob_prefix
glob_match_prefix p value h = rw (strip_suffix-append p dot_star) (ground (arith, h))

glob_match-star : (value : Text) → glob_match star value ≡ true
unfolding glob_match
glob_match-star value = ground arith

glob_match_complete :
    (pattern value : Text) → Matches pattern value → glob_match pattern value ≡ true
glob_match_complete pattern value (exact e) = rw e (glob_match_exact value)
glob_match_complete pattern value (root p e q) =
    rw e (glob_match_prefix p value (rw q (ground (arith, text_eq_refl p))))
glob_match_complete pattern value (below p r e q) =
    rw e (glob_match_prefix p value (rw q (or_true _ _ (starts_with-append (p ++ dot) r))))
glob_match_complete pattern value (any_value e) = rw e (glob_match-star value)

-- A rule's pattern matches a capability name exactly when the two are equal, or the pattern is
-- `p.*` and the name is `p` or begins with `p.`, or the pattern is `*`.
pub glob_match_iff :
    (pattern value : Text) → (glob_match pattern value ≡ true) ↔ Matches pattern value
glob_match_iff pattern value = (glob_match_sound pattern value, glob_match_complete pattern value)
