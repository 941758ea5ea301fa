-- ===== src/Common/Map.antt =====
-- Rust's `HashMap` as an association list over keys with a test for equality. The order in which a
-- `HashMap` yields its entries is not specified; here it is the order of first insertion.
use mathlib.Core.Path.{◌≡◌, refl, sym, ap, subst}
use mathlib.Core.Logic.{◌↔◌, inl, inr}
use mathlib.Core.Bool.{Bool, true, false}
use mathlib.Core.List.{List, [], ◌∷◌}
use mathlib.Core.Option.{Option, none, some}
use native.Mathlib.Omega.{arith}
use daimon.Common.Tests.{if◌then◌else◌, Bool-cases}
use daimon.Common.Text.{Text, text_eq, text_eq_sound, text_eq_complete}

pub record Eq (K : Type 0) : Type 0 where
  pub beq : K → K → Bool
  pub beq_iff : (a b : K) → (beq a b ≡ true) ↔ (a ≡ b)

instance abbrev pub text_Eq : Eq Text
text_Eq = record { beq = text_eq; beq_iff = λ a b. (text_eq_sound a b, text_eq_complete a b) }

module _ {K : Type 0} ⦃e : Eq K⦄ where
  differ : (i j k : K) → e.beq i j ≡ true → e.beq i k ≡ false → e.beq k j ≡ false
  differ i j k q p = elim (Bool-cases (e.beq k j)) [
    | inr n ↦ n
    | inl n ↦ absurd (
        ground (
          arith,
          p,
          (e.beq_iff i k).1 (subst (λ x. i ≡ x) (sym ((e.beq_iff k j).0 n)) ((e.beq_iff i j).0 q)),
        ))
  ]

module _ {K V : Type 0} ⦃e : Eq K⦄ where
  unfoldable pub lookup : K → List (K × V) → Option V
  lookup k [] = none
  lookup k ((j, v) ∷ m) = if e.beq j k then some v else lookup k m

  unfoldable pub insert : K → V → List (K × V) → List (K × V)
  insert k v [] = (k, v) ∷ []
  insert k v ((j, w) ∷ m) = if e.beq j k then (j, v) ∷ m else (j, w) ∷ insert k v m

  unfoldable pub remove : K → List (K × V) → List (K × V)
  remove k [] = []
  remove k ((j, w) ∷ m) = let rest = remove k m in if e.beq j k then rest else (j, w) ∷ rest

  unfoldable pub values : List (K × V) → List V
  values [] = []
  values ((j, v) ∷ m) = v ∷ values m

  pub lookup-insert :
      (k j : K) (v : V) (m : List (K × V))
      → lookup j (insert k v m) ≡ (if e.beq k j then some v else lookup j m)
  unfolding lookup insert
  lookup-insert k j v [] = refl
  lookup-insert k j v ((i, w) ∷ m) = elim (Bool-cases (e.beq i k)) [
    | inl p ↦ let q = (e.beq_iff i k).0 p in ground (arith, p, ap (λ x. e.beq x j) q)
    | inr p ↦ elim (Bool-cases (e.beq i j)) [
      | inl q ↦ let r : e.beq k j ≡ false = differ i j k q p in rw (p, q, r) refl
      | inr q ↦ rw (p, q) (lookup-insert k j v m)
    ]
  ]

  pub lookup-remove :
      (k j : K) (m : List (K × V))
      → lookup j (remove k m) ≡ (if e.beq k j then none else lookup j m)
  unfolding lookup remove
  lookup-remove k j [] = ground arith
  lookup-remove k j ((i, w) ∷ m) = elim (Bool-cases (e.beq i k)) [
    | inl p ↦
        let q = (e.beq_iff i k).0 p in ground (arith, p, lookup-remove k j m, ap (λ x. e.beq x j) q)
    | inr p ↦ elim (Bool-cases (e.beq i j)) [
      | inl q ↦ let r : e.beq k j ≡ false = differ i j k q p in rw (p, q, r) (ground (arith, q))
      | inr q ↦ rw (p, q) (ground (arith, q, lookup-remove k j m))
    ]
  ]
