-- ===== src/Common/Lists.antt =====
-- Lists measured and indexed by native numbers, with the tests that the program's iterators make.
use Prim.Native.Nat.{ℕ, zero, suc, ◌+◌}
use mathlib.Core.Path.{◌≡◌, refl, sym, ap, ◌∙◌, subst}
use mathlib.Core.Logic.{◌⊎◌, inl, inr}
use mathlib.Core.Bool.{Bool, true, false, ◌&&◌, ◌||◌}
use mathlib.Core.List.{List, [], ◌∷◌, ◌++◌}
use mathlib.Core.Option.{Option, none, some}
use native.Mathlib.Omega.{arith}
use daimon.Common.Tests.{if◌then◌else◌, &&-elim, &&-intro}

-- No value, at every level.
pub data Never {ℓ} : Type ℓ where

module _ {ℓ} {A : Type ℓ} where
  abbrev pub length : List A → ℕ
  length [] = 0
  length (x ∷ xs) = suc (length xs)

  abbrev pub get_elem? : List A → ℕ → Option A
  get_elem? [] i = none
  get_elem? (x ∷ xs) zero = some x
  get_elem? (x ∷ xs) (suc i) = get_elem? xs i

  abbrev pub set : List A → ℕ → A → List A
  set [] i v = []
  set (x ∷ xs) zero v = v ∷ xs
  set (x ∷ xs) (suc i) v = x ∷ set xs i v

  abbrev pub take : ℕ → List A → List A
  take zero xs = []
  take (suc n) [] = []
  take (suc n) (x ∷ xs) = x ∷ take n xs

  -- `Iterator::any` and `Iterator::all`.
  abbrev pub any : (A → Bool) → List A → Bool
  any p [] = false
  any p (x ∷ xs) = p x || any p xs

  abbrev pub all : (A → Bool) → List A → Bool
  all p [] = true
  all p (x ∷ xs) = p x && all p xs

  -- `Iterator::find`.
  abbrev pub find : (A → Bool) → List A → Option A
  find p [] = none
  find p (x ∷ xs) = if p x then some x else find p xs

  -- `Iterator::filter`.
  abbrev pub filter : (A → Bool) → List A → List A
  filter p [] = []
  filter p (x ∷ xs) = let rest = filter p xs in if p x then x ∷ rest else rest

  -- A predicate of every item.
  abbrev pub All {κ} : (A → Type κ) → List A → Type κ
  All P [] = Unit
  All P (x ∷ xs) = P x × All P xs

  -- Membership as a sum, which the tactics take apart.
  abbrev pub In : A → List A → Type ℓ
  In a [] = Never
  In a (x ∷ xs) = (a ≡ x) ⊎ In a xs

module _ {ℓ} {A : Type ℓ} where
  pub length-append : (xs ys : List A) → length (xs ++ ys) ≡ length xs + length ys
  length-append [] ys = omega arith
  length-append (x ∷ xs) ys = omega (arith, length-append xs ys)

  pub length-set : (xs : List A) (i : ℕ) (v : A) → length (set xs i v) ≡ length xs
  length-set [] i v = refl
  length-set (x ∷ xs) zero v = refl
  length-set (x ∷ xs) (suc i) v = ap suc (length-set xs i v)

  pub In-append_left : (a : A) (xs ys : List A) → In a xs → In a (xs ++ ys)
  In-append_left a [] ys h = elim h [ ]
  In-append_left a (x ∷ xs) ys (inl e) = inl e
  In-append_left a (x ∷ xs) ys (inr h) = inr (In-append_left a xs ys h)

  pub In-append_right : (a : A) (xs ys : List A) → In a ys → In a (xs ++ ys)
  In-append_right a [] ys h = h
  In-append_right a (x ∷ xs) ys h = inr (In-append_right a xs ys h)

  pub In-append_cases : (a : A) (xs ys : List A) → In a (xs ++ ys) → In a xs ⊎ In a ys
  In-append_cases a [] ys h = inr h
  In-append_cases a (x ∷ xs) ys (inl e) = inl (inl e)
  In-append_cases a (x ∷ xs) ys (inr h) = elim (In-append_cases a xs ys h) [
    | inl p ↦ inl (inr p)
    | inr q ↦ inr q
  ]

  pub all-In : (p : A → Bool) (a : A) (xs : List A) → all p xs ≡ true → In a xs → p a ≡ true
  all-In p a [] h i = elim i [ ]
  all-In p a (x ∷ xs) h (inl e) = ap p e ∙ (&&-elim _ _ h).0
  all-In p a (x ∷ xs) h (inr i) = all-In p a xs (&&-elim _ _ h).1 i

  pub all_of_In : (p : A → Bool) (xs : List A) → ((a : A) → In a xs → p a ≡ true) → all p xs ≡ true
  all_of_In p [] h = refl
  all_of_In p (x ∷ xs) h = &&-intro _ _ (h x (inl refl)) (all_of_In p xs (λ a i. h a (inr i)))

  pub set-set : (xs : List A) (i : ℕ) (a b : A) → set (set xs i a) i b ≡ set xs i b
  set-set [] i a b = refl
  set-set (x ∷ xs) zero a b = refl
  set-set (x ∷ xs) (suc i) a b = ap (λ t. x ∷ t) (set-set xs i a b)

  pub get_elem?-In : (xs : List A) (i : ℕ) (a : A) → get_elem? xs i ≡ some a → In a xs
  get_elem?-In [] i a h = absurd (ground (arith, h))
  get_elem?-In (x ∷ xs) zero a h = inl (ground (arith, h))
  get_elem?-In (x ∷ xs) (suc i) a h = inr (get_elem?-In xs i a h)

  pub In-get_elem? : (xs : List A) (a : A) → In a xs → (i : ℕ) × (get_elem? xs i ≡ some a)
  In-get_elem? [] a h = elim h [ ]
  In-get_elem? (x ∷ xs) a (inl e) = (0, ap some (sym e))
  In-get_elem? (x ∷ xs) a (inr h) = let (i, e) = In-get_elem? xs a h in (suc i, e)

  pub All_at {κ} :
      (P : A → Type κ) (xs : List A) (i : ℕ) (a : A) → All P xs → get_elem? xs i ≡ some a → P a
  All_at P [] i a h g = absurd (ground (arith, g))
  All_at P (x ∷ xs) zero a h g = subst P (ground (arith, g)) h.0
  All_at P (x ∷ xs) (suc i) a h g = All_at P xs i a h.1 g

  pub All-set {κ} :
      (P : A → Type κ) (xs : List A) (i : ℕ) (v : A) → All P xs → P v → All P (set xs i v)
  All-set P [] i v h p = h
  All-set P (x ∷ xs) zero v h p = (p, h.1)
  All-set P (x ∷ xs) (suc i) v h p = (h.0, All-set P xs i v h.1 p)

  pub All-map {κ μ} :
      (P : A → Type κ) (Q : A → Type μ) (xs : List A) → ((a : A) → P a → Q a) → All P xs → All Q xs
  All-map P Q [] f h = tt
  All-map P Q (x ∷ xs) f h = (f x h.0, All-map P Q xs f h.1)
