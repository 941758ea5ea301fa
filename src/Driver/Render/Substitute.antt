-- ===== src/Driver/Render/Substitute.antt =====
-- The substitution of parameters in a template: its loop and the fuel of it.
use daimon.Common.{
  ℕ, zero, suc, ◌≤◌, ◌≡◌, refl, inl, inr, Option, none, some, [], ◌∷◌, ◌++◌, length, Bool-cases,
  Option-cases, ◌==◌, arith,
}
use daimon.Common.Text.{Text, split_at}
use daimon.Common.Map.{lookup, text_Eq}
use daimon.Driver.Render.{Validated, Out, fill, turn, substitute_loop}

-- What follows the separator, when there is one, is shorter than `n`.
abbrev pub Short : ℕ → Option Text → Type 0
Short n none = Unit
Short n (some after) = suc (length after) ≤ n

Short-suc : (n : ℕ) (o : Option Text) → Short n o → Short (suc n) o
Short-suc n none h = tt
Short-suc n (some after) h = omega (arith, h)

pub split_at-Short : (n : ℕ) (s : Text) → Short (length s) (split_at n s).1
unfolding split_at
split_at-Short n [] = tt
split_at-Short n (c ∷ s) = elim (Bool-cases (c == n)) [
  | inl e ↦ rw (split_at, e) (omega arith)
  | inr e ↦ rw (split_at, e) (Short-suc (length s) (split_at n s).1 (split_at-Short n s))
]

module _ (capability : Text) (validated : Validated) where
  abbrev Next : Type 0
  Next = Text → Text → Out

  -- Two continuations agree on the texts shorter than `n`.
  abbrev Agree : ℕ → Next → Next → Type 0
  Agree n f g = (out rest : Text) → suc (length rest) ≤ n → f out rest ≡ g out rest

  fill-Agree :
      (f g : Next) (n : ℕ) (out : Text) (p : Text × Option Text)
      → Short n p.1
      → Agree n f g
      → fill f capability validated out p ≡ fill g capability validated out p
  unfolding fill
  fill-Agree f g n out (name, none) h k = refl
  fill-Agree f g n out (name, some after) h k = elim (Option-cases (lookup name validated)) [
    | inl e ↦ rw (fill, e) refl
    | inr (v, e) ↦ rw (fill, e) (k (out ++ v) after h)
  ]

  turn-Agree :
      (f g : Next) (n : ℕ) (out : Text) (p : Text × Option Text)
      → Short n p.1
      → Agree n f g
      → turn f capability validated out p ≡ turn g capability validated out p
  unfolding turn
  turn-Agree f g n out (before, none) h k = refl
  turn-Agree f g n out (before, some after) h k =
      fill-Agree f g (length after) (out ++ before) (split_at b'}' after)
        (split_at-Short b'}' after) (λ o r q. k o r (omega (arith, q, h)))

  substitute_loop-fuel :
      (m n : ℕ) (out rest : Text)
      → length rest ≤ m
      → length rest ≤ n
      → substitute_loop m capability validated out rest
        ≡ substitute_loop n capability validated out rest
  unfolding substitute_loop turn split_at
  substitute_loop-fuel zero zero out rest h k = refl
  substitute_loop-fuel zero (suc n) out [] h k = refl
  substitute_loop-fuel zero (suc n) out (c ∷ rest) h k = absurd (omega (arith, h))
  substitute_loop-fuel (suc m) zero out [] h k = refl
  substitute_loop-fuel (suc m) zero out (c ∷ rest) h k = absurd (omega (arith, k))
  substitute_loop-fuel (suc m) (suc n) out rest h k =
      turn-Agree _ _ (length rest) out (split_at b'{' rest) (split_at-Short b'{' rest)
        (λ o r q. substitute_loop-fuel m n o r (omega (arith, q, h)) (omega (arith, q, k)))

  -- The fuel of `substitute`, the length of what is left, never runs out: the loop over any text is
  -- one turn, and then the loop over what that turn leaves.
  pub substitute_loop-turn :
      (out rest : Text)
      → substitute_loop (length rest) capability validated out rest
        ≡ turn
            (λ o r. substitute_loop (length r) capability validated o r)
            capability
            validated
            out
            (split_at b'{' rest)
  unfolding substitute_loop turn split_at
  substitute_loop-turn out [] = refl
  substitute_loop-turn out (c ∷ rest) =
      turn-Agree _ _ (length (c ∷ rest)) out (split_at b'{' (c ∷ rest))
        (split_at-Short b'{' (c ∷ rest))
        (λ o r q.
          substitute_loop-fuel (length rest) (length r) o r (omega (arith, q)) (omega arith))
