-- ===== src/Driver/Render/Chars.antt =====
-- The characters of what `substitute` gives.
use mathlib.Core.Path.{subst}
use daimon.Common.{
  ℕ, zero, suc, ◌≡◌, refl, inl, inr, Bool, true, false, Option, none, some, [], ◌∷◌, ◌++◌, length,
  if◌then◌else◌, ◌≤◌, ◌&&◌, all, All, Bool-cases, Option-cases, ◌==◌, &&-elim, &&-intro, arith,
}
use daimon.Common.Text.{Text, split_at, text_eq}
use daimon.Common.Result.{ok, err}
use daimon.Common.Map.{lookup, text_Eq}
use daimon.Driver.Render.Substitute.{Short, split_at-Short}
use daimon.Driver.Render.{Validated, Out, fill, turn, substitute_loop, substitute}

module _ (p : ℕ → Bool) where
  abbrev IsMade : Text → Type 0
  IsMade t = all p t ≡ true

  -- Of a result, when there is one.
  abbrev IsMadeOut : Out → Type 0
  IsMadeOut (ok t) = IsMade t
  IsMadeOut (err e) = Unit

  abbrev IsMadeRest : Option Text → Type 0
  IsMadeRest none = Unit
  IsMadeRest (some t) = IsMade t

  IsMade-append : (s t : Text) → IsMade s → IsMade t → IsMade (s ++ t)
  IsMade-append [] t h k = k
  IsMade-append (c ∷ s) t h k =
      &&-intro _ _ (&&-elim _ _ h).0 (IsMade-append s t (&&-elim _ _ h).1 k)

  -- The characters of a template outside its slots have the property; `slot` says whether the text
  -- begins inside a slot.
  unfoldable pub literals : (slot : Bool) → Text → Bool
  literals slot [] = true
  literals false (c ∷ s) =
      let inside = literals true s in
      let outside = literals false s in if c == b'{' then inside else p c && outside
  literals true (c ∷ s) =
      let inside = literals true s in
      let outside = literals false s in if c == b'}' then outside else inside

  -- What follows a separator.
  abbrev Goes : Bool → Option Text → Type 0
  Goes slot none = Unit
  Goes slot (some t) = literals slot t ≡ true

  split_at-open :
      (s : Text)
      → literals false s ≡ true
      → IsMade (split_at b'{' s).0 × Goes true (split_at b'{' s).1
  unfolding split_at literals
  split_at-open [] h = (refl, tt)
  split_at-open (c ∷ s) h = elim (Bool-cases (c == b'{')) [
    | inl e ↦ rw (split_at, e) (refl, ground (arith, h, e))
    | inr e ↦
        let k : (p c && literals false s) ≡ true = ground (arith, h, e) in
        let (b, r) = split_at-open s (&&-elim _ _ k).1 in
        rw (split_at, e) (&&-intro _ _ (&&-elim _ _ k).0 b, r)
  ]

  split_at-close : (s : Text) → literals true s ≡ true → Goes false (split_at b'}' s).1
  unfolding split_at literals
  split_at-close [] h = tt
  split_at-close (c ∷ s) h = elim (Bool-cases (c == b'}')) [
    | inl e ↦ rw (split_at, e) (ground (arith, h, e))
    | inr e ↦ rw (split_at, e) (split_at-close s (ground (arith, h, e)))
  ]

  lookup-IsMade :
      (m : Validated) → All (λ kv. IsMade kv.1) m → (name : Text) → IsMadeRest (lookup name m)
  unfolding lookup
  lookup-IsMade [] h name = tt
  lookup-IsMade ((k, v) ∷ m) h name = elim (Bool-cases (text_eq k name)) [
    | inl e ↦ rw (lookup, e) h.0
    | inr e ↦ rw (lookup, e) (lookup-IsMade m h.1 name)
  ]

  module _ (capability : Text) (validated : Validated)
      (values : All (λ kv. IsMade kv.1) validated) where
    -- The loop over texts shorter than `n`.
    abbrev Carries : ℕ → (Text → Text → Out) → Type 0
    Carries n next =
        (out rest : Text)
        → suc (length rest) ≤ n
        → IsMade out
        → literals false rest ≡ true
        → IsMadeOut (next out rest)

    fill-IsMade :
        (next : Text → Text → Out) (n : ℕ)
        → Carries n next
        → (out : Text) (q : Text × Option Text) → Short n q.1
        → IsMade out
        → Goes false q.1
        → IsMadeOut (fill next capability validated out q)
    unfolding fill
    fill-IsMade next n k out (name, none) l h r = tt
    fill-IsMade next n k out (name, some after) l h r =
        let v = lookup-IsMade validated values name in
        elim (Option-cases (lookup name validated)) [
          | inl e ↦ rw (fill, e) tt
          | inr (value, e) ↦
              rw (fill, e) (k (out ++ value) after l (IsMade-append out value h (rw e at v)) r)
        ]

    turn-IsMade :
        (next : Text → Text → Out) (n : ℕ)
        → Carries n next
        → (out : Text) (q : Text × Option Text) → Short n q.1
        → IsMade out
        → IsMade q.0
        → Goes true q.1
        → IsMadeOut (turn next capability validated out q)
    unfolding turn
    turn-IsMade next n k out (before, none) l h b r = IsMade-append out before h b
    turn-IsMade next n k out (before, some after) l h b r =
        fill-IsMade next (length after) (λ o t m. k o t (omega (arith, m, l))) (out ++ before)
          (split_at b'}' after) (split_at-Short b'}' after) (IsMade-append out before h b)
          (split_at-close after r)

    substitute_loop-IsMade :
        (n : ℕ) (out rest : Text)
        → length rest ≤ n
        → IsMade out
        → literals false rest ≡ true
        → IsMadeOut (substitute_loop n capability validated out rest)
    unfolding substitute_loop
    substitute_loop-IsMade zero out [] l h k = IsMade-append out [] h refl
    substitute_loop-IsMade zero out (c ∷ rest) l h k = absurd (omega (arith, l))
    substitute_loop-IsMade (suc n) out rest l h k =
        let (b, r) = split_at-open rest k in
        turn-IsMade _ (length rest) (λ o t m. substitute_loop-IsMade n o t (omega (arith, m, l)))
          out (split_at b'{' rest) (split_at-Short b'{' rest) h b r

    -- What `substitute` gives is made of the text of the template outside its slots and of the
    -- values alone: a property that their characters have, the characters of the result have.
    pub substitute-chars :
        (template out : Text)
        → literals false template ≡ true
        → substitute template capability validated ≡ ok out
        → all p out ≡ true
    unfolding substitute
    substitute-chars template out h e =
        let k = substitute_loop-IsMade (length template) [] template (omega arith) refl h in
        made (substitute template capability validated) k e
      where
        made : (r : Out) → IsMadeOut r → r ≡ ok out → all p out ≡ true
        made (ok t) k q = let s : t ≡ out = ground (arith, q) in subst IsMade s k
        made (err x) k q = absurd (ground (arith, q))
