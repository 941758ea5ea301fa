-- ===== src/Driver/Render/Template.antt =====
-- What `substitute` makes of a template that is given by its slots.
use mathlib.Core.List.{append_assoc}
use daimon.Common.{
  ℕ, ◌≡◌, refl, ap, ◌∙◌, inl, inr, false, Option, none, some, List, [], ◌∷◌, ◌++◌, length,
  Bool-cases, ◌==◌, arith,
}
use daimon.Common.Text.{Text, split_at, contains_char}
use daimon.Common.Result.{ok, err}
use daimon.Common.Map.{lookup, text_Eq}
use daimon.Driver.Profile.{missing_param}
use daimon.Driver.Render.{Validated, Out, fill, turn, substitute_loop, substitute}
use daimon.Driver.Render.Substitute.{substitute_loop-turn}

-- A text, and then slots, each with the text that follows it.
abbrev pub template : Text → List (Text × Text) → Text
template t [] = t
template t ((name, u) ∷ slots) = t ++ (b'{' ∷ (name ++ (b'}' ∷ template u slots)))

-- No text has an opening brace and no name a closing one.
abbrev pub IsTemplate : Text → List (Text × Text) → Type 0
IsTemplate t [] = contains_char t b'{' ≡ false
IsTemplate t ((name, u) ∷ slots) =
    (contains_char t b'{' ≡ false) × (contains_char name b'}' ≡ false) × IsTemplate u slots

split_at-none : (c : ℕ) (t : Text) → contains_char t c ≡ false → split_at c t ≡ (t, none)
unfolding split_at contains_char
split_at-none c [] h = refl
split_at-none c (d ∷ t) h = elim (Bool-cases (d == c)) [
  | inl e ↦ absurd (ground (arith, h, e))
  | inr e ↦ rw (split_at, e, split_at-none c t (ground (arith, h, e))) refl
]

split_at-append :
    (c : ℕ) (t rest : Text)
    → contains_char t c ≡ false
    → split_at c (t ++ (c ∷ rest)) ≡ (t, some rest)
unfolding split_at contains_char
split_at-append c [] rest h = elim (Bool-cases (c == c)) [
  | inl e ↦ rw (split_at, e) refl
  | inr e ↦ absurd (ground (arith, e))
]
split_at-append c (d ∷ t) rest h = elim (Bool-cases (d == c)) [
  | inl e ↦ absurd (ground (arith, h, e))
  | inr e ↦ rw (split_at, e, split_at-append c t rest (ground (arith, h, e))) refl
]

module _ (capability : Text) (validated : Validated) where
  -- Each slot gives way to the value of its name; the first name without a value is the error.
  abbrev pub filled : Text → List (Text × Text) → Out
  filled t [] = ok t
  filled t ((name, u) ∷ slots) = elim (lookup name validated) [
    | none ↦ err (missing_param capability name)
    | some v ↦ elim (filled u slots) [ ok s ↦ ok (t ++ (v ++ s)) | err e ↦ err e ]
  ]

  abbrev after : Text → Out → Out
  after out (ok s) = ok (out ++ s)
  after out (err e) = err e

  after-filled :
      (out t v : Text) (r : Out)
      → after ((out ++ t) ++ v) r ≡ after out (elim r [ ok s ↦ ok (t ++ (v ++ s)) | err e ↦ err e ])
  after-filled out t v (ok s) =
      ap (λ x. ok x) (append_assoc (out ++ t) v s ∙ append_assoc out t (v ++ s))
  after-filled out t v (err e) = refl

  loop-filled :
      (out t : Text) (slots : List (Text × Text))
      → IsTemplate t slots
      → substitute_loop (length (template t slots)) capability validated out (template t slots)
        ≡ after out (filled t slots)
  loop-filled out t [] h =
      substitute_loop-turn capability validated out t
      ∙ (ap
            (turn (λ o r. substitute_loop (length r) capability validated o r) capability validated
              out)
            (split_at-none b'{' t h)
          ∙ unfold turn in refl)
  loop-filled out t ((name, u) ∷ slots) (h, k, m) =
      let rest = template u slots in
      let next : Text → Text → Out = λ o r. substitute_loop (length r) capability validated o r in
      let opened : turn next capability validated out (t, some (name ++ (b'}' ∷ rest)))
          ≡ fill next capability validated (out ++ t) (split_at b'}' (name ++ (b'}' ∷ rest))) =
        unfold turn in refl in
      substitute_loop-turn capability validated out (template t ((name, u) ∷ slots))
      ∙ (ap (turn next capability validated out) (split_at-append b'{' t (name ++ (b'}' ∷ rest)) h)
          ∙ (opened
              ∙ (ap (fill next capability validated (out ++ t)) (split_at-append b'}' name rest k)
                  ∙ valued (lookup name validated) refl (λ o. loop-filled o u slots m))))
    where
      valued :
          (o : Option Text)
          → lookup name validated ≡ o
          → ((x : Text)
              → substitute_loop
                  (length (template u slots))
                  capability
                  validated
                  x
                  (template u slots)
                ≡ after x (filled u slots))
          → fill
              (λ o r. substitute_loop (length r) capability validated o r)
              capability
              validated
              (out ++ t)
              (name, some (template u slots))
            ≡ after out (elim o as (λ _. Out) [
              | none ↦ err (missing_param capability name)
              | some v ↦ elim (filled u slots) [ ok s ↦ ok (t ++ (v ++ s)) | err e ↦ err e ]
            ])
      valued none e rec = unfold fill in rw (fill, e) refl
      valued (some v) e rec =
          unfold fill in
          rw (fill, e) (rec ((out ++ t) ++ v) ∙ after-filled out t v (filled u slots))

  after-nothing : (r : Out) → after [] r ≡ r
  after-nothing (ok s) = refl
  after-nothing (err e) = refl

  -- In a template of texts without `{` and slots `{name}`, each slot gives way to the validated value
  -- of its name and everything else stays; if a name has no value, the result is the error that names
  -- the first such name.
  pub substitute-filled :
      (t : Text) (slots : List (Text × Text))
      → IsTemplate t slots
      → substitute (template t slots) capability validated ≡ filled t slots
  unfolding substitute
  substitute-filled t slots h = loop-filled [] t slots h ∙ after-nothing (filled t slots)
