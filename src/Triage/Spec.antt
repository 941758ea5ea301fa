-- ===== src/Triage/Spec.antt =====
-- The window as a function from signatures to the time of their last admission.
use daimon.Common.{
  ℕ, ◌-◌, ◌≡◌, refl, sym, ap, ◌∙◌, inl, inr, Bool, true, false, not, Option, none, some, List, [],
  ◌∷◌, ltb, if◌then◌else◌, Bool-cases,
}
use mathlib.Core.Path.{ap₂}
use daimon.Common.Map.{lookup, lookup-insert}
use daimon.Triage.{Signature, signature_eq, signature_Eq, Dedupe, in_flight, admit}
use daimon.Triage.Window.{admit-ttl}

abbrev pub LastAdmitted : Type 0
LastAdmitted = Signature → Option ℕ

abbrev pub is_fresh : ℕ → ℕ → Option ℕ → Bool
is_fresh ttl now none = true
is_fresh ttl now (some last) = not (ltb (now - last) ttl)

abbrev pub admitted_at : Signature → ℕ → LastAdmitted → LastAdmitted
unfolding signature_eq
admitted_at key now last k = if signature_eq key k then some now else last k

-- The answers to a run of events, by the specification and by the code.
unfoldable pub spec_answers : ℕ → List (Signature × ℕ) → LastAdmitted → List Bool
unfolding admitted_at
spec_answers ttl [] last = []
spec_answers ttl ((key, now) ∷ rest) last =
    let fresh = is_fresh ttl now (last key) in
    fresh ∷ spec_answers ttl rest (if fresh then admitted_at key now last else last)

unfoldable pub answers : List (Signature × ℕ) → Dedupe → List Bool
unfolding admit
answers [] d = []
answers ((key, now) ∷ rest) d = (admit key now d).0 ∷ answers rest (admit key now d).1

-- The map holds what the function says.
abbrev pub Represents : Dedupe → LastAdmitted → Type 0
Represents d last = (k : Signature) → lookup k d.seen ≡ last k

fresh_in_flight : (ttl now : ℕ) (o : Option ℕ) → not (in_flight ttl now o) ≡ is_fresh ttl now o
unfolding in_flight
fresh_in_flight ttl now none = refl
fresh_in_flight ttl now (some u) = refl

admit-Represents :
    (key : Signature) (now : ℕ) (d : Dedupe) (last : LastAdmitted) (fresh : Bool)
    → Represents d last
    → not (in_flight d.dedupe_ttl now (lookup key d.seen)) ≡ fresh
    → ((admit key now d).0 ≡ fresh)
      × Represents (admit key now d).1 (if fresh then admitted_at key now last else last)
unfolding admit admitted_at
admit-Represents key now d last fresh r h =
    elim (Bool-cases (in_flight d.dedupe_ttl now (lookup key d.seen))) [
      | inl e ↦ let q : false ≡ fresh = ap not (sym e) ∙ h in rw (admit, e, sym q) (refl, r)
      | inr e ↦
          let q : true ≡ fresh = ap not (sym e) ∙ h in
          rw (admit, e, sym q)
            (
              refl,
              λ k.
                  lookup-insert key k now d.seen
                  ∙ ap (λ o. if signature_eq key k then some now else o) (r k),
            )
    ]

-- The code answers a run of events as the specification does: a signature is admitted when it was
-- never admitted, or when the window has passed since it was last admitted.
pub answers-spec_answers :
    (events : List (Signature × ℕ)) (d : Dedupe) (last : LastAdmitted)
    → Represents d last
    → answers events d ≡ spec_answers d.dedupe_ttl events last
unfolding answers spec_answers
answers-spec_answers [] d last r = refl
answers-spec_answers ((key, now) ∷ rest) d last r =
    let fresh = is_fresh d.dedupe_ttl now (last key) in
    let h : not (in_flight d.dedupe_ttl now (lookup key d.seen)) ≡ fresh =
      fresh_in_flight d.dedupe_ttl now (lookup key d.seen)
      ∙ ap (is_fresh d.dedupe_ttl now) (r key) in
    let (same, later) = admit-Represents key now d last fresh r h in
    let next = if fresh then admitted_at key now last else last in
    ap₂ (λ x xs. x ∷ xs) same
      (answers-spec_answers rest (admit key now d).1 next later
        ∙ ap (λ t. spec_answers t rest next) (admit-ttl key now d))
