-- ===== src/Runtime/Registry/Laws.antt =====
-- What the capability registry holds after its operations, and what a lookup yields.
use native.Mathlib.Omega.{arith}
use mathlib.Core.Path.{subst}
use daimon.Common.{
  ◌≡◌, refl, sym, ◌⊎◌, inl, inr, Bool, true, Option, none, some, List, [], ◌∷◌, any, filter, In,
  if◌then◌else◌, Bool-cases,
}
use daimon.Common.Text.{Text, text_eq}
use daimon.Common.Map.{text_Eq, values, lookup-insert, lookup-remove}
use daimon.Common.Json.{Json, Semver}
use daimon.Runtime.Registry.{
  Cap, RegistryEntry, CapabilityRegistry, register, unregister, get_entry, satisfies,
  find_by_capability, require_by_capability,
}

filter_sound :
    {A : Type 0} (p : A → Bool) (xs : List A) (a : A) → In a (filter p xs) → In a xs × (p a ≡ true)
filter_sound p [] a i = elim i [ ]
filter_sound p (x ∷ xs) a i = elim (Bool-cases (p x)) [
  | inl e ↦ elim (subst (λ b. In a (if b then x ∷ filter p xs else filter p xs)) e i) [
    | inl q ↦ (inl q, subst (λ y. p y ≡ true) (sym q) e)
    | inr j ↦ let ih = filter_sound p xs a j in (inr ih.0, ih.1)
  ]
  | inr e ↦
      let ih =
        filter_sound p xs a (subst (λ b. In a (if b then x ∷ filter p xs else filter p xs)) e i) in
      (inr ih.0, ih.1)
]

filter_complete :
    {A : Type 0} (p : A → Bool) (xs : List A) (a : A) → In a xs → p a ≡ true → filter p xs ≡ [] → ⊥
filter_complete p [] a i e h = elim i [ ]
filter_complete p (x ∷ xs) a (inl q) e h =
    let k : p x ≡ true = subst (λ y. p y ≡ true) q e in ground (arith, h, k)
filter_complete p (x ∷ xs) a (inr j) e h = elim (Bool-cases (p x)) [
  | inl k ↦ ground (arith, h, k)
  | inr k ↦ filter_complete p xs a j e (ground (arith, h, k))
]

module _ (json : Json) (semver : Semver) where
  -- After `register` the agent has the entry that was registered, after `unregister` it has none, and
  -- every other agent has what it had before.
  pub get_entry-write :
      (agent other : Text) (caps : List (Cap json semver)) (inner : CapabilityRegistry json semver)
      → (get_entry json semver other (register json semver agent caps inner) ≡ (
          if text_eq agent other
          then some (record { agent_id = agent; capabilities = caps })
          else get_entry json semver other inner))
        × (get_entry json semver other (unregister json semver agent inner)
            ≡ (if text_eq agent other then none else get_entry json semver other inner))
  unfolding get_entry register unregister
  get_entry-write agent other caps inner =
      (lookup-insert agent other _ inner, lookup-remove agent other inner)

  -- Some registered agent has a capability of that name in a version that meets the requirement.
  abbrev pub IsProvided :
      Text → semver.Req → CapabilityRegistry json semver → RegistryEntry json semver → Type 0
  IsProvided name req inner e =
      In e (values inner) × (any (satisfies json semver name req) e.capabilities ≡ true)

  -- The registry answers a requirement with a registered agent that provides the capability in a
  -- version that meets it, and with an error only if there is no such agent.
  pub require_by_capability_lem :
      (name : Text) (req : semver.Req) (inner : CapabilityRegistry json semver)
      → ((e : RegistryEntry json semver) × (require_by_capability json semver name req inner
            ≡ some e)
          × IsProvided name req inner e)
        ⊎ ((require_by_capability json semver name req inner ≡ none)
            × ((e : RegistryEntry json semver) → IsProvided name req inner e → ⊥))
  unfolding require_by_capability find_by_capability
  require_by_capability_lem name req inner = go (find_by_capability json semver name req inner) refl
    where
      go :
          (es : List (RegistryEntry json semver))
          → find_by_capability json semver name req inner ≡ es
          → ((e : RegistryEntry json semver) × (elim es [ [] ↦ none | entry ∷ rest ↦ some entry ]
                ≡ some e)
              × IsProvided name req inner e)
            ⊎ ((elim es as (λ _. Option (RegistryEntry json semver)) [
              | [] ↦ none
              | entry ∷ rest ↦ some entry
            ]
                  ≡ none)
                × ((e : RegistryEntry json semver) → IsProvided name req inner e → ⊥))
      go [] q =
          inr (
            refl,
            λ e k. filter_complete _ (values inner) e k.0 k.1 (unfold find_by_capability in q),
          )
      go (x ∷ es) q = inl (
        x,
        refl,
        filter_sound _ (values inner) x
            (subst (In x) (sym (unfold find_by_capability in q)) (inl refl)),
      )
