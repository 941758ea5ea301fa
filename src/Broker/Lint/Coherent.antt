-- ===== src/Broker/Lint/Coherent.antt =====
-- When the lint accepts a set of capabilities.
use native.Mathlib.Omega.{arith}
use mathlib.Core.Path.{subst}
use daimon.Common.{
  ◌≡◌, refl, sym, ◌≢◌, ◌↔◌, inl, inr, true, false, Option, none, some, List, [], ◌∷◌, any, In, All,
  Bool-cases,
}
use daimon.Common.Text.{Text, text_eq, text_eq_sound, text_eq_refl}
use daimon.Common.Result.{Result, ok, err}
use daimon.Core.Capability.{Capability, CompensatingCapability, is_read}
use daimon.Guard.Policy.{Decision, allow, deny, require_approval, evaluate}
use daimon.Guard.PreFlight.{Guard}
use daimon.Broker.Lint.{
  is_allow, dangling, auto_allowed, names, lint_write, lint_cap, lint_from, lint_write_capabilities,
}

-- The compensator of a capability, if it names one, is among those present.
abbrev pub HasCompensator : List Text → Option CompensatingCapability → Type 0
HasCompensator present none = Unit
HasCompensator present (some comp) = In comp.name present

any-In : (n : Text) (ns : List Text) → (any (text_eq n) ns ≡ true) ↔ In n ns
any-In n ns = (sound ns, complete ns)
  where
    sound : (ns : List Text) → any (text_eq n) ns ≡ true → In n ns
    sound [] h = absurd (ground (arith, h))
    sound (m ∷ ms) h = elim (Bool-cases (text_eq n m)) [
      | inl e ↦ inl (text_eq_sound n m e)
      | inr e ↦ inr (sound ms (ground (arith, h, e)))
    ]

    complete : (ns : List Text) → In n ns → any (text_eq n) ns ≡ true
    complete [] i = elim i [ ]
    complete (m ∷ ms) (inl e) = rw (subst (λ x. text_eq n x ≡ true) e (text_eq_refl n)) refl
    complete (m ∷ ms) (inr i) = ground (arith, complete ms i)

dangling-none :
    (present : List Text) (o : Option CompensatingCapability)
    → (dangling present o ≡ none) ↔ HasCompensator present o
unfolding dangling
dangling-none present none = (λ h. tt, λ h. refl)
dangling-none present (some comp) = (
  (λ h. (any-In comp.name present).0 (ground (arith, h))),
  λ i. rw ((any-In comp.name present).1 i) refl,
)

is_allow_iff : (d : Decision) → (is_allow d ≡ false) ↔ (d ≢ allow)
is_allow_iff allow = ((λ h e. ground (arith, h)), λ n. absurd (n refl))
is_allow_iff deny = ((λ h. λ e. cc), λ n. refl)
is_allow_iff require_approval = ((λ h. λ e. cc), λ n. refl)

module _ {V J : Type 0} where
  abbrev pub IsGated : Option Guard → Capability V J → Type 0
  IsGated none cap = Unit
  IsGated (some guard) cap = is_read cap ≡ false → (evaluate guard.policy cap.name).decision ≢ allow

  lint_write_ok :
      (guard : Option Guard) (cap : Capability V J)
      → (lint_write guard cap ≡ ok tt) ↔ IsGated guard cap
  unfolding lint_write auto_allowed
  lint_write_ok none c = ((λ h. tt), λ h. ground arith)
  lint_write_ok (some guard) c = (
    (λ h r. (is_allow_iff (evaluate guard.policy c.name).decision).0 (ground (arith, h, r))),
    λ k. elim (Bool-cases (is_read c)) [
      | inl e ↦ rw e refl
      | inr e ↦ rw (e, (is_allow_iff (evaluate guard.policy c.name).decision).1 (k e)) refl
    ],
  )

  -- What the lint demands of one capability.
  abbrev pub IsCoherent : Option Guard → List Text → Capability V J → Type 0
  IsCoherent guard present cap = HasCompensator present cap.compensating × IsGated guard cap

  lint_cap_ok :
      (guard : Option Guard) (present : List Text) (cap : Capability V J)
      → (lint_cap guard cap (dangling present cap.compensating) ≡ ok tt)
        ↔ IsCoherent guard present cap
  lint_cap_ok guard present cap = (λ h. go (dangling present cap.compensating) refl h, λ k. back k)
    where
      go :
          (o : Option CompensatingCapability)
          → dangling present cap.compensating ≡ o
          → lint_cap guard cap o ≡ ok tt
          → IsCoherent guard present cap
      go none e h = (
        (dangling-none present cap.compensating).0 e,
        (lint_write_ok guard cap).0 (unfold lint_cap in h),
      )
      go (some comp) e h = unfold lint_cap in absurd (ground (arith, h))

      back :
          IsCoherent guard present cap
          → lint_cap guard cap (dangling present cap.compensating) ≡ ok tt
      back (k, l) =
          subst (λ o. lint_cap guard cap o ≡ ok tt)
            (sym ((dangling-none present cap.compensating).1 k))
            (unfold lint_cap in (lint_write_ok guard cap).1 l)

  lint_from_ok :
      (guard : Option Guard) (present : List Text) (caps : List (Capability V J))
      → (lint_from guard present caps ≡ ok tt) ↔ All (IsCoherent guard present) caps
  unfolding lint_from
  lint_from_ok guard present [] = ((λ h. tt), λ h. refl)
  lint_from_ok guard present (cap ∷ caps) = (
    (λ h.
        first (lint_from_ok guard present caps).0
          (lint_cap guard cap (dangling present cap.compensating)) refl h),
    λ k.
        subst (λ r. elim r [ err e ↦ err e | ok u ↦ lint_from guard present caps ] ≡ ok tt)
          (sym ((lint_cap_ok guard present cap).1 k.0)) ((lint_from_ok guard present caps).1 k.1),
  )
    where
      first :
          (lint_from guard present caps ≡ ok tt → All (IsCoherent guard present) caps)
          → (r : Result (Unit {0}) Text)
          → lint_cap guard cap (dangling present cap.compensating) ≡ r
          → elim r [ err e ↦ err e | ok u ↦ lint_from guard present caps ] ≡ ok tt
          → IsCoherent guard present cap × All (IsCoherent guard present) caps
      first ih (err e) q h = absurd (ground (arith, h))
      first ih (ok u) q h = ((lint_cap_ok guard present cap).0 q, ih h)

  -- The lint accepts a set of capabilities exactly when each compensator that one of them names is in
  -- the set and, if there is a guard, no write among them is allowed by its policy.
  pub lint_write_capabilities_iff :
      (guard : Option Guard) (caps : List (Capability V J))
      → (lint_write_capabilities guard caps ≡ ok tt) ↔ All (IsCoherent guard (names caps)) caps
  unfolding lint_write_capabilities
  lint_write_capabilities_iff guard caps = lint_from_ok guard (names caps) caps
