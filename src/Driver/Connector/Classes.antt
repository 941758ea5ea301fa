-- ===== src/Driver/Connector/Classes.antt =====
-- Which driver serves a profile.
use mathlib.Core.Path.{subst}
use daimon.Common.{
  ◌≡◌, refl, sym, ap, ◌⊎◌, inl, inr, true, List, [], ◌∷◌, ◌++◌, In, All, In-append_left,
  In-append_right, Bool-cases,
}
use daimon.Driver.Class.{TargetClass, class_eq}
use daimon.Driver.Class as Class
use daimon.Driver.Profile.{target_class, ConnectorProfile}
use daimon.Driver.Connector.Load.{Group, add_to_groups, group_profiles, first_class}

pub class_eq_refl : (c : TargetClass) → class_eq c c ≡ true
unfolding class_eq
class_eq_refl Class.compute = refl
class_eq_refl Class.network = refl
class_eq_refl Class.storage = refl
class_eq_refl Class.orchestrator = refl
class_eq_refl Class.firewall = refl

class_eq_sound : (c d : TargetClass) → class_eq c d ≡ true → c ≡ d
unfolding class_eq
class_eq_sound Class.compute Class.compute h = refl
class_eq_sound Class.network Class.network h = refl
class_eq_sound Class.storage Class.storage h = refl
class_eq_sound Class.orchestrator Class.orchestrator h = refl
class_eq_sound Class.firewall Class.firewall h = refl
class_eq_sound _ _ h = cc

module _ {V J : Type 0} where
  -- A group has a profile, and each of its profiles is of the class of the group.
  abbrev pub IsGroup : Group V J → Type 0
  IsGroup (c, ps) = (first_class ps ≡ c) × All (λ p. target_class p.class ≡ c) ps

  -- The profile stands in a group.
  abbrev pub Grouped : ConnectorProfile V J → List (Group V J) → Type 0
  Grouped p groups =
      (ps : List (ConnectorProfile V J)) × (In (target_class p.class, ps) groups × In p ps)

  All-append :
      (P : ConnectorProfile V J → Type 0) (ps : List (ConnectorProfile V J))
      (p : ConnectorProfile V J)
      → All P ps
      → P p
      → All P (ps ++ p ∷ [])
  All-append P [] p a h = (h, tt)
  All-append P (q ∷ ps) p a h = (a.0, All-append P ps p a.1 h)

  first_class-append :
      (ps : List (ConnectorProfile V J)) (p : ConnectorProfile V J) (c : TargetClass)
      → first_class ps ≡ c
      → target_class p.class ≡ c
      → first_class (ps ++ p ∷ []) ≡ c
  unfolding first_class
  first_class-append [] p c h k = k
  first_class-append (q ∷ ps) p c h k = h

  add_to_groups-IsGroup :
      (p : ConnectorProfile V J) (groups : List (Group V J))
      → All IsGroup groups
      → All IsGroup (add_to_groups p groups)
  unfolding add_to_groups first_class
  add_to_groups-IsGroup p [] a = ((refl, (refl, tt)), tt)
  add_to_groups-IsGroup p ((c, ps) ∷ groups) a =
      elim (Bool-cases (class_eq c (target_class p.class))) [
        | inl e ↦
            let q : target_class p.class ≡ c = sym (class_eq_sound c (target_class p.class) e) in
            rw (add_to_groups, e)
              (
                (
                  first_class-append ps p c a.0.0 q,
                  All-append (λ x. target_class x.class ≡ c) ps p a.0.1 q,
                ),
                a.1,
              )
        | inr e ↦ rw (add_to_groups, e) (a.0, add_to_groups-IsGroup p groups a.1)
      ]

  -- The new profile is grouped, and those that were stay so.
  add_to_groups-new :
      (p : ConnectorProfile V J) (groups : List (Group V J)) → Grouped p (add_to_groups p groups)
  unfolding add_to_groups
  add_to_groups-new p [] = (p ∷ [], (inl refl, inl refl))
  add_to_groups-new p ((c, ps) ∷ groups) = elim (Bool-cases (class_eq c (target_class p.class))) [
    | inl e ↦
        let q : (target_class p.class, ps ++ p ∷ []) ≡ (c, ps ++ p ∷ []) =
          ap (λ x. (x, ps ++ p ∷ [])) (sym (class_eq_sound c (target_class p.class) e)) in
        rw (add_to_groups, e) (ps ++ p ∷ [], (inl q, In-append_right p ps (p ∷ []) (inl refl)))
    | inr e ↦
        let (qs, (i, j)) = add_to_groups-new p groups in rw (add_to_groups, e) (qs, (inr i, j))
  ]

  add_to_groups-old :
      (p r : ConnectorProfile V J) (groups : List (Group V J))
      → Grouped r groups
      → Grouped r (add_to_groups p groups)
  unfolding add_to_groups
  add_to_groups-old p r [] (qs, (i, j)) = elim i [ ]
  add_to_groups-old p r ((c, ps) ∷ groups) (qs, (inl i, j)) =
      elim (Bool-cases (class_eq c (target_class p.class))) [
        | inl e ↦
            let q : (target_class r.class, ps ++ p ∷ []) ≡ (c, ps ++ p ∷ []) =
              ap (λ g. (g.0, ps ++ p ∷ [])) i in
            rw (add_to_groups, e)
              (
                ps ++ p ∷ [],
                (inl q, In-append_left r ps (p ∷ []) (subst (λ l. In r l) (ap (λ g. g.1) i) j)),
              )
        | inr e ↦ rw (add_to_groups, e) (qs, (inl i, j))
      ]
  add_to_groups-old p r ((c, ps) ∷ groups) (qs, (inr i, j)) =
      elim (Bool-cases (class_eq c (target_class p.class))) [
        | inl e ↦ rw (add_to_groups, e) (qs, (inr i, j))
        | inr e ↦
            let (ts, (k, l)) = add_to_groups-old p r groups (qs, (i, j)) in
            rw (add_to_groups, e) (ts, (inr k, l))
      ]

  pub group_profiles-Grouped :
      (profiles : List (ConnectorProfile V J)) (groups : List (Group V J))
      (r : ConnectorProfile V J)
      → Grouped r groups ⊎ In r profiles
      → Grouped r (group_profiles profiles groups)
  unfolding group_profiles
  group_profiles-Grouped [] groups r (inl g) = g
  group_profiles-Grouped [] groups r (inr i) = elim i [ ]
  group_profiles-Grouped (p ∷ profiles) groups r (inl g) =
      group_profiles-Grouped profiles (add_to_groups p groups) r
        (inl (add_to_groups-old p r groups g))
  group_profiles-Grouped (p ∷ profiles) groups r (inr (inl e)) =
      group_profiles-Grouped profiles (add_to_groups p groups) r
        (inl (subst (λ x. Grouped x (add_to_groups p groups)) (sym e) (add_to_groups-new p groups)))
  group_profiles-Grouped (p ∷ profiles) groups r (inr (inr i)) =
      group_profiles-Grouped profiles (add_to_groups p groups) r (inr i)

  pub group_profiles-IsGroup :
      (profiles : List (ConnectorProfile V J)) (groups : List (Group V J))
      → All IsGroup groups
      → All IsGroup (group_profiles profiles groups)
  unfolding group_profiles
  group_profiles-IsGroup [] groups a = a
  group_profiles-IsGroup (p ∷ profiles) groups a =
      group_profiles-IsGroup profiles (add_to_groups p groups) (add_to_groups-IsGroup p groups a)
