-- ===== src/Driver/Connector/Served.antt =====
-- No profile of a directory is left out.
use mathlib.Core.Path.{subst}
use daimon.Common.{
  ◌≡◌, refl, sym, ap, ◌⊎◌, inl, inr, true, List, [], ◌∷◌, ◌++◌, map, In, All, In-append_left,
  In-append_right, Bool-cases,
}
use daimon.Common.Text.{Text, codes}
use daimon.Common.Json.{Json}
use daimon.Common.Map.{text_Eq}
use daimon.Broker.Op.{AuthScheme}
use daimon.Driver.Class.{TargetClass, class_eq}
use daimon.Driver.Profile.{
  target_class, ProfileTransport, ProfileCapability, ConnectorProfile, project_capability,
  class_slug,
}
use daimon.Driver.Connector.{ConnectorDriver}
use daimon.Driver.Connector.Load.{
  Loaded, group_profiles, auth_of, declare_caps, declare_profiles, first_class, driver_of,
  from_profiles, from_dir,
}
use daimon.Driver.Connector.Classes.{
  class_eq_refl, IsGroup, group_profiles-Grouped, group_profiles-IsGroup,
}

In-map : {A B : Type 0} (f : A → B) (a : A) (xs : List A) → In a xs → In (f a) (map f xs)
In-map f a [] i = elim i [ ]
In-map f a (x ∷ xs) (inl e) = inl (ap f e)
In-map f a (x ∷ xs) (inr i) = inr (In-map f a xs i)

All-In : {A : Type 0} (P : A → Type 0) (a : A) (xs : List A) → All P xs → In a xs → P a
All-In P a [] h i = elim i [ ]
All-In P a (x ∷ xs) h (inl e) = subst P (sym e) h.0
All-In P a (x ∷ xs) h (inr i) = All-In P a xs h.1 i

module _ {V : Type 0} (json : Json) where
  -- The capability of a block is among those loaded.
  abbrev Has : ProfileCapability V json.Value → Loaded V json.Value → Type 0
  unfolding project_capability
  Has c loaded = In (project_capability json c) loaded.0

  declare_caps-Has :
      (auth : AuthScheme) (transport : ProfileTransport) (c : ProfileCapability V json.Value)
      (caps : List (ProfileCapability V json.Value)) (loaded : Loaded V json.Value)
      → Has c loaded ⊎ In c caps
      → Has c (declare_caps json auth transport caps loaded)
  unfolding declare_caps
  declare_caps-Has auth transport c [] loaded (inl h) = h
  declare_caps-Has auth transport c [] loaded (inr i) = elim i [ ]
  declare_caps-Has auth transport c (d ∷ caps) (capabilities, declared) (inl h) =
      declare_caps-Has auth transport c caps _ (inl (In-append_left _ capabilities _ h))
  declare_caps-Has auth transport c (d ∷ caps) (capabilities, declared) (inr (inl e)) =
      declare_caps-Has auth transport c caps _
        (inl (In-append_right _ capabilities _ (inl (ap (project_capability json) e))))
  declare_caps-Has auth transport c (d ∷ caps) (capabilities, declared) (inr (inr i)) =
      declare_caps-Has auth transport c caps _ (inr i)

  declare_profiles-Has :
      (class : TargetClass) (p : ConnectorProfile V json.Value) (c : ProfileCapability V json.Value)
      (profiles : List (ConnectorProfile V json.Value)) (loaded : Loaded V json.Value)
      → target_class p.class ≡ class
      → In c p.capabilities
      → Has c loaded ⊎ In p profiles
      → Has c (declare_profiles json class profiles loaded)
  unfolding declare_profiles
  declare_profiles-Has class p c [] loaded k m (inl h) = h
  declare_profiles-Has class p c [] loaded k m (inr i) = elim i [ ]
  declare_profiles-Has class p c (q ∷ profiles) loaded k m (inl h) =
      declare_profiles-Has class p c profiles _ k m (
        inl (elim (Bool-cases (class_eq (target_class q.class) class)) [
          | inl e ↦
              rw e (declare_caps-Has (auth_of q.auth) q.transport c q.capabilities loaded (inl h))
          | inr e ↦ rw e h
        ]))
  declare_profiles-Has class p c (q ∷ profiles) loaded k m (inr (inl e)) =
      let same : class_eq (target_class q.class) class ≡ true =
        subst (λ x. class_eq (target_class x.class) class ≡ true) e
          (subst (λ x. class_eq (target_class p.class) x ≡ true) k
            (class_eq_refl (target_class p.class))) in
      declare_profiles-Has class p c profiles _ k m (
        inl (
          rw same (
            declare_caps-Has (auth_of q.auth) q.transport c q.capabilities loaded
              (inr (subst (λ x. In c x.capabilities) e m)))))
  declare_profiles-Has class p c (q ∷ profiles) loaded k m (inr (inr i)) =
      declare_profiles-Has class p c profiles _ k m (inr i)

  -- Each capability of each profile of a directory is registered by a driver of the class of its
  -- profile, whose id ends with the name of that class: no profile is skipped.
  pub from_dir-serves :
      (id_prefix actor_id : Text) (profiles : List (ConnectorProfile V json.Value))
      (p : ConnectorProfile V json.Value) (c : ProfileCapability V json.Value)
      → In p profiles
      → In c p.capabilities
      → (d : ConnectorDriver V json.Value) × In d (from_dir json id_prefix profiles actor_id)
        × (d.class ≡ target_class p.class)
        × (d.id ≡ id_prefix ++ (codes ":" ++ class_slug (target_class p.class)))
        × In (project_capability json c) d.capabilities
  unfolding from_dir from_profiles
  from_dir-serves id_prefix actor_id profiles p c i m =
      let (ps, (g, j)) = group_profiles-Grouped profiles [] p (inr i) in
      let k : IsGroup (target_class p.class, ps) =
        All-In IsGroup (target_class p.class, ps) (group_profiles profiles [])
          (group_profiles-IsGroup profiles [] tt) g in
      (
        driver_of json id_prefix actor_id (target_class p.class, ps),
        In-map (driver_of json id_prefix actor_id) (target_class p.class, ps)
            (group_profiles profiles []) g,
        k.0,
        refl,
        declare_profiles-Has (first_class ps) p c ps ([], []) (sym k.0) m (inr j),
      )
