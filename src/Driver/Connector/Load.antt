-- ===== src/Driver/Connector/Load.antt =====
-- From the profiles of a directory to one driver for each class. The files are read and parsed by
-- `std::fs` and `toml`: the profiles are taken as given.
use daimon.Common.{not, Option, none, some, List, [], ◌∷◌, ◌++◌, if◌then◌else◌, map}
use daimon.Common.Text.{Text, codes}
use daimon.Common.Json.{Json}
use daimon.Common.Map.{insert, text_Eq}
use daimon.Core.Capability.{Capability}
use daimon.Broker.Op.{AuthScheme, bearer}
use daimon.Driver.Class.{TargetClass, class_eq}
use daimon.Driver.Class as Class
use daimon.Driver.Profile.{
  ProfileAuth, to_scheme, target_class, ProfileTransport, ProfileCapability, ConnectorProfile,
  project_capability, class_slug,
}
use daimon.Driver.Connector.{DeclaredCap, ConnectorDriver}

unfoldable pub auth_of : Option ProfileAuth → AuthScheme
unfolding to_scheme
auth_of none = bearer
auth_of (some a) = to_scheme a

abbrev pub Group : Type 0 → Type 0 → Type 0
Group V J = TargetClass × List (ConnectorProfile V J)

abbrev pub Loaded : Type 0 → Type 0 → Type 0
Loaded V J = List (Capability V J) × List (Text × DeclaredCap V J)

module _ {V J : Type 0} where
  -- The profile joins the group of its class, or begins one.
  unfoldable pub add_to_groups : ConnectorProfile V J → List (Group V J) → List (Group V J)
  unfolding class_eq target_class
  add_to_groups p [] = (target_class p.class, p ∷ []) ∷ []
  add_to_groups p ((c, ps) ∷ groups) =
      let later = add_to_groups p groups in
      if class_eq c (target_class p.class) then (c, ps ++ p ∷ []) ∷ groups else (c, ps) ∷ later

  unfoldable pub group_profiles : List (ConnectorProfile V J) → List (Group V J) → List (Group V J)
  unfolding add_to_groups
  group_profiles [] groups = groups
  group_profiles (p ∷ profiles) groups = group_profiles profiles (add_to_groups p groups)

  unfoldable pub first_class : List (ConnectorProfile V J) → TargetClass
  unfolding target_class
  first_class [] = Class.compute
  first_class (p ∷ profiles) = target_class p.class

module _ {V : Type 0} (json : Json) where
  -- The loop over the capabilities of a profile.
  unfoldable pub declare_caps :
      AuthScheme
      → ProfileTransport
      → List (ProfileCapability V json.Value)
      → Loaded V json.Value
      → Loaded V json.Value
  unfolding project_capability insert
  declare_caps auth transport [] loaded = loaded
  declare_caps auth transport (c ∷ caps) (capabilities, declared) =
      declare_caps auth transport caps (
        capabilities ++ project_capability json c ∷ [],
        insert c.name (record { cap = c; auth = auth; transport = transport }) declared,
      )

  -- The loop over the profiles: those of another class are skipped.
  unfoldable pub declare_profiles :
      TargetClass → List (ConnectorProfile V json.Value) → Loaded V json.Value → Loaded V json.Value
  unfolding declare_caps class_eq target_class auth_of
  declare_profiles class [] loaded = loaded
  declare_profiles class (p ∷ profiles) loaded = declare_profiles class profiles (
      if not (class_eq (target_class p.class) class)
      then loaded
      else declare_caps (auth_of p.auth) p.transport p.capabilities loaded)

  unfoldable pub from_profiles :
      Text → List (ConnectorProfile V json.Value) → Text → ConnectorDriver V json.Value
  unfolding declare_profiles first_class
  from_profiles id profiles actor_id =
      let loaded = declare_profiles (first_class profiles) profiles ([], []) in
      record {
        id = id;
        class = first_class profiles;
        capabilities = loaded.0;
        declared = loaded.1;
        actor_id = actor_id;
      }

  unfoldable pub driver_of : Text → Text → Group V json.Value → ConnectorDriver V json.Value
  unfolding from_profiles class_slug
  driver_of id_prefix actor_id (class, profiles) =
      from_profiles (id_prefix ++ (codes ":" ++ class_slug class)) profiles actor_id

  unfoldable pub from_dir :
      Text → List (ConnectorProfile V json.Value) → Text → List (ConnectorDriver V json.Value)
  unfolding group_profiles driver_of
  from_dir id_prefix profiles actor_id =
      map (driver_of id_prefix actor_id) (group_profiles profiles [])
