-- ===== src/Runtime/Registry.antt =====
-- crates/daimon-runtime/src/registry.rs: which agents implement which capabilities.
pub mod Laws
use daimon.Common.{Bool, true, false, ◌&&◌, Option, none, some, List, [], ◌∷◌, any, filter}
use daimon.Common.Text.{Text, text_eq}
use daimon.Common.Map.{text_Eq, lookup, insert, remove, values}
use daimon.Common.Json.{Json, Semver}
use daimon.Core.Capability.{Capability}

module _ (json : Json) (semver : Semver) where
  abbrev pub Cap : Type 0
  Cap = Capability semver.Version json.Value

  pub record RegistryEntry : Type 0 where
    pub agent_id : Text
    pub capabilities : List Cap

  abbrev pub CapabilityRegistry : Type 0
  CapabilityRegistry = List (Text × RegistryEntry)

  unfoldable pub register : Text → List Cap → CapabilityRegistry → CapabilityRegistry
  unfolding insert
  register agent_id capabilities inner =
      insert agent_id (record { agent_id = agent_id; capabilities = capabilities }) inner

  unfoldable pub unregister : Text → CapabilityRegistry → CapabilityRegistry
  unfolding remove
  unregister agent_id inner = remove agent_id inner

  unfoldable pub get_entry : Text → CapabilityRegistry → Option RegistryEntry
  unfolding lookup
  get_entry agent_id inner = lookup agent_id inner

  -- The test that the registry and the agents' own filter share.
  unfoldable pub satisfies : Text → semver.Req → Cap → Bool
  satisfies name req cap = text_eq cap.name name && semver.matches req cap.version

  unfoldable pub find_by_capability : Text → semver.Req → CapabilityRegistry → List RegistryEntry
  unfolding satisfies values
  find_by_capability name req inner =
      filter (λ entry. any (satisfies name req) entry.capabilities) (values inner)

  -- `none` is `CapabilityNotFound`.
  unfoldable pub require_by_capability :
      Text → semver.Req → CapabilityRegistry → Option RegistryEntry
  unfolding find_by_capability
  require_by_capability name req inner = elim (find_by_capability name req inner) [
    | [] ↦ none
    | entry ∷ rest ↦ some entry
  ]
