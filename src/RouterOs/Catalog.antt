-- ===== src/RouterOs/Catalog.antt =====
-- The capabilities of the RouterOS driver, and which of them `remediate` takes.
use daimon.Common.{
  ◌≡◌, refl, ◌⊎◌, inl, inr, Bool, true, false, ◌||◌, not, none, some, List, [], ◌∷◌, map, any, All,
}
use daimon.Common.Text.{Text, codes, text_eq, contains, starts_with}
use daimon.Common.Json.{Json, Semver}
use daimon.Core.Capability.{Capability, read_only, is_read, name_is_read, read_markers}
use daimon.Broker.Lint.{names}

unfoldable pub is_write_capability : Text → Bool
unfolding text_eq
is_write_capability capability =
    text_eq capability (codes "network.routeros.firewall_add_drop_rule")
    || (text_eq capability (codes "network.routeros.firewall_remove_rule")
        || (text_eq capability (codes "network.routeros.user_ssh_key_import")
            || text_eq capability (codes "network.routeros.user_ssh_key_remove")))

module _ (json : Json) (semver : Semver) where
  abbrev string_type : Text → Text × json.Value
  string_type name = (name, json.object ((codes "type", json.string (codes "string")) ∷ []))

  -- The schema of an object whose parameters are strings.
  unfoldable pub string_schema : List Text → List Text → json.Value
  string_schema needed properties = json.object (
      (codes "type", json.string (codes "object"))
      ∷ (codes "required", json.array (map (λ n. json.string n) needed))
      ∷ (codes "properties", json.object (map string_type properties))
      ∷ [])

  unfoldable pub build_capabilities : List (Capability semver.Version json.Value)
  unfolding read_only string_schema
  build_capabilities =
      read_only (codes "network.routeros.system_info") (semver.new 1 0 0)
      ∷ read_only (codes "network.routeros.interface_list") (semver.new 1 0 0)
      ∷ read_only (codes "network.routeros.ip_addresses") (semver.new 1 0 0)
      ∷ read_only (codes "network.routeros.firewall_filter_list") (semver.new 1 0 0)
      ∷ record {
        name = codes "network.routeros.firewall_add_drop_rule";
        version = semver.new 1 0 0;
        description = some (
            codes
              "Append a drop-action rule to `/ip firewall filter`. Params: src_address (CIDR), dst_address (CIDR or address-list name), in_interface (optional), comment (optional).");
        schema = some (
            string_schema (codes "dst_address" ∷ []) (
              codes "src_address"
              ∷ codes "dst_address"
              ∷ codes "in_interface"
              ∷ codes "comment"
              ∷ []));
        compensating =
            some
              (record { name = codes "network.routeros.firewall_remove_rule"; version_req = none });
        irreversible = false;
      }
      ∷ record {
        name = codes "network.routeros.user_ssh_key_import";
        version = semver.new 1 0 0;
        description = some (
            codes
              "Import a public SSH key into RouterOS `/user ssh-keys`. Params: user (RouterOS user name), file (basename of the uploaded .pub key on the device).");
        schema =
            some
              (string_schema (codes "user" ∷ codes "file" ∷ []) (codes "user" ∷ codes "file" ∷ []));
        compensating =
            some
              (record { name = codes "network.routeros.user_ssh_key_remove"; version_req = none });
        irreversible = false;
      }
      ∷ record {
        name = codes "network.routeros.user_ssh_key_remove";
        version = semver.new 1 0 0;
        description = some (
            codes
              "Remove an SSH key entry from `/user ssh-keys`. Params: number (the row number from ssh-keys print).");
        schema = some (string_schema (codes "number" ∷ []) (codes "number" ∷ []));
        compensating = none;
        irreversible = true;
      }
      ∷ record {
        name = codes "network.routeros.firewall_remove_rule";
        version = semver.new 1 0 0;
        description =
            some (codes "Remove a rule from `/ip firewall filter` by id or comment match.");
        schema = some (string_schema (codes "match" ∷ []) (codes "match" ∷ []));
        compensating = none;
        irreversible = true;
      }
      ∷ []

  -- A write can be rolled back by a capability of the catalog, or says that it cannot.
  abbrev pub HasInverse : Capability semver.Version json.Value → Type 0
  HasInverse c = elim c.compensating [
    | none ↦ c.irreversible ≡ true
    | some comp ↦
        (is_write_capability comp.name ≡ true)
        × (any (text_eq comp.name) (names build_capabilities) ≡ true)
  ]

  -- For every capability of the driver, the read-only disposition that the broker derives is that
  -- of the driver: the broker takes it for a write exactly when `remediate` takes it. Each write
  -- is irreversible or names a compensator that is in the catalog and is itself a write.
  pub build_capabilities-dispositions :
      All
        (λ c. (is_read c ≡ not (is_write_capability c.name)) × ((is_read c ≡ true) ⊎ HasInverse c))
        build_capabilities
  unfolding is_write_capability is_read name_is_read read_markers contains starts_with read_only
      build_capabilities
  build_capabilities-dispositions = (
    (refl, inl refl),
    (
      (refl, inl refl),
      (
        (refl, inl refl),
        (
          (refl, inl refl),
          (
            (refl, inr (refl, refl)),
            ((refl, inr (refl, refl)), ((refl, inr refl), ((refl, inr refl), tt))),
          ),
        ),
      ),
    ),
  )
