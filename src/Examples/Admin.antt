-- ===== src/Examples/Admin.antt =====
-- The administration of a vault with two credentials, over the in-memory registry of targets.
use daimon.Common.{◌≡◌, refl, true, none, List, [], ◌∷◌, ◌++◌, map}
use daimon.Common.Text.{Text, codes, text_eq}
use daimon.Common.Result.{ok, err, ok_or}
use daimon.Common.Map.{lookup, insert, text_Eq}
use daimon.Inventory.Registry.{
  InventoryError, not_found, other, InMemoryRegistry, list, get_metadata, get_managed, upsert,
  remove_target,
}
use daimon.Broker.Admin.{Vault, Inventory, Parts, State}
use daimon.Broker.Admin.Trail.{
  Call, reveal, create, rename, get_managed as get_managed_call, run, run_all, entry_of,
  run_all-trail,
}
use daimon.Broker.Admin.Opaque.{revealed, run-opaque}

abbrev Secrets : Type 0
Secrets = List (Text × Text)

-- A vault whose credentials are texts, and which gives every new one the same id.
abbrev vaults : Vault
vaults = record {
  Store = Secrets;
  Credential = Text;
  CredentialMetadata = Text;
  VaultError = Unit {0};
  list_metadata = λ d. ok (map (λ e. e.0) d);
  reveal = λ id d. ok_or (lookup (id ∷ []) d) tt;
  create = λ name cred d. (ok 9, insert (9 ∷ []) cred d);
  update = λ id cred d. (ok tt, insert (id ∷ []) cred d);
  rename = λ id name d. (err tt, d);
  delete = λ id d. (err tt, d);
  show_kind = λ cred. codes "token";
  show_error = λ e. codes "not found";
}

abbrev show : InventoryError → Text
show (not_found t) = t
show (other t) = t

abbrev targets : Inventory
unfolding list get_metadata get_managed upsert remove_target
targets = record {
  Store = InMemoryRegistry;
  list = list;
  get_metadata = get_metadata;
  get_managed = get_managed;
  upsert = λ t d. (ok tt, upsert t d);
  remove = remove_target;
  show_error = show;
}

abbrev parts : Parts
parts = record {
  vault_admin = true;
  audit_sink = true;
  append = λ ev. none;
  elapsed_ms = 3;
  show_id = λ id. id ∷ [];
}

abbrev holding : Text → State vaults targets
unfolding targets
holding secret = record { credentials = (7 ∷ [], secret) ∷ []; managed = []; events = [] }

abbrev calls : List (Text × Call Text)
calls =
    (codes "root", create (codes "r1") (codes "s3cret"))
    ∷ (codes "ops", reveal 9)
    ∷ (codes "root", rename 9 (codes "r2"))
    ∷ (codes "ops", get_managed_call (record { name = codes "r1" }))
    ∷ []

run_all-trail_example :
    map entry_of (run_all vaults targets parts calls (holding (codes "a"))).1.events
    ≡ [] ++ (run_all vaults targets parts calls (holding (codes "a"))).0
unfolding targets
run_all-trail_example =
    run_all-trail vaults targets parts calls (holding (codes "a")) refl refl (λ ev. refl)

run-opaque_example :
    (run vaults targets parts (codes "ops") (reveal 7) (holding (codes "a"))).1.events
    ≡ (run vaults targets parts (codes "ops") (reveal 7) (holding (codes "b"))).1.events
unfolding targets lookup text_eq
run-opaque_example =
    run-opaque vaults targets parts (codes "ops") (reveal 7) (reveal 7) (holding (codes "a"))
      (holding (codes "b")) (revealed 7 (codes "a") (codes "b") refl refl) refl
