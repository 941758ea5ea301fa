-- ===== src/Inventory/Registry.antt =====
-- crates/daimon-inventory/src/registry.rs: the in-memory registry, which implements `Inventory`.
pub mod Laws
use daimon.Common.{◌≡◌, Bool, true, false, Option, none, some, List, [], ◌∷◌, map, filter}
use daimon.Common.Text.{Text, text_eq, text_eq_sound, text_eq_complete}
use daimon.Common.Result.{Result, ok, err, ok_or}
use daimon.Common.Map.{Eq, lookup, insert, remove, values}
use daimon.Inventory.Refspec.{TargetRef, to_string, ref_eq}
use daimon.Inventory.Target.{TargetKind, TargetMetadata, ManagedTarget, metadata, kind_eq}

pub data InventoryError : Type 0 where
  not_found other : Text → InventoryError

pub ref_eq_iff :
    (a b : TargetRef) → ((ref_eq a b ≡ true) → (a ≡ b)) × ((a ≡ b) → (ref_eq a b ≡ true))
unfolding ref_eq
ref_eq_iff a b = (
  λ h i. record { name = text_eq_sound a.name b.name h i },
  λ e. text_eq_complete a.name b.name (λ i. (e i).name),
)

instance abbrev pub ref_Eq : Eq TargetRef
ref_Eq = record { beq = ref_eq; beq_iff = λ a b. ref_eq_iff a b }

abbrev pub InMemoryRegistry : Type 0
InMemoryRegistry = List (TargetRef × ManagedTarget)

unfoldable pub get_metadata : TargetRef → InMemoryRegistry → Result TargetMetadata InventoryError
unfolding metadata to_string
get_metadata r inner = elim (lookup r inner) [
  | none ↦ err (not_found (to_string r))
  | some t ↦ ok (metadata t)
]

unfoldable pub get_managed : TargetRef → InMemoryRegistry → Result ManagedTarget InventoryError
unfolding to_string
get_managed r inner = ok_or (lookup r inner) (not_found (to_string r))

abbrev kind_passes : Option TargetKind → ManagedTarget → Bool
kind_passes none t = true
kind_passes (some k) t = kind_eq t.kind k

unfoldable pub list : Option TargetKind → InMemoryRegistry → List TargetMetadata
unfolding kind_eq metadata values
list kind_filter inner = map metadata (filter (kind_passes kind_filter) (values inner))

unfoldable pub upsert : ManagedTarget → InMemoryRegistry → InMemoryRegistry
unfolding insert
upsert t inner = insert t.ref t inner

-- `remove` of the map tells whether there was an entry.
unfoldable pub remove_target :
    TargetRef → InMemoryRegistry → Result (Unit {0}) InventoryError × InMemoryRegistry
unfolding to_string remove
remove_target r inner = (
  elim (lookup r inner) [ none ↦ err (not_found (to_string r)) | some t ↦ ok tt ],
  remove r inner,
)
