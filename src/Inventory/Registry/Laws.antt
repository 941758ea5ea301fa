-- ===== src/Inventory/Registry/Laws.antt =====
-- The registry against the map that it stands for.
use native.Mathlib.Omega.{arith}
use daimon.Common.{◌≡◌, if◌then◌else◌}
use daimon.Common.Result.{ok, err}
use daimon.Common.Map.{lookup-insert, lookup-remove}
use daimon.Inventory.Refspec.{TargetRef, ref_eq, to_string}
use daimon.Inventory.Target.{ManagedTarget, metadata}
use daimon.Inventory.Registry.{
  InMemoryRegistry, not_found, ref_Eq, get_managed, get_metadata, upsert, remove_target,
}

-- After an upsert the target's own reference yields it, and every other reference what it yielded
-- before; after a removal the removed reference yields `not_found` and the others are unchanged.
pub get_managed-write :
    (r : TargetRef) (t : ManagedTarget) (inner : InMemoryRegistry)
    → (get_managed r (upsert t inner) ≡ (if ref_eq t.ref r then ok t else get_managed r inner))
      × (get_managed r (remove_target t.ref inner).1
          ≡ (if ref_eq t.ref r then err (not_found (to_string r)) else get_managed r inner))
unfolding get_managed upsert remove_target
get_managed-write r t inner =
    (ground (arith, lookup-insert t.ref r t inner), ground (arith, lookup-remove t.ref r inner))

-- A worker's view of a target exists exactly when the broker's does, and is its metadata.
pub get_metadata-get_managed :
    (r : TargetRef) (inner : InMemoryRegistry)
    → get_metadata r inner ≡ elim (get_managed r inner) [ ok t ↦ ok (metadata t) | err e ↦ err e ]
unfolding get_managed get_metadata
get_metadata-get_managed r inner = ground arith
