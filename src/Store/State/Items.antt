-- ===== src/Store/State/Items.antt =====
-- What `deleteKeyUnlocked` of pkg/store/store.go does to each field of the store.
use fast_and_accurate_store.Base.{◌≡◌, none, Bytes, arith, str_eq, if◌then◌else◌}
use fast_and_accurate_store.Base.Table.{lookup, remove, remove_absent, lookup-remove}
use fast_and_accurate_store.Store.State.{Store, delete_key}

module _ (s : Store) (key : Bytes) where
  pub items-delete_key : (delete_key s key).items ≡ remove key s.items
  unfolding delete_key
  items-delete_key = ground (arith, remove_absent key s.items)

  pub max_memory-delete_key : (delete_key s key).max_memory ≡ s.max_memory
  unfolding delete_key
  max_memory-delete_key = ground arith

  pub policy-delete_key : (delete_key s key).eviction_policy ≡ s.eviction_policy
  unfolding delete_key
  policy-delete_key = ground arith

  pub counter-delete_key : (delete_key s key).access_counter ≡ s.access_counter
  unfolding delete_key
  counter-delete_key = ground arith

  pub lru_heap-delete_key : (delete_key s key).lru_heap ≡ s.lru_heap
  unfolding delete_key
  lru_heap-delete_key = ground arith

  pub lfu_heap-delete_key : (delete_key s key).lfu_heap ≡ s.lfu_heap
  unfolding delete_key
  lfu_heap-delete_key = ground arith

  -- Only the deleted key is gone.
  pub lookup-delete_key :
      (j : Bytes)
      → lookup j (delete_key s key).items ≡ (if str_eq key j then none else lookup j s.items)
  lookup-delete_key j = ground (arith, items-delete_key, lookup-remove key j s.items)
