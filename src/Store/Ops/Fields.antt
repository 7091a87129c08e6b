-- ===== src/Store/Ops/Fields.antt =====
-- What the operations of pkg/store/store.go do to the fields of the store.
use fast_and_accurate_store.Base.{
  ℕ, ◌≡◌, Option, none, some, Bytes, arith, add64, sub64, str_eq, if◌then◌else◌,
}
use fast_and_accurate_store.Base.Table.{lookup, insert, lookup-insert}
use fast_and_accurate_store.Store.Types.{Item}
use fast_and_accurate_store.Store.State.{Store, push_heaps}
use fast_and_accurate_store.Store.Ops.{
  new_item, forget_old, store_item, set_entry, next_access_id, touch,
}

-- The used memory without what a key holds.
unfoldable pub used_without : ℕ → Option Item → ℕ
used_without used none = used
used_without used (some item) = sub64 used item.size

module _ (s : Store) (key value : Bytes) (ttl now later : ℕ) where
  pub items-set_entry :
      (set_entry s key value ttl now later).items
      ≡ insert key (new_item s key value ttl now later) s.items
  unfolding set_entry store_item push_heaps forget_old
  items-set_entry = ground arith

  pub used-set_entry :
      (set_entry s key value ttl now later).used_memory
      ≡ add64
          (used_without s.used_memory (lookup key s.items))
          (new_item s key value ttl now later).size
  unfolding set_entry store_item push_heaps forget_old used_without
  used-set_entry = ground arith

  pub max_memory-set_entry : (set_entry s key value ttl now later).max_memory ≡ s.max_memory
  unfolding set_entry store_item push_heaps forget_old
  max_memory-set_entry = ground arith

  pub policy-set_entry : (set_entry s key value ttl now later).eviction_policy ≡ s.eviction_policy
  unfolding set_entry store_item push_heaps forget_old
  policy-set_entry = ground arith

-- An item as a read leaves it.
abbrev pub touched : Store → Item → ℕ → Item
touched s item now = record item {
  last_access = now;
  access_id = next_access_id s;
  freq = add64 item.freq 1;
}

pub lookup-touch :
    (s : Store) (key : Bytes) (item : Item) (now : ℕ) (j : Bytes)
    → lookup j (touch s key item now).items
      ≡ (if str_eq key j then some (touched s item now) else lookup j s.items)
unfolding touch push_heaps
lookup-touch s key item now j = lookup-insert key j (touched s item now) s.items

pub lookup-set_entry :
    (s : Store) (key value : Bytes) (ttl now later : ℕ) (j : Bytes)
    → lookup j (set_entry s key value ttl now later).items
      ≡ (if str_eq key j then some (new_item s key value ttl now later) else lookup j s.items)
lookup-set_entry s key value ttl now later j = rw (items-set_entry, lookup-insert)
